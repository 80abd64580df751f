-- ===== src/Points/Placement.antt =====
-- The inner loop of `draftRunPointTotal` finds a placement of the natural cards in a window
-- whenever there is one, although it never moves a card that it has placed.
use compositions.Prelude.{
  ℕ, suc, ◌+◌, ◌≤◌, ◌≡◌, refl, ◌≢◌, ◌↔◌, ◌⊎◌, ◌&&◌, Bool, false, true, List, [], ◌∷◌, All, contains,
  nat_eq, arith, Bool-cases, inl, inr, ◌==◌, if◌then◌else◌,
}
use compositions.Snapshots.{Card}
use compositions.Points.{is_free, rank_or_zero, run_fits}

-- An ace may stand below the two or above the king, any other card at its rank.
abbrev pub MayStandAt : Card → ℕ → Type 0
MayStandAt card position =
    ((rank_or_zero card ≡ 1) × (position ≡ 14)) ⊎ (rank_or_zero card ≡ position)

abbrev pub IsLow : Card → Type 0
IsLow card = rank_or_zero card ≤ 13

module _ (start end : ℕ) where
  -- Each card has a position of its own from `start` to `end`, and none of those in `used`.
  abbrev pub Places : List ℕ → List Card → Type 0
  Places used [] = Unit
  Places used (card ∷ cards) =
      (position : ℕ) × MayStandAt card position
      × (start ≤ position)
      × (position ≤ end)
      × (contains used position ≡ false)
      × Places (position ∷ used) cards

  -- The number of free places for an ace, and of the aces.
  slots : List ℕ → ℕ
  slots used =
      (if is_free start end used 1 then 1 else 0) + (if is_free start end used 14 then 1 else 0)

  aces : List Card → ℕ
  aces [] = 0
  aces (card ∷ cards) = if rank_or_zero card == 1 then suc (aces cards) else aces cards

  -- The cards other than aces have different ranks, all free.
  others_fit : List ℕ → List Card → Bool
  others_fit used [] = true
  others_fit used (card ∷ cards) =
      if rank_or_zero card == 1
      then others_fit used cards
      else is_free start end used (rank_or_zero card) && others_fit (rank_or_zero card ∷ used) cards

  -- Where the places of aces are used or not makes no difference to the other cards.
  others_fit_congr :
      (u v : List ℕ) (cards : List Card)
      → ((r : ℕ) → r ≢ 1 → r ≤ 13 → contains u r ≡ contains v r)
      → All IsLow cards
      → others_fit u cards ≡ others_fit v cards
  unfolding others_fit is_free
  others_fit_congr u v [] same low = refl
  others_fit_congr u v (card ∷ cards) same (h, low) = ground (
    arith,
    same (rank_or_zero card),
    others_fit_congr u v cards same low,
    others_fit_congr (rank_or_zero card ∷ u) (rank_or_zero card ∷ v) cards,
    λ (r : ℕ) (p : r ≢ 1) (q : r ≤ 13). same r p q,
  )

  others_fit-ace :
      (a : ℕ) (used : List ℕ) (cards : List Card)
      → (a ≡ 1) ⊎ (a ≡ 14)
      → All IsLow cards
      → others_fit (a ∷ used) cards ≡ others_fit used cards
  others_fit-ace a used cards h low =
      others_fit_congr (a ∷ used) used cards (λ r p q. ground arith) low

  run_fits-nil : (used : List ℕ) → run_fits start end used [] ≡ true
  unfolding run_fits
  run_fits-nil used = refl

  run_fits-cons :
      (used : List ℕ) (card : Card) (cards : List Card)
      → run_fits start end used (card ∷ cards) ≡ (
          if rank_or_zero card == 1
          then if is_free start end used 1
            then run_fits start end (1 ∷ used) cards
            else if is_free start end used 14
            then run_fits start end (14 ∷ used) cards
            else false
          else if is_free start end used (rank_or_zero card)
          then run_fits start end (rank_or_zero card ∷ used) cards
          else false)
  unfolding run_fits
  run_fits-cons used card cards = ground arith

  slots-cons :
      (position : ℕ) (used : List ℕ)
      → (position ≡ 1) ⊎ (position ≡ 14)
      → is_free start end used position ≡ true
      → suc (slots (position ∷ used)) ≡ slots used
  unfolding slots is_free
  slots-cons position used h free = ground arith

  slots-cons_other :
      (position : ℕ) (used : List ℕ)
      → position ≢ 1
      → position ≢ 14
      → slots (position ∷ used) ≡ slots used
  unfolding slots is_free
  slots-cons_other position used h k = ground arith

  no_slot :
      (used : List ℕ)
      → is_free start end used 1 ≡ false
      → is_free start end used 14 ≡ false
      → slots used ≡ 0
  unfolding slots
  no_slot used h k = ground arith

  -- The loop succeeds exactly when the other cards fit and the aces are not too many.
  run_fits_iff :
      (used : List ℕ) (cards : List Card)
      → All IsLow cards
      → (run_fits start end used cards ≡ true)
        ↔ ((others_fit used cards ≡ true) × (aces cards ≤ slots used))
  unfolding others_fit aces
  run_fits_iff used [] low = (λ _. (refl, omega arith), λ _. run_fits-nil used)
  run_fits_iff used (card ∷ cards) (h, low) = elim (Bool-cases (rank_or_zero card == 1)) [
    | inl ace ↦ ground (
      arith,
      ace,
      run_fits-cons used card cards,
      run_fits_iff (1 ∷ used) cards low,
      run_fits_iff (14 ∷ used) cards low,
      others_fit-ace 1 used cards (inl refl) low,
      others_fit-ace 14 used cards (inr refl) low,
      slots-cons 1 used (inl refl),
      slots-cons 14 used (inr refl),
      no_slot used,
    )
    | inr other ↦ ground (
      arith,
      other,
      run_fits-cons used card cards,
      run_fits_iff (rank_or_zero card ∷ used) cards low,
      slots-cons_other (rank_or_zero card) used,
    )
  ]

  Places→fits :
      (used : List ℕ) (cards : List Card)
      → All IsLow cards
      → Places used cards
      → (others_fit used cards ≡ true) × (aces cards ≤ slots used)
  unfolding others_fit aces slots is_free
  Places→fits used [] low p = ground arith
  Places→fits used (card ∷ cards) (h, low) (position, may, from, to, unused, rest) = ground (
    arith,
    Places→fits (position ∷ used) cards low rest,
    others_fit-ace 1 used cards (inl refl) low,
    others_fit-ace 14 used cards (inr refl) low,
  )

  place :
      (position : ℕ) (used : List ℕ) (card : Card) (cards : List Card)
      → MayStandAt card position
      → is_free start end used position ≡ true
      → Places (position ∷ used) cards
      → Places used (card ∷ cards)
  unfolding is_free
  place position used card cards may free rest =
      (position, may, ground arith, ground arith, ground arith, rest)

  run_fits→Places :
      (used : List ℕ) (cards : List Card) → run_fits start end used cards ≡ true → Places used cards
  run_fits→Places used [] e = tt
  run_fits→Places used (card ∷ cards) e = elim (Bool-cases (rank_or_zero card == 1)) [
    | inl ace ↦ elim (Bool-cases (is_free start end used 1)) [
      | inl low ↦
          place 1 used card cards (ground arith) low
            (run_fits→Places (1 ∷ used) cards (ground (arith, run_fits-cons used card cards)))
      | inr high ↦
          place 14 used card cards (ground arith) (ground (arith, run_fits-cons used card cards))
            (run_fits→Places (14 ∷ used) cards (ground (arith, run_fits-cons used card cards)))
    ]
    | inr other ↦
        place (rank_or_zero card) used card cards (inr refl)
          (ground (arith, run_fits-cons used card cards))
          (run_fits→Places (rank_or_zero card ∷ used) cards
            (ground (arith, run_fits-cons used card cards)))
  ]

  -- The loop over one window finds a place for every natural card exactly when there is a way to
  -- place them, each at a position of its own.
  pub run_fits-Places :
      (cards : List Card) → All IsLow cards → (run_fits start end [] cards ≡ true) ↔ Places [] cards
  run_fits-Places cards low =
      (run_fits→Places [] cards, λ p. (run_fits_iff [] cards low).1 (Places→fits [] cards low p))
