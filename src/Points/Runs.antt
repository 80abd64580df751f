-- ===== src/Points/Runs.antt =====
-- Which lists of cards `draftRunPointTotal` accepts, and at what value.
use compositions.Prelude.{
  ℕ, zero, suc, ◌+◌, ◌-◌, ◌≤◌, ◌<◌, ◌≡◌, refl, ◌↔◌, ◌⊎◌, ◌||◌, not, max, false, true, Option, none,
  some, List, [], ◌∷◌, length, All, all, any, is_some, get_or, nat_eq, option_eq, arith, Bool-cases,
  inl, inr, sym, ◌∙◌, ◌!=◌,
}
use native.Mathlib.Decide.{ℕ_discrete}
use native.Mathlib.Nat.{le_antisymm}
use compositions.Snapshots.{Card}
use compositions.Points.{
  has_valid_natural_identity, naturals, first_suit, run_fits, window_total, better, best_run,
  draft_run_point_total,
}
use compositions.Points.Placement.{Places, IsLow, run_fits-Places}

-- The cards make a run whose first card stands at `start`: three to fourteen cards, each a joker or
-- a card of the deck, the natural ones of one suit, with a different position for each of these in
-- the window that begins at `start` and ends at the ace above the king or before it.
pub record IsRunAt (start : ℕ) (cards : List Card) : Type 0 where
  pub enough : 3 ≤ length cards
  pub few : length cards ≤ 14
  pub real : all has_valid_natural_identity cards ≡ true
  pub one_suit : All (λ card. card.suit ≡ first_suit (naturals cards)) (naturals cards)
  pub from_ace : 1 ≤ start
  pub to_ace : start + length cards ≤ 15
  pub placed : Places start (start + length cards - 1) [] (naturals cards)

naturals-IsLow :
    (cards : List Card) → all has_valid_natural_identity cards ≡ true → All IsLow (naturals cards)
naturals-IsLow [] h = tt
naturals-IsLow (card ∷ cards) h = ground (arith, naturals-IsLow cards)

module _ (size : ℕ) (cards : List Card) where
  abbrev FitsFrom : ℕ → Type 0
  FitsFrom start = run_fits start (start + size - 1) [] cards ≡ true

  better_keeps : (start b : ℕ) → (m : ℕ) × (better size cards start (some b) ≡ some m) × (b ≤ m)
  unfolding better
  better_keeps start b = elim (Bool-cases (run_fits start (start + size - 1) [] cards)) [
    | inl fits ↦ (max b (window_total size start), rw fits refl, omega arith)
    | inr not_fits ↦ (b, rw not_fits refl, omega arith)
  ]

  better_fits :
      (start : ℕ) (best : Option ℕ)
      → FitsFrom start
      → (m : ℕ) × (better size cards start best ≡ some m) × (window_total size start ≤ m)
  unfolding better
  better_fits start best fits =
      (max (get_or 0 best) (window_total size start), rw fits refl, omega arith)

  better_cases :
      (start : ℕ) (best : Option ℕ) (m : ℕ)
      → better size cards start best ≡ some m
      → (best ≡ some m) ⊎ (FitsFrom start × (m ≡ window_total size start))
  unfolding better
  better_cases start best m e = ground arith

  best_run_keeps :
      (left start b : ℕ) → (m : ℕ) × (best_run size cards left start (some b) ≡ some m) × (b ≤ m)
  unfolding best_run
  best_run_keeps zero start b = (b, refl, omega arith)
  best_run_keeps (suc left) start b =
      let (c, now, le) = better_keeps start b in
      let (m, e, le') = best_run_keeps left (start + 1) c in (m, rw now e, omega arith)

  best_run_upper :
      (left start : ℕ) (best : Option ℕ) (s : ℕ)
      → start ≤ s
      → s < start + left
      → FitsFrom s
      → (m : ℕ) × (best_run size cards left start best ≡ some m) × (window_total size s ≤ m)
  unfolding best_run
  best_run_upper zero start best s from to fits = absurd (omega arith)
  best_run_upper (suc left) start best s from to fits = elim (ℕ_discrete start s) [
    | yes here ↦
        let (c, now, le) = better_fits start best (rw here fits) in
        let (m, e, le') = best_run_keeps left (start + 1) c in
        (m, rw now e, rw (← here) (omega arith))
    | no later ↦
        best_run_upper left (start + 1) (better size cards start best) s (omega arith) (omega arith)
          fits
  ]

  best_run_attained :
      (left start : ℕ) (best : Option ℕ) (m : ℕ)
      → best_run size cards left start best ≡ some m
      → (best ≡ some m)
        ⊎ ((s : ℕ) × (start ≤ s) × (s < start + left) × FitsFrom s × (m ≡ window_total size s))
  unfolding best_run
  best_run_attained zero start best m e = inl e
  best_run_attained (suc left) start best m e =
      elim (best_run_attained left (start + 1) (better size cards start best) m e) [
        | inr (s, from, to, fits, worth) ↦ inr (s, omega arith, omega arith, fits, worth)
        | inl early ↦ elim (better_cases start best m early) [
          | inl before ↦ inl before
          | inr (fits, worth) ↦ inr (start, omega arith, omega arith, fits, worth)
        ]
      ]

-- A natural card of the deck has a rank, so that test of the code's never fails here.
one_suit_iff :
    (suit : Option ℕ) (cards : List Card)
    → all has_valid_natural_identity cards ≡ true
    → (any (λ card. card.suit != suit || not (is_some card.rank)) (naturals cards) ≡ false)
      ↔ All (λ card. card.suit ≡ suit) (naturals cards)
one_suit_iff suit [] h = ground arith
one_suit_iff suit (card ∷ cards) h =
    ground (arith, one_suit_iff suit cards, option_eq.equal_iff card.suit suit)

module _ (cards : List Card) where
  -- The windows that the code tries: those that the length of the run leaves room for.
  tried : Option ℕ
  tried = best_run (length cards) (naturals cards) (15 - length cards) 1 none

  IsRunAt→fits :
      (start : ℕ)
      → IsRunAt start cards
      → run_fits start (start + length cards - 1) [] (naturals cards) ≡ true
  IsRunAt→fits start r =
      (run_fits-Places start (start + length cards - 1) (naturals cards)
          (naturals-IsLow cards r.real)).1
        r.placed

  IsRunAt→total : (start : ℕ) → IsRunAt start cards → draft_run_point_total cards ≡ tried
  unfolding draft_run_point_total tried
  IsRunAt→total start r =
      let enough = r.enough in
      let few = r.few in
      let real = r.real in
      ground (arith, (one_suit_iff (first_suit (naturals cards)) cards r.real).1 r.one_suit)

  IsRunAt→upper :
      (start : ℕ)
      → IsRunAt start cards
      → (m : ℕ) × (draft_run_point_total cards ≡ some m) × (window_total (length cards) start ≤ m)
  unfolding tried
  IsRunAt→upper start r =
      let (m, e, le) =
        best_run_upper (length cards) (naturals cards) (15 - length cards) 1 none start r.from_ace
          (omega arith) (IsRunAt→fits start r) in
      (m, IsRunAt→total start r ∙ e, le)

  total→guards :
      (n : ℕ)
      → draft_run_point_total cards ≡ some n
      → (3 ≤ length cards)
        × (length cards ≤ 14)
        × (all has_valid_natural_identity cards ≡ true)
        × (any
              (λ card. card.suit != first_suit (naturals cards) || not (is_some card.rank))
              (naturals cards)
            ≡ false)
        × (tried ≡ some n)
  unfolding draft_run_point_total tried
  total→guards n e = (ground arith, ground arith, ground arith, ground arith, ground arith)

  total→IsRunAt :
      (n : ℕ)
      → draft_run_point_total cards ≡ some n
      → (start : ℕ) × IsRunAt start cards × (n ≡ window_total (length cards) start)
  unfolding tried
  total→IsRunAt n e =
      let (enough, few, real, same, best) = total→guards n e in
      elim (best_run_attained (length cards) (naturals cards) (15 - length cards) 1 none n best) [
        | inl none_before ↦ absurd (cc)
        | inr (start, from, to, fits, worth) ↦ (
          start,
          record {
            enough = enough;
            few = few;
            real = real;
            one_suit = (one_suit_iff (first_suit (naturals cards)) cards real).0 same;
            from_ace = from;
            to_ace = omega arith;
            placed =
                (run_fits-Places start (start + length cards - 1) (naturals cards)
                    (naturals-IsLow cards real)).0
                  fits;
          },
          worth,
        )
      ]

-- `draftRunPointTotal` gives a total exactly when the cards make a run, and the total is the
-- greatest of the values of the windows in which they do: each window is worth the point values of
-- its positions, an ace being one below the two and ten above the king.
pub draft_run_point_total_iff :
    (cards : List Card) (n : ℕ)
    → (draft_run_point_total cards ≡ some n) ↔ (
        ((start : ℕ) × IsRunAt start cards × (n ≡ window_total (length cards) start))
        × ((start : ℕ) → IsRunAt start cards → window_total (length cards) start ≤ n))
draft_run_point_total_iff cards n = (
  λ e. (
    total→IsRunAt cards n e,
    λ start r.
        let (m, e', le) = IsRunAt→upper cards start r in
        let same : some n ≡ some m = sym e ∙ e' in ground arith,
  ),
  λ ((start, r, worth), upper).
      let (m, e, le) = IsRunAt→upper cards start r in
      let (start', r', worth') = total→IsRunAt cards m e in
      let same : n ≡ m = le_antisymm (omega arith) (rw worth' (upper start' r')) in rw same e,
)
