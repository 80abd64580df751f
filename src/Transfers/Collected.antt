-- ===== src/Transfers/Collected.antt =====
-- What an inferred collection of completed compositions shows.
use compositions.Prelude.{
  ℕ, zero, suc, ◌-◌, ◌≤◌, ◌≡◌, ◌≢◌, refl, Bool, true, false, not, ◌||◌, Option, none, some, List,
  [], ◌∷◌, ◌++◌, leb, take, drop, head?, is_empty, length, Eq, nat_eq, string_eq, option_eq,
  take-append-drop, Bool-cases, Option-cases, inl, inr, arith, ap, sym, subst, ◌∙◌,
}
use compositions.Snapshots.{Card}
use compositions.Snapshots.Game.{Game}
use compositions.Drafts.{truthy}
use compositions.Reclaims.{bool_beq, cards_equal}
use compositions.Transfers.{
  CompletedCollection, card_lists_equal, infer_completed_composition_collection,
}

bool_beq_sound : (a b : Bool) → bool_beq a b ≡ true → a ≡ b
unfolding bool_beq
bool_beq_sound true b h = sym h
bool_beq_sound false true h = absurd (cc)
bool_beq_sound false false h = refl

abbrev ranks : Eq (Option ℕ)
ranks = option_eq

cards_equal_sound : (a b : Card) → cards_equal a b ≡ true → a ≡ b
unfolding cards_equal
cards_equal_sound a b h =
    let jokers = bool_beq_sound a.is_joker b.is_joker (ground (arith, h)) in
    let rank = (ranks.equal_iff a.rank b.rank).0 (ground (arith, h)) in
    let suit = (ranks.equal_iff a.suit b.suit).0 (ground (arith, h)) in
    λ i. record { rank = rank i; suit = suit i; is_joker = jokers i }

card_lists_equal_sound :
    (left right : List Card) → card_lists_equal left right ≡ true → left ≡ right
unfolding card_lists_equal
card_lists_equal_sound [] [] h = refl
card_lists_equal_sound [] (b ∷ right) h = absurd (cc)
card_lists_equal_sound (a ∷ left) [] h = absurd (cc)
card_lists_equal_sound (a ∷ left) (b ∷ right) h =
    let first = cards_equal_sound a b (ground (arith, h)) in
    let others = card_lists_equal_sound left right (ground (arith, h)) in λ i. first i ∷ others i

-- The discard pile is the discarded card, the collected cards, and the pile as it was.
abbrev pub IsCollected : Game → Game → CompletedCollection → Type 0
IsCollected previous current c =
    (truthy previous.turn.player_id ≡ some c.actor_player_id)
    × (current.discard_pile ≡ c.discard_card ∷ (c.collected_cards ++ previous.discard_pile))
    × (is_empty c.collected_cards ≡ false)
    × (c.previous_top_discard ≡ head? previous.discard_pile)

added_cards-split :
    (card : Card) (rest old : List Card) (n : ℕ)
    → 2 ≤ n
    → n ≤ suc (length rest)
    → drop n (card ∷ rest) ≡ old
    → (card ∷ rest ≡ card ∷ (drop 1 (take n (card ∷ rest)) ++ old))
      × (is_empty (drop 1 (take n (card ∷ rest))) ≡ false)
added_cards-split card rest old zero h k e = absurd (omega arith)
added_cards-split card rest old (suc zero) h k e = absurd (omega arith)
added_cards-split card [] old (suc (suc n)) h k e = absurd (omega arith)
added_cards-split card (next ∷ rest) old (suc (suc n)) h k e = (
  ap (λ xs. card ∷ next ∷ xs) (sym (take-append-drop n rest) ∙ ap (λ xs. take n rest ++ xs) e),
  refl,
)

pile-head :
    (pile : List Card) (card : Card)
    → head? pile ≡ some card
    → (rest : List Card) × (pile ≡ card ∷ rest)
pile-head [] card e = absurd (cc)
pile-head (first ∷ rest) card e = (rest, cc)

some_inj : (a b : CompletedCollection) → some a ≡ some b → a ≡ b
some_inj a b e = cc

none_some : (c : CompletedCollection) → ◌≢◌ {A = Option CompletedCollection} none (some c)
none_some c e = cc

-- If the collection of completed compositions is inferred, the discard pile is the card that the
-- player whose turn it was has discarded, then the collected cards, which are some, and then the
-- pile as it was, whose top is reported.
pub infer_completed_composition_collection-IsCollected :
    (previous current : Game) (c : CompletedCollection)
    → infer_completed_composition_collection previous current ≡ some c
    → IsCollected previous current c
unfolding infer_completed_composition_collection
infer_completed_composition_collection-IsCollected previous current c e =
    let old = previous.discard_pile in
    let pile = current.discard_pile in
    let n = length pile - length old in
    elim (Option-cases (truthy previous.turn.player_id)) [
      | inl absent ↦ absurd (none_some c (rw (absent, infer_completed_composition_collection) at e))
      | inr (actor, present) ↦ elim (Option-cases (head? pile)) [
        | inl empty ↦
            absurd (
              none_some c (rw empty at (rw (present, infer_completed_composition_collection) at e)))
        | inr (card, top) ↦
            let e' = rw top at (rw (present, infer_completed_composition_collection) at e) in
            elim (Bool-cases (leb n 1 || not (card_lists_equal (drop n pile) old))) [
              | inl refused ↦ absurd (none_some c (rw refused at e'))
              | inr taken ↦
                  let (rest, at) = pile-head pile card top in
                  let same = some_inj _ c (rw taken at e') in
                  let kept = card_lists_equal_sound (drop n pile) old (ground (arith, taken)) in
                  let (whole, some_cards) =
                    added_cards-split card rest old n (ground (arith, taken))
                      (omega (arith, ap length at)) (ap (drop n) (sym at) ∙ kept) in
                  subst (IsCollected previous current) same (
                    present,
                    at ∙ whole ∙ ap (λ p. card ∷ (drop 1 (take n p) ++ old)) (sym at),
                    ap (λ p. is_empty (drop 1 (take n p))) at ∙ some_cards,
                    refl,
                  )
            ]
      ]
    ]
