-- ===== src/Reclaims/Jokers.antt =====
-- The jokers that a plan takes: each is a joker of the composition, and none is taken twice.
use compositions.Prelude.{
  ℕ, zero, suc, ◌+◌, ◌≤◌, ◌<◌, ◌≡◌, refl, String, true, false, Option, List, [], ◌∷◌, ◌==◌,
  if◌then◌else◌, count, count-le-one, is_empty, All, IsDistinct, nat_eq, string_eq, option_eq,
  Bool-cases, Option-cases, inl, inr, arith, subst, eq_iff,
}
use native.Mathlib.Nat.{le_trans}
use compositions.Prelude.Maps.{keys}
use compositions.Snapshots.{Card, Composition}
use compositions.Points.{naturals, first_rank}
use compositions.Hand.{HandEntry}
use compositions.Reclaims.{
  PlannedReclaim, ReclaimOption, joker_at, joker_reclaim_options, joker_indices_from,
  missing_suit_option, by_card_key, match_options, infer_set_planned_joker_reclaims,
  build_explicit_reclaims, plan_table_joker_reclaims, infer_planned_joker_reclaims_for_insert_index,
}
use compositions.Reclaims.Explicit.{
  joker_indices, IsAsked, build_explicit_reclaims-IsAsked, plan-cases, in_play_order,
}
use compositions.Reclaims.Options.{
  offered, once_at, count-by_card_key, match_options-count, options_from-count,
}

joker_indices_from-later :
    (k i : ℕ) (cards : List Card) → k < i → count k (joker_indices_from i cards) ≡ 0
unfolding joker_indices_from
joker_indices_from-later k i [] later = refl
joker_indices_from-later k i (card ∷ cards) later =
    ground (arith, later, joker_indices_from-later k (i + 1) cards (omega (arith, later)))

joker_indices_from-count :
    (k i j : ℕ) (cards : List Card)
    → k ≡ i + j
    → count k (joker_indices_from i cards) ≡ once_at cards j
unfolding joker_indices_from
joker_indices_from-count k i j [] e = refl
joker_indices_from-count k i zero (card ∷ cards) e =
    ground (arith, e, joker_indices_from-later k (i + 1) cards (omega (arith, e)))
joker_indices_from-count k i (suc j) (card ∷ cards) e =
    ground (arith, e, joker_indices_from-count k (i + 1) j cards (omega (arith, e)))

missing_suit_option-count :
    (j rank : ℕ) (indices suits : List ℕ)
    → count j (offered (missing_suit_option rank indices suits)) ≤ count j indices
unfolding missing_suit_option
missing_suit_option-count j rank [] suits = omega arith
missing_suit_option-count j rank (i ∷ k ∷ indices) suits = omega arith
missing_suit_option-count j rank (i ∷ []) suits = ground arith

available-count :
    (j rank : ℕ) (composition : Composition) (suits : List ℕ)
    → IsDistinct (keys composition.joker_representations)
    → (let represented = joker_reclaim_options composition in
        count j (
          offered (
            if is_empty represented
            then missing_suit_option rank (joker_indices_from 0 composition.cards) suits
            else represented))
        ≤ once_at composition.cards j)
unfolding joker_reclaim_options
available-count j rank composition suits distinct =
    let indices = joker_indices_from 0 composition.cards in
    elim (Bool-cases (is_empty (joker_reclaim_options composition))) [
      | inl none_represented ↦ rw none_represented (
          omega (
            arith,
            missing_suit_option-count j rank indices suits,
            joker_indices_from-count j 0 j composition.cards (omega arith),
          ))
      | inr represented ↦ rw represented (
          ground (
            arith,
            options_from-count j composition composition.joker_representations,
            count-le-one j (keys composition.joker_representations) distinct,
          ))
    ]

matched-count :
    (j : ℕ) (options : List ReclaimOption) (entries : List HandEntry)
    → count j (joker_indices (match_options (by_card_key options) entries).reclaims)
      ≤ count j (offered options)
matched-count j options entries =
    omega
      (arith, match_options-count j (by_card_key options) entries, count-by_card_key j options [])

infer_set-count :
    (j : ℕ) (composition : Composition) (entries : List HandEntry)
    → IsDistinct (keys composition.joker_representations)
    → count j (joker_indices (infer_set_planned_joker_reclaims composition entries).reclaims)
      ≤ once_at composition.cards j
unfolding infer_set_planned_joker_reclaims
infer_set-count j composition entries distinct =
    elim (Option-cases (first_rank (naturals composition.cards))) [
      | inl no_rank ↦ rw (no_rank, infer_set_planned_joker_reclaims) (omega arith)
      | inr (rank, at) ↦
          rw (at, infer_set_planned_joker_reclaims)
            (le_trans (matched-count j _ _) (available-count j rank composition _ distinct))
    ]

asked-count :
    (j : ℕ) (composition : Composition) (targets : Option (List (String × ℕ)))
    (reclaims : List PlannedReclaim)
    → All (IsAsked composition targets) reclaims
    → joker_at composition.cards j ≡ false
    → count j (joker_indices reclaims) ≡ 0
asked-count j composition targets [] h plain = refl
asked-count j composition targets (r ∷ reclaims) ((target, (joker, fits)), h) plain =
    let rest = asked-count j composition targets reclaims h plain in
    elim (Bool-cases (r.joker_index == j)) [
      | inl here ↦ absurd (
          let same = (nat_eq.equal_iff r.joker_index j).0 here in
          let joker' : joker_at composition.cards j ≡ true =
            subst (λ i. joker_at composition.cards i ≡ true) same joker in
          cc)
      | inr other ↦ rw other rest
    ]

explicit-count :
    (j : ℕ) (composition : Composition) (entries : List HandEntry)
    (targets : Option (List (String × ℕ)))
    → count j (joker_indices (build_explicit_reclaims composition entries targets).reclaims)
      ≤ once_at composition.cards j
explicit-count j composition entries targets =
    let (asked, distinct) = build_explicit_reclaims-IsAsked composition entries targets in
    let reclaims = (build_explicit_reclaims composition entries targets).reclaims in
    elim (Bool-cases (joker_at composition.cards j)) [
      | inl joker ↦ rw joker (count-le-one j (joker_indices reclaims) distinct)
      | inr plain ↦ rw plain (omega (arith, asked-count j composition targets reclaims asked plain))
    ]

-- Where each index has its representation once, a plan takes only jokers of the composition, each once.
pub plan_table_joker_reclaims-count :
    (j : ℕ) (composition : Composition) (entries : List HandEntry) (insert_index : ℕ)
    (targets : Option (List (String × ℕ)))
    → IsDistinct (keys composition.joker_representations)
    → count j (
        joker_indices (plan_table_joker_reclaims composition entries insert_index targets).reclaims)
      ≤ once_at composition.cards j
unfolding infer_planned_joker_reclaims_for_insert_index
plan_table_joker_reclaims-count j composition entries insert_index targets distinct =
    elim (plan-cases composition entries insert_index targets) [
      | inl explicit ↦ rw explicit (explicit-count j composition entries targets)
      | inr (set, same, _) ↦ rw same (
          rw ((eq_iff composition.type "set").1 set) (
            infer_set-count j composition (in_play_order composition entries insert_index targets)
              distinct))
    ]
