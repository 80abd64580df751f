-- ===== src/Points/Complete.antt =====
-- Complete compositions, which leave the table, and the value of a reclaimed joker.
use compositions.Prelude.{
  ℕ, suc, ◌+◌, ◌*◌, ◌≤◌, ◌<◌, ◌≡◌, refl, ◌⊎◌, String, false, true, Option, none, some, List, [],
  ◌∷◌, length, Eq, all, any, is_some, nat_eq, string_eq, option_eq, arith, eq_iff, Option-cases,
  inl, inr, ap, ◌∙◌, ◌≢◌,
}
use compositions.Snapshots.{Card, Composition}
use compositions.Points.{
  rank_point_value, window_total, draft_set_point_total, draft_run_point_total, resolved_points,
  draft_composition_point_total, is_valid_draft_composition, is_complete_draft_composition,
  joker_reclaim_point_value, is_joker_at, next_rank, rank_of_position, position_value,
}
use compositions.Points.Sets.{IsSetOf, draft_set_point_total_iff}
use compositions.Points.Totals.{is_valid_iff}
use compositions.Points.Runs.{IsRunAt, draft_run_point_total_iff}

window_14 : window_total 14 1 ≡ 95
unfolding window_total
window_14 = refl

full_run_total :
    (cards : List Card) (n : ℕ) → length cards ≡ 14 → draft_run_point_total cards ≡ some n → n ≡ 95
full_run_total cards n long e =
    let ((start, r, worth), _) = (draft_run_point_total_iff cards n).0 e in
    let low = r.from_ace in
    let high = r.to_ace in
    let first : start ≡ 1 = omega arith in
    worth ∙ ap (λ size. window_total size start) long ∙ ap (window_total 14) first ∙ window_14

long_not_set : (cards : List Card) → length cards ≡ 14 → draft_set_point_total cards ≡ none
long_not_set cards long = elim (Option-cases (draft_set_point_total cards)) [
  | inl absent ↦ absent
  | inr (n, e) ↦
      let (rank, s, _) = (draft_set_point_total_iff cards n).0 e in
      let few = s.few in absurd (omega arith)
]

no_jokers :
    (cards : List Card)
    → any (λ card. card.is_joker) cards ≡ false
    → 0 < length cards
    → all (λ card. card.is_joker) cards ≡ false
no_jokers [] h k = absurd (omega arith)
no_jokers (card ∷ cards) h k = ground arith

-- The two ways for a draft to be complete, and its total then: the four cards of a rank, worth four
-- times the value of the rank, or the fourteen of a suit from ace to ace, worth ninety-five.
abbrev pub IsFull : List Card → ℕ → Type 0
IsFull cards n =
    ((length cards ≡ 4) × ((rank : ℕ) × IsSetOf rank cards × (n ≡ 4 * rank_point_value rank false)))
    ⊎ ((length cards ≡ 14) × ((start : ℕ) × IsRunAt start cards) × (n ≡ 95))

abbrev type_eq : Eq (Option String)
type_eq = option_eq

set_ne_run : ◌≢◌ {A = String} "set" "run"
set_ne_run = ground (arith, eq_iff "set" "run")

complete_cases :
    (cards : List Card) (type : Option String)
    → is_complete_draft_composition cards type ≡ true
    → (any (λ card. card.is_joker) cards ≡ false)
      × (((length cards ≡ 4) × (is_some (draft_set_point_total cards) ≡ true) × (type ≢ some "run"))
          ⊎ ((length cards ≡ 14)
              × (is_some (draft_run_point_total cards) ≡ true)
              × (type ≢ some "set")))
unfolding is_complete_draft_composition
complete_cases cards type h = (
  ground arith,
  ground (
    arith,
    type_eq.equal_iff type (some "set"),
    type_eq.equal_iff type (some "run"),
    type_eq.equal_iff type none,
    set_ne_run,
  ),
)

resolved_of_set :
    (cards : List Card) (type : Option String) (n : ℕ)
    → type ≢ some "run"
    → draft_set_point_total cards ≡ some n
    → resolved_points cards type ≡ some n
unfolding resolved_points
resolved_of_set cards type n other e = ground (arith, e, type_eq.equal_iff type (some "run"))

resolved_of_run :
    (cards : List Card) (type : Option String) (n : ℕ)
    → type ≢ some "set"
    → draft_set_point_total cards ≡ none
    → draft_run_point_total cards ≡ some n
    → resolved_points cards type ≡ some n
unfolding resolved_points
resolved_of_run cards type n other no_set e =
    ground (arith, no_set, e, type_eq.equal_iff type (some "set"))

total_of_resolved :
    (cards : List Card) (type : Option String) (n : ℕ)
    → all (λ card. card.is_joker) cards ≡ false
    → resolved_points cards type ≡ some n
    → draft_composition_point_total cards type ≡ some n
unfolding draft_composition_point_total
total_of_resolved cards type n natural e = ground (arith, e)

is_some→some : (o : Option ℕ) → is_some o ≡ true → (n : ℕ) × (o ≡ some n)
is_some→some none h = absurd (cc)
is_some→some (some n) h = (n, refl)

complete_total :
    (cards : List Card) (type : Option String)
    → is_complete_draft_composition cards type ≡ true
    → (n : ℕ) × (resolved_points cards type ≡ some n) × IsFull cards n × (0 < length cards)
complete_total cards type h = elim (complete_cases cards type h).1 [
  | inl (four, set, other) ↦
      let (n, e) = is_some→some (draft_set_point_total cards) set in
      let (rank, s, worth) = (draft_set_point_total_iff cards n).0 e in
      (
        n,
        resolved_of_set cards type n other e,
        inl (four, (rank, s, worth ∙ ap (λ k. k * rank_point_value rank false) four)),
        omega arith,
      )
  | inr (long, run, other) ↦
      let (n, e) = is_some→some (draft_run_point_total cards) run in
      let ((start, r, _), _) = (draft_run_point_total_iff cards n).0 e in
      (
        n,
        resolved_of_run cards type n other (long_not_set cards long) e,
        inr (long, (start, r), full_run_total cards n long e),
        omega arith,
      )
]

-- A draft that is complete, of whatever type, has no joker, is a valid draft, and is full: its total
-- is four times the value of the rank of a set of four, or the ninety-five points of a run of
-- fourteen.
pub is_complete_draft_composition-IsFull :
    (cards : List Card) (type : Option String)
    → is_complete_draft_composition cards type ≡ true
    → (any (λ card. card.is_joker) cards ≡ false)
      × (is_valid_draft_composition cards type ≡ true)
      × ((n : ℕ) × (draft_composition_point_total cards type ≡ some n) × IsFull cards n)
is_complete_draft_composition-IsFull cards type h =
    let (n, e, full, nonempty) = complete_total cards type h in
    let jokerless = (complete_cases cards type h).0 in
    (
      jokerless,
      is_valid_iff cards type ∙ ap is_some e,
      (n, total_of_resolved cards type n (no_jokers cards jokerless nonempty) e, full),
    )

-- A joker of a run that stands at its positions from `start` on, reclaimed by the card of its
-- position: the card is worth exactly what that position is worth in the total of the run, an ace
-- counting one below the two and ten above the king.
pub joker_reclaim_point_value-run :
    (composition : Composition) (start joker_index : ℕ) (card : Card)
    → composition.type ≡ "run"
    → 1 ≤ start
    → start + length composition.cards ≤ 15
    → 2 ≤ length composition.cards
    → joker_index < length composition.cards
    → is_joker_at composition.cards joker_index ≡ true
    → card.rank ≡ some (rank_of_position (start + joker_index))
    → (suc joker_index < length composition.cards
        → next_rank composition (joker_index + 1)
          ≡ some (rank_of_position (start + joker_index + 1)))
    → joker_reclaim_point_value composition joker_index card
      ≡ some (position_value (start + joker_index))
unfolding joker_reclaim_point_value rank_point_value position_value
joker_reclaim_point_value-run composition start joker_index card run low high long inside joker rank
      next =
    ground (arith, eq_iff composition.type "run")
