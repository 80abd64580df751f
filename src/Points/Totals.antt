-- ===== src/Points/Totals.antt =====
-- The totals that the drafts of the table show, and how they agree with which drafts are valid.
use compositions.Prelude.{
  Bool-cases, nat_eq, ◌==◌, ℕ, zero, suc, ◌+◌, ◌*◌, ◌≤◌, ◌<◌, ◌≡◌, refl, ◌⊎◌, ◌&&◌, String, Bool,
  false, true, Option, some, List, [], ◌∷◌, length, all, is_some, get_or, nat_eq, string_eq,
  option_eq, arith, Option-cases, inl, inr, if◌then◌else◌, leb,
}
use compositions.Snapshots.{Card}
use compositions.Points.{
  rank_point_value, has_valid_natural_identity, naturals, first_rank, window_total,
  draft_set_point_total, draft_run_point_total, resolved_points, draft_composition_point_total,
  is_valid_draft_composition,
}
use compositions.Points.Sets.{draft_set_point_total_iff}
use compositions.Points.Runs.{draft_run_point_total_iff}

-- Every window that a run can have is worth from six to ninety-five points.
checked : (ℕ → Bool) → ℕ → Bool
checked test zero = true
checked test (suc k) = checked test k && test k

checked_sound : (test : ℕ → Bool) (k n : ℕ) → n < k → checked test k ≡ true → test n ≡ true
unfolding checked
checked_sound test (suc k) n below all = elim (Bool-cases (n == k)) [
  | inl last ↦ rw ((nat_eq.equal_iff n k).0 last) (ground arith)
  | inr before ↦ checked_sound test k n (ground (arith, nat_eq.equal_iff n k)) (ground arith)
]
checked_sound test zero n below all = absurd (omega arith)

in_range : ℕ → ℕ → Bool
in_range size start =
    if leb 3 size && leb 1 start && leb (start + size) 15
    then leb 6 (window_total size start) && leb (window_total size start) 95
    else true

window_table : checked (λ size. checked (in_range size) 15) 15 ≡ true
unfolding checked in_range window_total
window_table = refl

window_total_bounds :
    (size start : ℕ)
    → 3 ≤ size
    → 1 ≤ start
    → start + size ≤ 15
    → (6 ≤ window_total size start) × (window_total size start ≤ 95)
unfolding in_range
window_total_bounds size start h k l =
    let row = checked_sound (λ n. checked (in_range n) 15) 15 size (omega arith) window_table in
    let cell = checked_sound (in_range size) 15 start (omega arith) row in
    (ground arith, ground arith)

rank_point_value_bounds :
    (rank : ℕ)
    → 1 ≤ rank
    → rank ≤ 13
    → (2 ≤ rank_point_value rank false) × (rank_point_value rank false ≤ 10)
unfolding rank_point_value
rank_point_value_bounds rank h k = (ground arith, ground arith)

run_total_bounds :
    (cards : List Card) (n : ℕ) → draft_run_point_total cards ≡ some n → (6 ≤ n) × (n ≤ 95)
run_total_bounds cards n e =
    let ((start, r, worth), _) = (draft_run_point_total_iff cards n).0 e in
    rw worth (window_total_bounds (length cards) start r.enough r.from_ace r.to_ace)

first_rank-bounds :
    (cards : List Card)
    → all has_valid_natural_identity cards ≡ true
    → all (λ card. card.is_joker) cards ≡ false
    → (1 ≤ get_or 1 (first_rank (naturals cards))) × (get_or 1 (first_rank (naturals cards)) ≤ 13)
first_rank-bounds [] h k = absurd (cc)
first_rank-bounds (card ∷ cards) h k = ground (arith, first_rank-bounds cards)

product_bounds : (a b : ℕ) → 3 ≤ a → a ≤ 4 → 2 ≤ b → b ≤ 10 → (6 ≤ a * b) × (a * b ≤ 95)
product_bounds a b h k l m = (grind arith, grind arith)

set_total_bounds :
    (cards : List Card) (n : ℕ)
    → all (λ card. card.is_joker) cards ≡ false
    → draft_set_point_total cards ≡ some n
    → (6 ≤ n) × (n ≤ 95)
set_total_bounds cards n natural e =
    let (rank, s, worth) = (draft_set_point_total_iff cards n).0 e in
    let (low, high) = first_rank-bounds cards s.real natural in
    let (least, most) = rank_point_value_bounds rank (rw s.rank_of low) (rw s.rank_of high) in
    rw worth (product_bounds (length cards) (rank_point_value rank false) s.enough s.few least most)

-- `resolvedPoints` is there exactly for the valid drafts.
pub is_valid_iff :
    (cards : List Card) (type : Option String)
    → is_valid_draft_composition cards type ≡ is_some (resolved_points cards type)
unfolding is_valid_draft_composition resolved_points
is_valid_iff cards type = ground arith

pub resolved_points_cases :
    (cards : List Card) (type : Option String) (n : ℕ)
    → resolved_points cards type ≡ some n
    → (draft_set_point_total cards ≡ some n) ⊎ (draft_run_point_total cards ≡ some n)
unfolding resolved_points
resolved_points_cases cards type n e = ground arith

-- A draft that is valid, of whatever type, and has a natural card shows a total, which is the value
-- of a set or of a run and lies between six and ninety-five points.
pub draft_composition_point_total-valid :
    (cards : List Card) (type : Option String)
    → is_valid_draft_composition cards type ≡ true
    → all (λ card. card.is_joker) cards ≡ false
    → (n : ℕ) × (draft_composition_point_total cards type ≡ some n)
      × ((draft_set_point_total cards ≡ some n) ⊎ (draft_run_point_total cards ≡ some n))
      × (6 ≤ n)
      × (n ≤ 95)
unfolding draft_composition_point_total
draft_composition_point_total-valid cards type valid natural =
    elim (Option-cases (resolved_points cards type)) [
      | inl absent ↦ absurd (cc (is_valid_iff cards type))
      | inr (n, e) ↦
          let source = resolved_points_cases cards type n e in
          let bounds : (6 ≤ n) × (n ≤ 95) = elim source [
            | inl set ↦ set_total_bounds cards n natural set
            | inr run ↦ run_total_bounds cards n run
          ] in
          (n, ground (arith, e), source, bounds.0, bounds.1)
    ]
