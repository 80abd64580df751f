-- ===== src/Tests/Cards.antt =====
-- The theorems on the values of cards, at concrete sets and runs.
use compositions.Prelude.{
  ℕ, ◌*◌, ◌≤◌, ◌≡◌, ◌⊎◌, refl, true, false, none, some, List, [], ◌∷◌, length, any, arith,
}
use compositions.Snapshots.{Card, Composition}
use compositions.Points.{
  rank_point_value, position_value, suits_fit, draft_set_point_total, is_free, run_fits,
  window_total, better, best_run, draft_run_point_total, resolved_points,
  draft_composition_point_total, is_valid_draft_composition, is_complete_draft_composition,
  joker_reclaim_point_value, sum_of_points,
}
use compositions.Points.Sets.{IsSetOf, draft_set_point_total_iff}
use compositions.Points.Placement.{Places, run_fits-Places}
use compositions.Points.Runs.{IsRunAt, draft_run_point_total_iff}
use compositions.Points.Totals.{draft_composition_point_total-valid}
use compositions.Points.Complete.{
  IsFull, is_complete_draft_composition-IsFull, joker_reclaim_point_value-run,
}
use compositions.Tests.{natural, joker}

unfoldable pub points : Unit {0}
unfolding rank_point_value position_value suits_fit draft_set_point_total is_free run_fits
    window_total better best_run draft_run_point_total resolved_points draft_composition_point_total
    is_valid_draft_composition is_complete_draft_composition joker_reclaim_point_value sum_of_points
points = tt

-- Four and five of spades with a joker; three aces with one; the king, the ace and the queen.
abbrev low_run : List Card
low_run = natural 4 0 ∷ natural 5 0 ∷ joker ∷ []

abbrev aces : List Card
aces = natural 1 0 ∷ joker ∷ natural 1 2 ∷ natural 1 3 ∷ []

abbrev high_run : List Card
high_run = natural 13 1 ∷ natural 1 1 ∷ natural 12 1 ∷ []

abbrev queens : List Card
queens = natural 12 0 ∷ natural 12 1 ∷ natural 12 2 ∷ natural 12 3 ∷ []

point_tests :
    (draft_run_point_total low_run ≡ some 15)
    × (draft_set_point_total aces ≡ some 40)
    × (draft_run_point_total high_run ≡ some 30)
    × (draft_set_point_total low_run ≡ none)
    × (draft_run_point_total (natural 13 1 ∷ natural 1 1 ∷ natural 2 1 ∷ []) ≡ none)
    × (draft_composition_point_total (natural 9 1 ∷ natural 2 3 ∷ []) none ≡ some 11)
    × (is_complete_draft_composition queens none ≡ true)
unfolding points
point_tests = (refl, refl, refl, refl, refl, refl, refl)

draft_run_point_total_iff_example :
    ((start : ℕ) × IsRunAt start low_run × (15 ≡ window_total (length low_run) start))
    × ((start : ℕ) → IsRunAt start low_run → window_total (length low_run) start ≤ 15)
unfolding points
draft_run_point_total_iff_example = (draft_run_point_total_iff low_run 15).0 refl

draft_set_point_total_iff_example :
    (rank : ℕ) × IsSetOf rank aces × (40 ≡ length aces * rank_point_value rank false)
unfolding points
draft_set_point_total_iff_example = (draft_set_point_total_iff aces 40).0 refl

run_fits-Places_example : Places 12 14 [] high_run
unfolding points
run_fits-Places_example =
    (run_fits-Places 12 14 high_run (omega arith, (omega arith, (omega arith, tt)))).0 refl

draft_composition_point_total-valid_example :
    (n : ℕ) × (draft_composition_point_total high_run none ≡ some n)
    × ((draft_set_point_total high_run ≡ some n) ⊎ (draft_run_point_total high_run ≡ some n))
    × (6 ≤ n)
    × (n ≤ 95)
unfolding points
draft_composition_point_total-valid_example =
    draft_composition_point_total-valid high_run none refl refl

is_complete_draft_composition-IsFull_example :
    (any (λ card. card.is_joker) queens ≡ false)
    × (is_valid_draft_composition queens (some "set") ≡ true)
    × ((n : ℕ) × (draft_composition_point_total queens (some "set") ≡ some n) × IsFull queens n)
unfolding points
is_complete_draft_composition-IsFull_example =
    is_complete_draft_composition-IsFull queens (some "set") refl

-- A run from the ace to the three whose ace is a joker.
abbrev from_ace : Composition
from_ace = record {
  type = "run";
  cards = joker ∷ natural 2 3 ∷ natural 3 3 ∷ [];
  joker_representations = (0, natural 1 3 ∷ []) ∷ [];
  points = 6;
  complete = false;
}

joker_reclaim_point_value-run_example :
    joker_reclaim_point_value from_ace 0 (natural 1 3) ≡ some (position_value 1)
joker_reclaim_point_value-run_example =
    joker_reclaim_point_value-run from_ace 1 0 (natural 1 3) refl (omega arith) (omega arith)
      (omega arith) (omega arith) refl refl (λ _. refl)
