-- ===== src/Tests/Tables.antt =====
-- The theorems on joker reclaims and on the table, at concrete compositions and drafts.
use compositions.Prelude.{
  ◌≡◌, refl, false, none, some, List, [], ◌∷◌, All, IsDistinct, Perm, nat_eq, string_eq,
}
use compositions.Prelude.Text.{show, digits}
use compositions.Snapshots.{Composition}
use compositions.Hand.{HandEntry}
use compositions.Reclaims.{
  cards_equal, options_from, joker_reclaim_options, can_reclaim_joker_with_card, explicit_from,
  build_explicit_reclaims, plan_table_joker_reclaims, card_key, split_set_entries, suits_of,
  joker_indices_from, missing_suit_option, match_options, infer_set_planned_joker_reclaims,
  indexed_keys, match_run_options, infer_planned_joker_reclaims_for_insert_index,
  is_ambiguous_run_insertion,
}
use compositions.Reclaims.Inferred.{used_by, infer_planned_joker_reclaims-perm}
use compositions.Reclaims.Explicit.{IsAsked, joker_indices, build_explicit_reclaims-IsAsked}
use compositions.Tests.{natural, joker}
use compositions.Tests.Hands.{entry}

unfoldable pub reclaims : Unit {0}
unfolding show digits cards_equal options_from joker_reclaim_options can_reclaim_joker_with_card
    explicit_from build_explicit_reclaims plan_table_joker_reclaims card_key split_set_entries
    suits_of joker_indices_from missing_suit_option match_options infer_set_planned_joker_reclaims
    indexed_keys match_run_options infer_planned_joker_reclaims_for_insert_index
    is_ambiguous_run_insertion
reclaims = tt

-- Three sevens, one of them a joker, and the run 4, joker, 6.
abbrev pub sevens : Composition
sevens = record {
  type = "set";
  cards = natural 7 0 ∷ natural 7 1 ∷ natural 7 2 ∷ joker ∷ [];
  joker_representations = [];
  points = 28;
  complete = false;
}

abbrev pub run : Composition
run = record {
  type = "run";
  cards = natural 4 0 ∷ joker ∷ natural 6 0 ∷ [];
  joker_representations = (1, natural 5 0 ∷ []) ∷ [];
  points = 15;
  complete = false;
}

abbrev staged : List HandEntry
staged = entry "7-3-1" (natural 7 3) 0 ∷ entry "9-0-1" (natural 9 0) 1 ∷ []

abbrev pub five : HandEntry
five = entry "5-0-1" (natural 5 0) 2

reclaim_tests :
    ((plan_table_joker_reclaims sevens staged 4 none).reclaimed_entry_keys ≡ "7-3-1" ∷ [])
    × (joker_indices (plan_table_joker_reclaims sevens staged 4 none).reclaims ≡ 3 ∷ [])
    × ((plan_table_joker_reclaims run (five ∷ []) 3 none).reclaimed_entry_keys ≡ [])
    × ((plan_table_joker_reclaims run (five ∷ []) 3 (some (("5-0-1", 1) ∷ []))).reclaimed_entry_keys
        ≡ "5-0-1" ∷ [])
unfolding reclaims
reclaim_tests = (refl, refl, refl, refl)

-- The run 4, joker, joker, 7, with the five and then the six at its end: the index of the six's option
-- is the one that it had before the five's was taken out.
abbrev two_jokers : Composition
two_jokers = record run {
  cards = natural 4 0 ∷ joker ∷ joker ∷ natural 7 0 ∷ [];
  joker_representations = (1, natural 5 0 ∷ []) ∷ (2, natural 6 0 ∷ []) ∷ [];
}

abbrev six : HandEntry
six = entry "6-0-1" (natural 6 0) 3

stale_index_test :
    ((infer_planned_joker_reclaims_for_insert_index two_jokers (five ∷ six ∷ []) 4).additions
      ≡ six ∷ [])
    × ((infer_planned_joker_reclaims_for_insert_index two_jokers (six ∷ five ∷ []) 4).additions
        ≡ [])
unfolding reclaims
stale_index_test = (refl, refl)

infer_planned_joker_reclaims-perm_example :
    Perm (used_by (infer_planned_joker_reclaims_for_insert_index sevens staged 4)) staged
infer_planned_joker_reclaims-perm_example = infer_planned_joker_reclaims-perm sevens staged 4

build_explicit_reclaims-IsAsked_example :
    All
      (IsAsked run (some (("5-0-1", 1) ∷ [])))
      (build_explicit_reclaims run (five ∷ []) (some (("5-0-1", 1) ∷ []))).reclaims
    × IsDistinct (
        joker_indices (build_explicit_reclaims run (five ∷ []) (some (("5-0-1", 1) ∷ []))).reclaims)
build_explicit_reclaims-IsAsked_example =
    build_explicit_reclaims-IsAsked run (five ∷ []) (some (("5-0-1", 1) ∷ []))
