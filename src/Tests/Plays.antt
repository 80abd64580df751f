-- ===== src/Tests/Plays.antt =====
-- The theorems on the table with its drafts, at a table of a set and a run.
use compositions.Prelude.{
  All, ◌≡◌, refl, true, false, none, some, List, [], ◌∷◌, ◌++◌, map, length, all, Perm, nat_eq,
  string_eq,
}
use compositions.Snapshots.{Composition}
use compositions.Points.{replace_from}
use compositions.Hand.{HandEntry, hand_entry_order, entry_by_key, map_hand_keys_to_entries}
use compositions.Hand.Keys.{range_from}
use compositions.Drafts.{DraftComposition, DraftedComposition, prune_draft_compositions}
use compositions.Reclaims.{plan_table_joker_reclaims}
use compositions.Reclaims.Inferred.{replacing}
use compositions.Reclaims.Rest.{left_of, plan_table_joker_reclaims-perm}
use compositions.Table.{
  card_of, group_from, in_group_order, insert_descending, sort_descending, splice_groups,
  without_excluded, cards_after_table_draft, entries_to_mark, validate_draft,
  validate_drafted_compositions, ordered_groups, order_addition_entries, additions_of, reclaims_of,
  plan_of, play_of, build_table_play_request, missing_own_composition, validate_opening_table_play,
  TableView, empty_views_from, staged_view, stage_drafts, build_table_composition_views,
  virtual_joker, build_virtual_reclaimed_jokers, resolve_draft_views,
}
use compositions.Table.After.{plan_for, taken_jokers, cards_after_table_draft-perm}
use compositions.Table.Play.{played_cards, staged_cards, build_table_play_request-perm}
use compositions.Table.Validation.{is_clean, is_playable, validate_drafted_compositions-is_clean}
use compositions.Table.Views.{staged_view-perm, build_table_composition_views-maps}
use compositions.Tests.{natural}
use compositions.Tests.Cards.{points}
use compositions.Tests.Hands.{entry}
use compositions.Tests.Tables.{reclaims, sevens, run, five}

unfoldable pub plays : Unit {0}
unfolding points reclaims hand_entry_order map_hand_keys_to_entries replace_from
    prune_draft_compositions group_from in_group_order insert_descending sort_descending
    splice_groups without_excluded cards_after_table_draft entries_to_mark validate_draft
    validate_drafted_compositions ordered_groups order_addition_entries additions_of reclaims_of
    plan_of play_of build_table_play_request validate_opening_table_play empty_views_from
    staged_view stage_drafts build_table_composition_views virtual_joker
    build_virtual_reclaimed_jokers resolve_draft_views
plays = tt

abbrev active : List Composition
active = sevens ∷ run ∷ []

abbrev seven : HandEntry
seven = entry "7-3-1" (natural 7 3) 0

abbrev three : HandEntry
three = entry "3-0-1" (natural 3 0) 1

abbrev two : HandEntry
two = entry "2-0-1" (natural 2 0) 3

abbrev ace : HandEntry
ace = entry "1-0-1" (natural 1 0) 4

abbrev king : HandEntry
king = entry "13-2-1" (natural 13 2) 5

-- The five takes the place of the run's joker; the three and then the two go to its front.
abbrev on_run : DraftComposition
on_run = record {
  id = "b";
  hand_keys = "5-0-1" ∷ "3-0-1" ∷ "2-0-1" ∷ [];
  table_index = some 1;
  insert_index = some 0;
  card_insert_indices = none;
  reclaim_targets = some (("5-0-1", 1) ∷ []);
}

abbrev staged_on_run : DraftedComposition
staged_on_run = record { draft = on_run; entries = five ∷ three ∷ two ∷ [] }

-- The seven takes the place of the set's joker.
abbrev staged_on_set : DraftedComposition
staged_on_set = record {
  draft = record on_run {
    id = "a";
    hand_keys = "7-3-1" ∷ [];
    table_index = some 0;
    insert_index = none;
    reclaim_targets = none;
  };
  entries = seven ∷ [];
}

abbrev drafts : List DraftedComposition
drafts = staged_on_set ∷ staged_on_run ∷ []

abbrev entries : List HandEntry
entries = seven ∷ three ∷ five ∷ two ∷ ace ∷ king ∷ []

play_tests :
    (cards_after_table_draft run staged_on_run none
      ≡ natural 2 0 ∷ natural 3 0 ∷ natural 4 0 ∷ natural 5 0 ∷ natural 6 0 ∷ [])
    × ((build_table_play_request active drafts).additions
        ≡ record { composition_index = 1; insert_index = 0; cards = natural 2 0 ∷ natural 3 0 ∷ [] }
          ∷ [])
    × ((build_table_play_request active drafts).reclaims
        ≡ record { composition_index = 0; joker_index = 3; replacement_card = natural 7 3 }
          ∷ record { composition_index = 1; joker_index = 1; replacement_card = natural 5 0 }
          ∷ [])
    × (is_clean (validate_drafted_compositions active drafts) ≡ true)
    × (validate_opening_table_play false drafts ≡ missing_own_composition)
    × (map
          (λ joker. joker.joker_index)
          (resolve_draft_views active
            (staged_on_set.draft ∷ on_run ∷ [])
            entries).virtual_reclaimed_jokers
        ≡ 3 ∷ 1 ∷ [])
unfolding plays
play_tests = (refl, refl, refl, refl, refl, refl)

-- With a king beside the three and the two only the king is marked.
marked_test :
    (validate_drafted_compositions active
      (record { draft = on_run; entries = five ∷ king ∷ three ∷ two ∷ [] } ∷ [])).invalid_entry_keys
    ≡ "13-2-1" ∷ []
unfolding plays
marked_test = refl

plan_table_joker_reclaims-perm_example :
    Perm
      (replacing (plan_table_joker_reclaims sevens (seven ∷ king ∷ []) 4 none).reclaims
        ++ left_of
            (plan_table_joker_reclaims sevens (seven ∷ king ∷ []) 4 none).reclaimed_entry_keys
            (seven ∷ king ∷ []))
      (seven ∷ king ∷ [])
unfolding plays
plan_table_joker_reclaims-perm_example =
    plan_table_joker_reclaims-perm sevens (seven ∷ king ∷ []) 4 none (refl, (refl, tt))

cards_after_table_draft-perm_example :
    Perm
      (cards_after_table_draft run staged_on_run none ++ taken_jokers run staged_on_run)
      (run.cards ++ map card_of staged_on_run.entries)
    × All (λ card. card.is_joker ≡ true) (taken_jokers run staged_on_run)
    × (length (taken_jokers run staged_on_run) ≡ length (plan_for run staged_on_run).reclaims)
unfolding plays
cards_after_table_draft-perm_example =
    cards_after_table_draft-perm run staged_on_run (refl, (refl, (refl, tt))) (refl, tt)

build_table_play_request-perm_example :
    Perm (played_cards (build_table_play_request active drafts)) (staged_cards drafts)
unfolding plays
build_table_play_request-perm_example =
    build_table_play_request-perm active drafts ((refl, tt), ((refl, (refl, (refl, tt))), tt))

validate_drafted_compositions-is_clean_example :
    is_clean (validate_drafted_compositions active drafts) ≡ all (is_playable active) drafts
validate_drafted_compositions-is_clean_example =
    validate_drafted_compositions-is_clean active drafts (refl, (refl, tt))

abbrev pub run_view : TableView
run_view = record {
  table_index = 1;
  key = "table-1";
  snapshot = run;
  staged_entries = [];
  reclaims = [];
  insert_index = 3;
  card_insert_indices = none;
}

staged_view-perm_example :
    Perm
      (staged_view run_view on_run (entry_by_key entries)).staged_entries
      (map_hand_keys_to_entries on_run.hand_keys (entry_by_key entries))
unfolding plays
staged_view-perm_example =
    staged_view-perm run_view on_run (entry_by_key entries) (refl, (refl, (refl, tt)))

build_table_composition_views-maps_example :
    (map
        (λ view. view.snapshot)
        (build_table_composition_views active (on_run ∷ []) (entry_by_key entries))
      ≡ active)
    × (map
          (λ view. view.table_index)
          (build_table_composition_views active (on_run ∷ []) (entry_by_key entries))
        ≡ range_from 0 (length active))
build_table_composition_views-maps_example =
    build_table_composition_views-maps active (on_run ∷ []) (entry_by_key entries)
