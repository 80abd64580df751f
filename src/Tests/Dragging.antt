-- ===== src/Tests/Dragging.antt =====
-- The theorems on drags, at concrete drags of a hand of three cards.
use compositions.Prelude.{
  ◌≤◌, ◌≡◌, refl, String, true, false, Option, none, some, List, [], ◌∷◌, ◌==◌, if◌then◌else◌, map,
  count, string_eq, nat_eq, option_eq,
}
use compositions.Prelude.Text.{show, digits}
use compositions.Prelude.Int.{ℤ, pos, negsuc}
use compositions.Snapshots.Game.{Game, Turn}
use compositions.Hand.{
  hand_entry_order, hand_entries_from, build_hand_entries, hand_card_key, map_hand_keys_to_entries,
  apply_hand_entry_order, move_hand_entry,
}
use compositions.Drafts.{
  drafts_without, remove_hand_key_from_drafts, prune_draft_compositions, insert_key,
  insert_into_target, reorder_in_draft, insert_hand_key_into_draft,
}
use compositions.Drafts.Removal.{all_keys}
use compositions.Drafts.Moving.{ids}
use compositions.Table.{
  empty_views_from, stage_drafts, build_table_composition_views, build_virtual_reclaimed_jokers,
  resolve_draft_views,
}
use compositions.DropIds.{
  strip_prefix, split_dash, composition_id_from_drop_id, table_composition_edge_target_from_drop_id,
  table_composition_joker_target_from_drop_id,
}
use compositions.Board.{
  Props, Board, hand_order, hand_entries, scoped_compositions, shown_drafts, persisted_hand_order,
  set_persisted_hand_order, draft_scope_key, update_hand_order, update_draft_compositions,
  finish_returning_hand_key, draft_resolution,
}
use compositions.Board.Drags.{
  DragEvent, handle_drag_start, handle_drag_over, hand_over, enter_draft, leave_draft,
}
use compositions.Board.Drops.{
  handle_drag_end, handle_drag_cancel, drop_card, drop_composing, drop_on_table, drop_on_draft,
  drop_on_hand, put_back, staged_in,
}
use compositions.Board.Run.{Event, drag_starts, drag_is_over, drag_ends, new_board, handle, run}
use compositions.Board.Once.{staged_once}
use compositions.Board.Restored.{cancel-restores}
use compositions.Tests.{natural}
use compositions.Tests.Moves.{array_move, array_move_perm}

dragging : Unit {0}
unfolding hand_entry_order hand_entries_from build_hand_entries hand_card_key
    map_hand_keys_to_entries apply_hand_entry_order move_hand_entry drafts_without
    remove_hand_key_from_drafts prune_draft_compositions insert_key insert_into_target
    reorder_in_draft insert_hand_key_into_draft empty_views_from stage_drafts
    build_table_composition_views build_virtual_reclaimed_jokers resolve_draft_views strip_prefix
    split_dash composition_id_from_drop_id table_composition_edge_target_from_drop_id
    table_composition_joker_target_from_drop_id persisted_hand_order set_persisted_hand_order
    draft_scope_key update_hand_order update_draft_compositions finish_returning_hand_key
    draft_resolution handle_drag_start handle_drag_over hand_over enter_draft leave_draft
    handle_drag_end handle_drag_cancel drop_card drop_composing drop_on_table drop_on_draft
    drop_on_hand put_back handle run staged_in show digits
dragging = tt

abbrev turn : Turn
turn = record {
  number = 3;
  player_index = pos 0;
  player_id = some "ann";
  has_drawn = true;
  must_use_discard_draw = false;
}

abbrev game : Game
game = record {
  game_mode = none;
  phase = 1;
  round = 1;
  dealer_index = pos 0;
  round_winner_index = negsuc 0;
  turn = turn;
  players = [];
  hand = natural 4 0 ∷ natural 5 0 ∷ natural 6 0 ∷ [];
  draw_pile_count = 20;
  discard_pile = [];
  active_compositions = [];
  turn_activity = none;
}

abbrev props : Props
props = record {
  game = some game;
  room_code = some "ABCD";
  player_id = "ann";
  is_my_turn = true;
  can_discard = true;
  top_discard_card = none;
}

abbrev number : String → Option ℤ
number text = if text == "0" then some (pos 0) else none

abbrev event : String → Option String → DragEvent
event key over = record {
  active_id = some key;
  active_text = key;
  over_id = over;
  draw_source = none;
  card_index = none;
  is_virtual = false;
}

-- Two cards into a new composition, and the third one into it too and back to the hand.
abbrev events : List (Props × Event)
events =
    (props, drag_starts (event "4-0-1" none))
    ∷ (props, drag_ends (event "4-0-1" (some "new-composition-drop-zone")))
    ∷ (props, drag_starts (event "5-0-1" none))
    ∷ (props, drag_is_over (event "5-0-1" (some "4-0-1")))
    ∷ (props, drag_ends (event "5-0-1" (some "draft-composition-draft-0")))
    ∷ (props, drag_starts (event "6-0-1" none))
    ∷ (props, drag_is_over (event "6-0-1" (some "5-0-1")))
    ∷ (props, drag_ends (event "6-0-1" (some "hand-drop-zone")))
    ∷ []

abbrev after : Board
after = run array_move number events (new_board [])

drag_tests :
    (ids after.drafts.compositions ≡ "draft-0" ∷ [])
    × (all_keys after.drafts.compositions ≡ "4-0-1" ∷ "5-0-1" ∷ [])
    × (hand_entry_order (
          hand_entries props (
            run array_move number
              ((props, drag_starts (event "4-0-1" none))
                ∷ (props, drag_is_over (event "4-0-1" (some "6-0-1")))
                ∷ [])
              (new_board [])))
        ≡ "5-0-1" ∷ "6-0-1" ∷ "4-0-1" ∷ [])
unfolding dragging
drag_tests = (refl, refl, refl)

staged_once_example :
    (count "4-0-1" (all_keys after.drafts.compositions) ≤ 1)
    × (count "4-0-1" (ids after.drafts.compositions) ≤ 1)
staged_once_example = staged_once array_move array_move_perm number events [] "4-0-1"

-- A card that is over a draft is let go.
abbrev start_event : DragEvent
start_event = event "6-0-1" none

abbrev over_events : List DragEvent
over_events = event "6-0-1" (some "5-0-1") ∷ event "6-0-1" (some "4-0-1") ∷ []

abbrev over : Board
over =
    run array_move number (map (λ e. (props, drag_is_over e)) over_events)
      (handle_drag_start props start_event after)

abbrev cancelled : Board
cancelled = handle_drag_cancel array_move number props over

cancel-restores_example :
    (scoped_compositions props cancelled ≡ shown_drafts props after)
    × (hand_order props cancelled ≡ hand_entry_order (hand_entries props after))
    × (cancelled.active_drag ≡ none)
cancel-restores_example =
    cancel-restores array_move number props start_event "6-0-1" over_events after refl refl
