-- ===== src/Board/Run.antt =====
-- The events of the table, and the state after a list of them.
use compositions.Prelude.{ℕ, String, Bool, false, Option, none, List, [], ◌∷◌}
use compositions.Prelude.Int.{ℤ}
use compositions.Board.{Props, Board}
use compositions.Board.Drags.{DragEvent, handle_drag_start, handle_drag_over}
use compositions.Board.Drops.{
  handle_drag_end, handle_drag_cancel, reset_draft_compositions, submit_draft_compositions,
  submission_answered, sync_turn_drafts, discard_answered,
}

-- An answer to a submission comes with the properties at the time of the submission.
pub data Event : Type 0 where
  drag_starts drag_is_over drag_ends : DragEvent → Event
  drag_is_cancelled submits : Event
  syncs resets submission_is_answered discard_is_answered : Bool → Event

abbrev pub new_board : List (String × List String) → Board
new_board orders = record {
  orders = orders;
  hand_order_state = record { scope_key = none; order = none };
  active_drag = none;
  drafts = record { scope_key = none; compositions = []; baseline_hand_order = none };
  show_draft_validation = false;
  next_draft_id = 0;
  skip_next_draft_sync = false;
  last_drag_over_target = none;
  calls = [];
}

module _ (array_move : (A : Type 0) → List A → ℕ → ℕ → List A) (number : String → Option ℤ) where
  unfoldable pub handle : Props → Event → Board → Board
  handle p (drag_starts e) b = handle_drag_start p e b
  handle p (drag_is_over e) b = handle_drag_over array_move p e b
  handle p (drag_ends e) b = handle_drag_end array_move number p e b
  handle p drag_is_cancelled b = handle_drag_cancel array_move number p b
  handle p submits b = submit_draft_compositions p b
  handle p (resets sync) b = reset_draft_compositions sync p b
  handle p (syncs is_enabled) b = sync_turn_drafts is_enabled p b
  handle p (submission_is_answered ok) b = submission_answered p ok b
  handle p (discard_is_answered ok) b = discard_answered ok b

  -- The properties may be others at each event.
  unfoldable pub run : List (Props × Event) → Board → Board
  unfolding handle
  run [] b = b
  run (event ∷ events) b = run events (handle event.0 event.1 b)
