-- ===== src/Board/Once.antt =====
-- Whatever the player drags, each card is staged at most once.
use compositions.Prelude.{
  ℕ, ◌≤◌, ◌<◌, inl, inr, refl, String, Bool, true, false, not, ◌&&◌, ◌||◌, Option, none, some, List,
  [], ◌∷◌, ◌==◌, ◌!=◌, is_some, count, length, Perm, nat_eq, string_eq, option_eq, Bool-cases,
  Option-cases, subst,
}
use compositions.Prelude.Int.{ℤ}
use compositions.Prelude.Maps.{lookup}
use compositions.Drafts.{DraftComposition}
use compositions.Drafts.Removal.{all_keys}
use compositions.Drafts.Moving.{ids}
use compositions.DropIds.{
  table_composition_edge_target_from_drop_id, table_composition_joker_target_from_drop_id,
}
use compositions.Board.{
  Props, Board, update_hand_order, hand_entries, draft_resolution, is_available,
}
use compositions.Board.Drags.{
  DragEvent, discard_drop_id, new_composition_drop_id, calling, reorder_hand,
}
use compositions.Board.Drops.{
  taking_id, playing, drop_on_table, drop_composing, drop_card, put_back, handle_drag_end,
  handle_drag_cancel, sync_turn_drafts, submit_draft_compositions, submission_answered,
  discard_answered, can_submit_table_play,
}
use compositions.Board.Run.{
  Event, drag_starts, drag_is_over, drag_ends, drag_is_cancelled, submits, resets,
  submission_is_answered, syncs, discard_is_answered, new_board, handle, run,
}
use compositions.Board.Staged.{IsStaged, empty-IsStaged, stage_new-IsStaged}
use compositions.Board.Sound.{
  later-IsRestorable, cond-IsSound, option-IsSound, drag-IsSound, scoped-IsStaged, order-IsSound,
  update-IsSound, start-IsSound, reset-IsSound, IsSound,
}
use compositions.Board.Dropped.{
  over-IsSound, discard-IsSound, edge-IsStaged, joker-IsStaged, drop_on_draft-IsSound,
}

module _ (array_move : (A : Type 0) → List A → ℕ → ℕ → List A)
    (array_move_perm : (A : Type 0) (xs : List A) (i j : ℕ)
      → i < length xs
      → j < length xs
      → Perm (array_move A xs i j) xs) where
  module _ (number : String → Option ℤ) where
    abbrev IsSoundIfAny : Option Board → Type 0
    IsSoundIfAny none = Unit
    IsSoundIfAny (some b) = IsSound b

    table-IsSound :
        (p : Props) (key over : String) (b : Board)
        → IsSound b
        → IsSoundIfAny (drop_on_table array_move number p key over b)
    unfolding drop_on_table
    table-IsSound p key over b v =
        let scoped = scoped-IsStaged p b v in
        let held = later-IsRestorable b.next_draft_id b.active_drag v.1 in
        elim (Bool-cases (not (is_some (lookup key (draft_resolution p b).all_entry_by_key)))) [
          | inl unknown ↦ rw unknown tt
          | inr known ↦
              elim (Option-cases (table_composition_edge_target_from_drop_id number over)) [
                | inr (target, edge) ↦
                    rw (known, edge)
                      (update-IsSound p _ (taking_id b)
                        (edge-IsStaged array_move array_move_perm b.next_draft_id _ target key _
                          scoped)
                        held)
                | inl no_edge ↦
                    elim (Option-cases (table_composition_joker_target_from_drop_id number over)) [
                      | inr (target, joker) ↦
                          rw (known, no_edge)
                            (rw joker (
                              update-IsSound p _ (taking_id b)
                                (joker-IsStaged array_move array_move_perm b.next_draft_id _ target
                                  key _ scoped)
                                held))
                      | inl no_joker ↦ rw (known, no_edge) (rw no_joker tt)
                    ]
              ]
        ]

    composing-IsSound :
        (p : Props) (key over : String) (returned reordered : Bool) (b : Board)
        → IsSound b
        → IsSound (drop_composing array_move number p key over returned reordered b)
    unfolding drop_composing
    composing-IsSound p key over returned reordered b v =
        elim (Option-cases (drop_on_table array_move number p key over b)) [
          | inr (next, at) ↦
              rw (at, drop_composing) (subst IsSoundIfAny at (table-IsSound p key over b v))
          | inl elsewhere ↦
              rw (elsewhere, drop_composing)
                (cond-IsSound (over == new_composition_drop_id) _ _
                  (update-IsSound p _ (taking_id b)
                    (stage_new-IsStaged b.next_draft_id _ key _ refl refl (scoped-IsStaged p b v))
                    (later-IsRestorable b.next_draft_id b.active_drag v.1))
                  (drop_on_draft-IsSound array_move array_move_perm p key over returned reordered b
                    v))
        ]

    drop_card-IsSound :
        (p : Props) (e : DragEvent) (key over : String) (baseline : List DraftComposition)
        (reordered : Bool) (b : Board)
        → IsSound b
        → IsSound (drop_card array_move number p e key over baseline reordered b)
    unfolding drop_card
    drop_card-IsSound p e key over baseline reordered b v =
        cond-IsSound (over == discard_drop_id) _ _
          (discard-IsSound array_move array_move_perm p e key b v)
          (cond-IsSound (not p.can_discard) _ _
            (cond-IsSound (is_available p b over && key != over && not reordered)
              (playing "card-place" (reorder_hand array_move p (hand_entries p b) key over b)) b
              (order-IsSound p _ b v) v)
            (composing-IsSound p key over _ reordered b v))

    put_back-IsSound :
        (p : Props) (order : List String) (baseline : List DraftComposition) (b : Board)
        → IsSound b
        → IsStaged b.next_draft_id baseline
        → IsSound (put_back array_move number p order baseline b)
    unfolding put_back update_hand_order
    put_back-IsSound p order baseline b v w = (w, v.1)

    end-IsSound :
        (p : Props) (e : DragEvent) (b : Board)
        → IsSound b
        → IsSound (handle_drag_end array_move number p e b)
    unfolding handle_drag_end
    end-IsSound p e b v =
        let ended = record b { active_drag = none; last_drag_over_target = none } in
        let sound : IsSound ended = (v.0, tt) in
        drag-IsSound b.next_draft_id b.active_drag ended _ _ v.1 sound
          (λ source card entries order.
            cond-IsSound _ ended _ sound (order-IsSound p order ended sound))
          (λ key order baseline reordered w. option-IsSound e.active_id ended _ sound (λ dragged.
            option-IsSound e.over_id _ _ (put_back-IsSound p order baseline ended sound w)
              (λ over. drop_card-IsSound p e dragged over baseline reordered ended sound)))

    cancel-IsSound :
        (p : Props) (b : Board) → IsSound b → IsSound (handle_drag_cancel array_move number p b)
    unfolding handle_drag_cancel
    cancel-IsSound p b v =
        let ended = record b { active_drag = none; last_drag_over_target = none } in
        let sound : IsSound ended = (v.0, tt) in
        drag-IsSound b.next_draft_id b.active_drag ended _ _ v.1 sound
          (λ source card entries order. order-IsSound p order ended sound)
          (λ key order baseline reordered w. put_back-IsSound p order baseline ended sound w)

    handle-IsSound :
        (p : Props) (event : Event) (b : Board)
        → IsSound b
        → IsSound (handle array_move number p event b)
    unfolding handle sync_turn_drafts submit_draft_compositions submission_answered discard_answered
    handle-IsSound p (drag_starts e) b v = start-IsSound p e b v
    handle-IsSound p (drag_is_over e) b v = over-IsSound array_move array_move_perm p e b v
    handle-IsSound p (drag_ends e) b v = end-IsSound p e b v
    handle-IsSound p drag_is_cancelled b v = cancel-IsSound p b v
    handle-IsSound p submits b v = cond-IsSound (can_submit_table_play p b) (calling _ b) b v v
    handle-IsSound p (resets sync) b v = reset-IsSound sync p b v
    handle-IsSound p (syncs is_enabled) b v =
        cond-IsSound (not is_enabled || not p.is_my_turn) b _ v (
          cond-IsSound b.skip_next_draft_sync (record b { skip_next_draft_sync = false })
            (calling _ b) v v)
    handle-IsSound p (submission_is_answered true) b v = reset-IsSound false p b v
    handle-IsSound p (submission_is_answered false) b v = v
    handle-IsSound p (discard_is_answered true) b v = v
    handle-IsSound p (discard_is_answered false) b v = v

    run-IsSound :
        (events : List (Props × Event)) (b : Board)
        → IsSound b
        → IsSound (run array_move number events b)
    unfolding run
    run-IsSound [] b v = v
    run-IsSound (event ∷ events) b v = run-IsSound events _ (handle-IsSound event.0 event.1 b v)

    -- After any events of the table, in any order and with any snapshots of the game between them, each
    -- hand key is staged at most once in all drafts together, and no two drafts have the same id; as
    -- long as `arrayMove` reorders its list where both indices are in range.
    pub staged_once :
        (events : List (Props × Event)) (orders : List (String × List String)) (j : String)
        → (count j (all_keys (run array_move number events (new_board orders)).drafts.compositions)
            ≤ 1)
          × (count j (ids (run array_move number events (new_board orders)).drafts.compositions)
              ≤ 1)
    unfolding IsStaged
    staged_once events orders j =
        let (once, apart, free) =
          (run-IsSound events (new_board orders) (empty-IsStaged 0, tt)).0 in
        (once j, apart j)
