-- ===== src/Board/Drops.antt =====
-- `handleDragEnd`, `handleDragCancel` and the submission of the drafts in
-- frontend/src/components/game/game-board-view.tsx.
use compositions.Prelude.{
  ℕ, ◌+◌, String, Bool, true, false, not, ◌&&◌, ◌||◌, Option, none, some, List, [], ◌∷◌, ◌++◌, map,
  ◌==◌, ◌!=◌, if◌then◌else◌, get_or, find?, any, is_empty, is_some, length, get_elem?, nat_eq,
  string_eq, option_eq,
}
use compositions.Prelude.Int.{ℤ}
use compositions.Prelude.Maps.{lookup}
use compositions.Hand.{hand_index_after_submitted_drafts}
use compositions.Drafts.{
  build_draft_composition_snapshot, DraftComposition, truthy, remove_hand_key_from_drafts,
  insert_hand_key_into_draft, move_draft_composition_insert_index, set_draft_card_insert_index,
  set_draft_card_reclaim_target,
}
use compositions.Reclaims.{table_composition_insert_index_for_edge}
use compositions.Table.{
  can_submit, missing_own_composition, validate_opening_table_play, build_table_play_request,
}
use compositions.DropIds.{
  EdgeTarget, JokerTarget, composition_id_from_drop_id, table_composition_edge_target_from_drop_id,
  table_composition_joker_target_from_drop_id,
}
use compositions.Board.{
  Props, draw, drag_hand, sound, discard_card, play_table, play_table_and_discard,
  update_turn_drafts, Board, update_hand_order, commit_drafts, update_draft_compositions,
  finish_returning_hand_key, raw_hand_entries, hand_entries, draft_scope_key, draft_resolution,
  shown_drafts, drafted_views, holds, is_available, active_draw_entry, active_compositions_of,
  player_has_opened,
}
use compositions.Snapshots.{Composition}
use compositions.Board.Drags.{
  hand_drop_id, new_composition_drop_id, discard_drop_id, DragEvent, calling, draft_id,
  reorder_hand,
}

abbrev pub playing : String → Board → Board
playing name = calling (sound name)

-- A card is dropped on the discard pile: it is discarded, or the drafts are played with it.
unfoldable pub discard_at : Props → String → ℕ → Board → Board
discard_at p hand_key card_index b =
    let views = drafted_views p b in
    let index =
      if is_empty views
      then some card_index
      else hand_index_after_submitted_drafts (raw_hand_entries p) hand_key
          (map (λ view. view.entries) views) in
    elim index [
      | none ↦ b
      | some discard_index ↦ elim (lookup hand_key (draft_resolution p b).all_entry_by_key) [
        | none ↦ b
        | some entry ↦
            calling
              (if is_empty views
                then discard_card discard_index entry.card
                else play_table_and_discard
                    (build_table_play_request (active_compositions_of p.game) views) discard_index
                    entry.card)
              b
      ]
    ]

unfoldable pub drop_on_discard : Props → DragEvent → String → Board → Board
unfolding discard_at
drop_on_discard p e hand_key b =
    if any (holds hand_key) (shown_drafts p b)
    then b
    else if e.is_virtual
    then playing "invalid-action" b
    else elim e.card_index [ none ↦ b | some card_index ↦ discard_at p hand_key card_index b ]

-- The draft on a composition of the table.
abbrev pub draft_on : ℕ → List DraftComposition → Option DraftComposition
draft_on composition_index =
    find? (λ composition. composition.table_index == some composition_index)

abbrev pub new_draft : ℕ → String → DraftComposition
new_draft n hand_key = record {
  id = draft_id n;
  hand_keys = hand_key ∷ [];
  table_index = none;
  insert_index = none;
  card_insert_indices = none;
  reclaim_targets = none;
}

-- The next id is taken, whether it is used or not.
abbrev pub taking_id : Board → Board
taking_id b = record (playing "card-place" b) { next_draft_id = b.next_draft_id + 1 }

module _ (array_move : (A : Type 0) → List A → ℕ → ℕ → List A) where
  unfoldable pub staged_on_edge :
      ℕ → Option Composition → EdgeTarget → String → List DraftComposition → List DraftComposition
  staged_on_edge n composition target hand_key current =
      let insert_index : ℕ = elim composition [
        | none ↦ 0
        | some c ↦ table_composition_insert_index_for_edge c target.edge
      ] in
      elim (draft_on target.composition_index current) [
        | some existing ↦
            set_draft_card_insert_index
              (insert_hand_key_into_draft array_move current hand_key existing.id none) existing.id
              hand_key insert_index
        | none ↦
            remove_hand_key_from_drafts current hand_key
            ++ record (new_draft n hand_key) {
              table_index = some target.composition_index;
              insert_index = some insert_index;
              card_insert_indices = some ((hand_key, insert_index) ∷ []);
            }
              ∷ []
      ]

  unfoldable pub staged_on_joker :
      ℕ → Option Composition → JokerTarget → String → List DraftComposition → List DraftComposition
  staged_on_joker n composition target hand_key current =
      elim (draft_on target.composition_index current) [
        | some existing ↦
            set_draft_card_reclaim_target
              (insert_hand_key_into_draft array_move current hand_key existing.id none) existing.id
              hand_key target.joker_index
        | none ↦
            remove_hand_key_from_drafts current hand_key
            ++ record (new_draft n hand_key) {
              table_index = some target.composition_index;
              insert_index = some (elim composition [ none ↦ 0 | some c ↦ length c.cards ]);
              reclaim_targets = some ((hand_key, target.joker_index) ∷ []);
            }
              ∷ []
      ]

  -- Into the container of a draft.
  unfoldable pub staged_in : String → String → List DraftComposition → List DraftComposition
  staged_in id hand_key current =
      let next = insert_hand_key_into_draft array_move current hand_key id none in
      elim (find? (λ composition. composition.id == id) current) [
        | none ↦ next
        | some target ↦
            if is_some target.table_index
            then move_draft_composition_insert_index next id
                (get_or (length target.hand_keys) target.insert_index)
            else next
      ]

  -- A drop on a draft or on the hand.
  unfoldable pub drop_on_hand : Props → String → String → Bool → Bool → Board → Board
  drop_on_hand p hand_key over_id returned reordered b =
      if over_id == hand_drop_id
      then finish_returning_hand_key p hand_key (playing "card-place" b)
      else if is_available p b over_id
      then (if hand_key != over_id && not returned && not reordered
          then reorder_hand array_move p (hand_entries p b) hand_key over_id
              (finish_returning_hand_key p hand_key (playing "card-place" b))
          else finish_returning_hand_key p hand_key (playing "card-place" b))
      else b

  unfoldable pub drop_on_draft : Props → String → String → Bool → Bool → Board → Board
  unfolding drop_on_hand
  drop_on_draft p hand_key over_id returned reordered b =
      elim (find? (holds over_id) (shown_drafts p b)) [
        | some target ↦
            update_draft_compositions p
              (λ current.
                insert_hand_key_into_draft array_move current hand_key target.id (some over_id))
              (playing "card-place" b)
        | none ↦ elim (truthy (composition_id_from_drop_id over_id)) [
          | some id ↦ update_draft_compositions p (staged_in id hand_key) (playing "card-place" b)
          | none ↦ drop_on_hand p hand_key over_id returned reordered b
        ]
      ]

  module _ (number : String → Option ℤ) where
    -- A drop on the table, for a card that is known.
    unfoldable pub drop_on_table : Props → String → String → Board → Option Board
    drop_on_table p hand_key over_id b =
        let active = active_compositions_of p.game in
        if not (is_some (lookup hand_key (draft_resolution p b).all_entry_by_key))
        then none
        else elim (table_composition_edge_target_from_drop_id number over_id) [
          | some target ↦ some (
              update_draft_compositions p
                (staged_on_edge b.next_draft_id (get_elem? active target.composition_index) target
                  hand_key)
                (taking_id b))
          | none ↦ elim (table_composition_joker_target_from_drop_id number over_id) [
            | some target ↦ some (
                update_draft_compositions p
                  (staged_on_joker b.next_draft_id (get_elem? active target.composition_index)
                    target hand_key)
                  (taking_id b))
            | none ↦ none
          ]
        ]

    -- A drop while the player may compose.
    unfoldable pub drop_composing : Props → String → String → Bool → Bool → Board → Board
    drop_composing p hand_key over_id returned reordered b =
        elim (drop_on_table p hand_key over_id b) [
          | some board ↦ board
          | none ↦
              if over_id == new_composition_drop_id
              then update_draft_compositions p
                  (λ current.
                    remove_hand_key_from_drafts current hand_key
                    ++ new_draft b.next_draft_id hand_key ∷ [])
                  (taking_id b)
              else drop_on_draft p hand_key over_id returned reordered b
        ]

    unfoldable pub drop_card :
        Props → DragEvent → String → String → List DraftComposition → Bool → Board → Board
    drop_card p e hand_key over_id baseline reordered b =
        let returned =
          any (holds hand_key) baseline && not (any (holds hand_key) (shown_drafts p b)) in
        if over_id == discard_drop_id
        then drop_on_discard p e hand_key b
        else if not p.can_discard
        then (if is_available p b over_id && hand_key != over_id && not reordered
            then playing "card-place"
                (reorder_hand array_move p (hand_entries p b) hand_key over_id b)
            else b)
        else drop_composing p hand_key over_id returned reordered b

    -- Nothing is under the card: the order and the drafts are again as they were.
    unfoldable pub put_back : Props → List String → List DraftComposition → Board → Board
    put_back p baseline_order baseline b =
        commit_drafts
          (record {
            scope_key = draft_scope_key p;
            compositions = baseline;
            baseline_hand_order = b.drafts.baseline_hand_order;
          })
          (update_hand_order p baseline_order b)

    -- Nothing that a drop reads depends on the drag that has ended.
    unfoldable pub handle_drag_end : Props → DragEvent → Board → Board
    handle_drag_end p e b =
        let ended = record b { active_drag = none; last_drag_over_target = none } in
        elim b.active_drag [
          | none ↦ ended
          | some (draw source card entries baseline_order) ↦
              if is_some (active_draw_entry p b)
                && is_some (truthy e.over_id)
                && e.over_id != some discard_drop_id
              then ended
              else update_hand_order p baseline_order ended
          | some (drag_hand hand_key baseline_order baseline reordered) ↦ elim e.active_id [
            | none ↦ ended
            | some dragged ↦ elim e.over_id [
              | none ↦ put_back p baseline_order baseline ended
              | some over_id ↦ drop_card p e dragged over_id baseline reordered ended
            ]
          ]
        ]

    unfoldable pub handle_drag_cancel : Props → Board → Board
    handle_drag_cancel p b =
        let ended = record b { active_drag = none; last_drag_over_target = none } in
        elim b.active_drag [
          | none ↦ ended
          | some (draw source card entries baseline_order) ↦
              update_hand_order p baseline_order ended
          | some (drag_hand hand_key baseline_order baseline reordered) ↦
              put_back p baseline_order baseline ended
        ]

unfoldable pub reset_draft_compositions : Bool → Props → Board → Board
reset_draft_compositions sync p b =
    let reset = record b {
      show_draft_validation = false;
      skip_next_draft_sync = if sync then b.skip_next_draft_sync else true;
    } in
    let ordered =
      if b.drafts.scope_key == draft_scope_key p
      then elim b.drafts.baseline_hand_order [
        | none ↦ reset
        | some order ↦ update_hand_order p order reset
      ]
      else reset in
    commit_drafts
      (record { scope_key = draft_scope_key p; compositions = []; baseline_hand_order = none })
      ordered

abbrev pub can_submit_table_play : Props → Board → Bool
can_submit_table_play p b =
    p.can_discard
    && not (is_empty (drafted_views p b))
    && (elim (validate_opening_table_play (player_has_opened p) (drafted_views p b)) [
      | can_submit ↦ true
      | missing_own_composition ↦ false
    ])

-- `submitDraftCompositions` up to the answer.
unfoldable pub submit_draft_compositions : Props → Board → Board
submit_draft_compositions p b =
    if can_submit_table_play p b
    then calling
        (play_table (build_table_play_request (active_compositions_of p.game) (drafted_views p b)))
        b
    else b

-- The rest of it: `p` are the properties at the time of the submission, and `ok` is whether the answer
-- came and is not refused.
unfoldable pub submission_answered : Props → Bool → Board → Board
unfolding reset_draft_compositions
submission_answered p true b = reset_draft_compositions false p b
submission_answered p false b = playing "invalid-action" (record b { show_draft_validation = true })

-- The answer to a play with a discard.
unfoldable pub discard_answered : Bool → Board → Board
discard_answered true b = b
discard_answered false b = playing "invalid-action" (record b { show_draft_validation = true })

-- The effect that runs when the drafts, the turn or the mode have changed.
unfoldable pub sync_turn_drafts : Bool → Props → Board → Board
sync_turn_drafts is_enabled p b =
    if not is_enabled || not p.is_my_turn
    then b
    else if b.skip_next_draft_sync
    then record b { skip_next_draft_sync = false }
    else calling (update_turn_drafts (map build_draft_composition_snapshot (drafted_views p b))) b
