-- ===== src/Board/Drags.antt =====
-- The handlers of the drags of `useGameBoardController` in frontend/src/components/game/game-board-view.tsx, and
-- the submission of the drafts. A handler reads what the last render derived and changes the state.
use compositions.Prelude.{
  ℕ, String, Bool, true, false, not, ◌&&◌, ◌||◌, ◌>>=◌, Option, none, some, List, [], ◌∷◌, ◌++◌,
  ◌==◌, ◌!=◌, if◌then◌else◌, find?, any, is_some, first_some, nat_eq, string_eq, option_eq,
}
use compositions.Prelude.Text.{show}
use compositions.Hand.{◌+++◌, HandEntry, hand_entry_order, move_hand_entry}
use compositions.Drafts.{
  DraftComposition, truthy, remove_hand_key_from_drafts, insert_hand_key_into_draft,
}
use compositions.DropIds.{composition_id_from_drop_id}
use compositions.Board.{
  Props, deck_pile, discard_pile, ActiveDrag, draw, drag_hand, Call, sound, draw_from_deck,
  draw_from_discard, Board, update_hand_order, update_draft_compositions, hand_entries,
  shown_drafts, holds, is_available, active_draw_entry,
}

abbrev pub hand_drop_id : String
hand_drop_id = "hand-drop-zone"

abbrev pub new_composition_drop_id : String
new_composition_drop_id = "new-composition-drop-zone"

abbrev pub discard_drop_id : String
discard_drop_id = "discard-pile"

-- What a handler reads of an event: the id of the dragged item, as it is if it is a text and as a text
-- in any case, the id that it is over if that is a text, and the data of the item.
pub record DragEvent : Type 0 where
  pub active_id : Option String
  pub active_text : String
  pub over_id : Option String
  pub draw_source : Option String
  pub card_index : Option ℕ
  pub is_virtual : Bool

abbrev pub calling : Call → Board → Board
calling call b = record b { calls = b.calls ++ call ∷ [] }

-- The two kinds of draws by `handleDragStart`.
abbrev pub start_draw : Props → Board → ActiveDrag → Call → Board
start_draw p b drag call =
    calling call (calling (sound "card-pickup") (record b { active_drag = some drag }))

abbrev pub start_hand : Props → Option String → Board → Board
start_hand p none b = record b { active_drag = none }
start_hand p (some hand_key) b = calling (sound "card-pickup") (record b {
  active_drag =
      some (drag_hand hand_key (hand_entry_order (hand_entries p b)) (shown_drafts p b) false);
})

unfoldable pub handle_drag_start : Props → DragEvent → Board → Board
handle_drag_start p e b =
    let b' = record b { last_drag_over_target = none } in
    let entries = hand_entries p b in
    if e.draw_source == some "deck"
    then start_draw p b' (draw deck_pile none entries (hand_entry_order entries)) draw_from_deck
    else if e.draw_source == some "discard" && is_some p.top_discard_card
    then start_draw p b' (draw discard_pile p.top_discard_card entries (hand_entry_order entries))
        draw_from_discard
    else start_hand p (truthy e.active_id) b'

-- `isRepeatedDragOverTarget` sets the last target.
abbrev pub is_repeated_drag_over_target : DragEvent → Board → Bool
is_repeated_drag_over_target e b = elim b.last_drag_over_target [
  | none ↦ false
  | some (active_id, over_id) ↦ active_id == e.active_text && over_id == e.over_id
]

abbrev pub targeting : DragEvent → Board → Board
targeting e b = record b { last_drag_over_target = some (e.active_text, e.over_id) }

abbrev pub draft_id : ℕ → String
draft_id n = "draft-" +++ show n

module _ (array_move : (A : Type 0) → List A → ℕ → ℕ → List A) where
  -- `updateHandOrder(handEntryOrder(moveHandEntry(…)))`, with the entries of the last render.
  abbrev pub reorder_hand : Props → List HandEntry → String → String → Board → Board
  reorder_hand p entries hand_key over_id =
      update_hand_order p (hand_entry_order (move_hand_entry array_move entries hand_key over_id))

  unfoldable pub draw_over : Props → DragEvent → List String → Board → Board
  draw_over p e baseline_order b = elim (active_draw_entry p b) [
    | none ↦ b
    | some entry ↦
        let b' = targeting e b in
        if is_repeated_drag_over_target e b then b' else elim e.over_id [
          | none ↦ update_hand_order p baseline_order b'
          | some over_id ↦
              if over_id == discard_drop_id
              then update_hand_order p baseline_order b'
              else reorder_hand p (hand_entries p b) entry.key over_id b'
        ]
  ]

  -- A card comes over a draft or a card of it.
  unfoldable pub enter_draft : Props → String → String → Board → Board
  enter_draft p hand_key over_id b =
      let drafts = shown_drafts p b in
      let on_card = find? (holds over_id) drafts in
      let in_container =
        composition_id_from_drop_id over_id
        >>= (λ id. find? (λ composition. composition.id == id) drafts) in
      let current = find? (holds hand_key) drafts in
      elim (first_some on_card in_container) [
        | none ↦ b
        | some target ↦
            if is_some target.table_index
              || (elim current [ none ↦ false | some draft ↦ draft.id == target.id ])
            then b
            else update_draft_compositions p
                (λ drafts'.
                  insert_hand_key_into_draft array_move drafts' hand_key target.id
                    (if is_some on_card then some over_id else none))
                b
      ]

  -- A card that comes from a draft is over the hand: `b` is the board of the last render.
  unfoldable pub leave_draft : Props → String → String → Bool → Board → Board → Board
  leave_draft p hand_key over_id reorders b b' =
      let removed =
        update_draft_compositions p (λ drafts. remove_hand_key_from_drafts drafts hand_key) b' in
      if reorders then reorder_hand p (hand_entries p b) hand_key over_id removed else removed

  unfoldable pub hand_over :
      Props → DragEvent → String → List String → List DraftComposition → Bool → Board → Board
  hand_over p e hand_key baseline_order baseline reordered b =
      let b' = targeting e b in
      if is_repeated_drag_over_target e b then b' else elim e.over_id [
        | none ↦ b'
        | some over_id ↦
            let started_in_draft = any (holds hand_key) baseline in
            let on_hand_card = is_available p b over_id in
            if not started_in_draft && on_hand_card && hand_key != over_id
            then record (reorder_hand p (hand_entries p b) hand_key over_id b') {
              active_drag = some (drag_hand hand_key baseline_order baseline true);
            }
            else if not p.can_discard
            then b'
            else if started_in_draft && (over_id == hand_drop_id || on_hand_card)
            then leave_draft p hand_key over_id (on_hand_card && hand_key != over_id) b b'
            else enter_draft p hand_key over_id b'
      ]

  unfoldable pub handle_drag_over : Props → DragEvent → Board → Board
  handle_drag_over p e b = elim b.active_drag [
    | none ↦ b
    | some (draw source card entries baseline_order) ↦ draw_over p e baseline_order b
    | some (drag_hand hand_key baseline_order baseline reordered) ↦
        hand_over p e hand_key baseline_order baseline reordered b
  ]
