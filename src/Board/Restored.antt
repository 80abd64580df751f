-- ===== src/Board/Restored.antt =====
-- A drag of a card that is cancelled leaves the hand's order and the drafts as they were shown.
use compositions.Prelude.{
  ℕ, ◌≡◌, inl, inr, refl, String, Bool, true, false, not, ◌&&◌, ◌||◌, ◌>>=◌, Option, none, some,
  List, [], ◌∷◌, ◌==◌, ◌!=◌, if◌then◌else◌, find?, any, is_some, first_some, map, get_or, nat_eq,
  string_eq, option_eq, Bool-cases, Option-cases, arith,
}
use compositions.Prelude.Int.{ℤ}
use compositions.Hand.{hand_entry_order}
use compositions.Drafts.{truthy, DraftComposition, insert_hand_key_into_draft}
use compositions.DropIds.{composition_id_from_drop_id}
use compositions.Board.{
  Props, HandOrderState, drag_hand, Board, same_string_array, hand_order_scope_key, hand_order,
  hand_entries, update_hand_order, update_draft_compositions, scoped_compositions, shown_drafts,
  draft_scope_key, draft_resolution, holds, is_available,
}
use compositions.Board.Drags.{
  DragEvent, hand_drop_id, handle_drag_start, targeting, is_repeated_drag_over_target, enter_draft,
  leave_draft, hand_over, handle_drag_over,
}
use compositions.Board.Run.{drag_is_over, handle, run}
use compositions.Board.Drops.{put_back, handle_drag_cancel}

-- A card is being dragged, from this order and these drafts.
record IsHeld (key : String) (order : List String) (baseline : List DraftComposition) (b : Board)
    : Type 0 where
  reordered : Bool
  held : b.active_drag ≡ some (drag_hand key order baseline reordered)

cond_holds {ℓ} : (P : Board → Type ℓ) (c : Bool) (x y : Board) → P x → P y → P (if c then x else y)
cond_holds P true x y v w = v
cond_holds P false x y v w = w

option_holds {ℓ κ} :
    (P : Board → Type ℓ) {A : Type κ} (o : Option A) (x : Board) (f : A → Board)
    → P x
    → ((a : A) → P (f a))
    → P (elim o [ none ↦ x | some a ↦ f a ])
option_holds P none x f v w = v
option_holds P (some a) x f v w = w a

module _ (array_move : (A : Type 0) → List A → ℕ → ℕ → List A) where
  enter_draft-IsHeld :
      (p : Props) (key over : String) (order : List String) (baseline : List DraftComposition)
      (b : Board)
      → IsHeld key order baseline b
      → IsHeld key order baseline (enter_draft array_move p key over b)
  unfolding enter_draft update_draft_compositions
  enter_draft-IsHeld p key over order baseline b v =
      let P = IsHeld key order baseline in
      let drafts = shown_drafts p b in
      let on_card = find? (holds over) drafts in
      let target = first_some on_card (
        composition_id_from_drop_id over
        >>= (λ id. find? (λ composition. composition.id == id) drafts)) in
      elim (Option-cases target) [
        | inl nothing ↦ rw (nothing, enter_draft) v
        | inr (draft, found) ↦
            rw (found, enter_draft)
              (cond_holds P
                (is_some draft.table_index || (elim (find? (holds key) drafts) [
                  | none ↦ false
                  | some current ↦ current.id == draft.id
                ]))
                b
                (update_draft_compositions p
                  (λ drafts'.
                    insert_hand_key_into_draft array_move drafts' key draft.id
                      (if is_some on_card then some over else none))
                  b)
                v (record { reordered = v.reordered; held = v.held }))
      ]

  leave_draft-IsHeld :
      (p : Props) (key over : String) (reorders : Bool) (order : List String)
      (baseline : List DraftComposition) (b b' : Board)
      → IsHeld key order baseline b'
      → IsHeld key order baseline (leave_draft array_move p key over reorders b b')
  unfolding leave_draft update_draft_compositions update_hand_order
  leave_draft-IsHeld p key over reorders order baseline b b' v =
      cond_holds (IsHeld key order baseline) reorders _ _
        (record { reordered = v.reordered; held = v.held })
        (record { reordered = v.reordered; held = v.held })

  hand_over-IsHeld :
      (p : Props) (e : DragEvent) (key : String) (order : List String)
      (baseline : List DraftComposition) (reordered : Bool) (b : Board)
      → IsHeld key order baseline b
      → IsHeld key order baseline (hand_over array_move p e key order baseline reordered b)
  unfolding hand_over
  hand_over-IsHeld p e key order baseline reordered b v =
      let P = IsHeld key order baseline in
      let b' = targeting e b in
      let w : P b' = record { reordered = v.reordered; held = v.held } in
      cond_holds P (is_repeated_drag_over_target e b) b' _ w (
        option_holds P e.over_id b' _ w (λ over.
          let started = any (holds key) baseline in
          let on_hand = is_available p b over in
          cond_holds P (not started && on_hand && key != over) _ _
            (record { reordered = true; held = refl })
            (cond_holds P (not p.can_discard) b' _ w (
              cond_holds P (started && (over == hand_drop_id || on_hand)) _ _
                (leave_draft-IsHeld p key over (on_hand && key != over) order baseline b b' w)
                (enter_draft-IsHeld p key over order baseline b' w)))))

  over-IsHeld :
      (p : Props) (e : DragEvent) (key : String) (order : List String)
      (baseline : List DraftComposition) (b : Board)
      → IsHeld key order baseline b
      → IsHeld key order baseline (handle_drag_over array_move p e b)
  unfolding handle_drag_over
  over-IsHeld p e key order baseline b v =
      rw (v.held, handle_drag_over) (hand_over-IsHeld p e key order baseline v.reordered b v)

  all-IsHeld :
      (number : String → Option ℤ) (p : Props) (events : List DragEvent) (key : String)
      (order : List String) (baseline : List DraftComposition) (b : Board)
      → IsHeld key order baseline b
      → IsHeld key order baseline
          (run array_move number (map (λ event. (p, drag_is_over event)) events) b)
  unfolding run handle
  all-IsHeld number p [] key order baseline b v = v
  all-IsHeld number p (e ∷ events) key order baseline b v =
      all-IsHeld number p events key order baseline _ (over-IsHeld p e key order baseline b v)

same_sound : (left right : List String) → same_string_array left right ≡ true → left ≡ right
same_sound [] [] h = refl
same_sound [] (b ∷ right) h = absurd (cc)
same_sound (a ∷ left) [] h = absurd (cc)
same_sound (a ∷ left) (b ∷ right) h =
    let first : a ≡ b = (string_eq.equal_iff a b).0 (ground (arith, h)) in
    rw (first, same_sound left right (ground (arith, h))) refl

-- The order that is kept, whether the state already had it or not.
order_in : Option String → List String → HandOrderState → List String
order_in scope persisted state =
    if state.scope_key == scope then get_or persisted state.order else persisted

kept_order :
    (scope : Option String) (persisted order : List String) (state : HandOrderState)
    → order_in scope persisted (
        if state.scope_key == scope
          && (elim state.order [ none ↦ false | some old ↦ same_string_array old order ])
        then state
        else record { scope_key = scope; order = some order })
      ≡ order
unfolding order_in
kept_order scope persisted order state =
    let same : (scope == scope) ≡ true = (option_eq.equal_iff scope scope).1 refl in
    elim (Bool-cases (state.scope_key == scope)) [
      | inr other ↦ rw other (rw same refl)
      | inl ours ↦ elim (Option-cases state.order) [
        | inl none_yet ↦ rw (ours, none_yet) (rw same refl)
        | inr (old, kept) ↦ elim (Bool-cases (same_string_array old order)) [
          | inl equal ↦ rw (ours, kept, equal) (rw ours (same_sound old order equal))
          | inr different ↦ rw (ours, kept, different) (rw same refl)
        ]
      ]
    ]

updated_order :
    (p : Props) (order : List String) (b : Board)
    → hand_order p (update_hand_order p order b) ≡ order
unfolding update_hand_order order_in
updated_order p order b = kept_order (hand_order_scope_key p) _ order b.hand_order_state

updated_drag :
    (p : Props) (order : List String) (b : Board)
    → (update_hand_order p order b).active_drag ≡ b.active_drag
unfolding update_hand_order
updated_drag p order b = refl

-- A drag of a card that starts, comes over anything and is then cancelled, with the same snapshot of
-- the game, leaves the drafts as they were shown when it started, and the hand in the order in which
-- it was shown.
pub cancel-restores :
    (array_move : (A : Type 0) → List A → ℕ → ℕ → List A) (number : String → Option ℤ) (p : Props)
    (e : DragEvent) (key : String) (events : List DragEvent) (b : Board)
    → e.draw_source ≡ none
    → truthy e.active_id ≡ some key
    → (let over =
          run array_move number
            (map (λ event. (p, drag_is_over event)) events)
            (handle_drag_start p e b) in
        let after = handle_drag_cancel array_move number p over in
        (scoped_compositions p after ≡ shown_drafts p b)
        × (hand_order p after ≡ hand_entry_order (hand_entries p b))
        × (after.active_drag ≡ none))
unfolding handle_drag_start handle_drag_cancel put_back draft_resolution
cancel-restores array_move number p e key events b by_hand dragged =
    let baseline_order = hand_entry_order (hand_entries p b) in
    let baseline = shown_drafts p b in
    let started : IsHeld key baseline_order baseline (handle_drag_start p e b) = record {
      reordered = false;
      held = rw (by_hand, dragged, handle_drag_start) refl;
    } in
    let v =
      all-IsHeld array_move number p events key baseline_order baseline (handle_drag_start p e b)
        started in
    let over =
      run array_move number (map (λ event. (p, drag_is_over event)) events)
        (handle_drag_start p e b) in
    let ended = record over { active_drag = none; last_drag_over_target = none } in
    let same : (draft_scope_key p == draft_scope_key p) ≡ true =
      (option_eq.equal_iff (draft_scope_key p) (draft_scope_key p)).1 refl in
    rw (v.held, handle_drag_cancel)
      (rw same refl, updated_order p baseline_order ended, updated_drag p baseline_order ended)
