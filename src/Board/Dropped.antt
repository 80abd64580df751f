-- ===== src/Board/Dropped.antt =====
-- What a drag over a zone and a drop on one do to a sound board.
use compositions.Prelude.{
  ℕ, ◌+◌, ◌<◌, inl, inr, refl, String, Bool, not, ◌&&◌, ◌||◌, Option, none, some, List, ◌==◌, ◌!=◌,
  if◌then◌else◌, find?, any, is_empty, is_some, map, first_some, length, Perm, nat_eq, string_eq,
  option_eq, Bool-cases, Option-cases,
}
use compositions.Prelude.Maps.{lookup}
use compositions.Snapshots.{Composition}
use compositions.Hand.{hand_index_after_submitted_drafts}
use compositions.Drafts.{DraftComposition, truthy, remove_hand_key_from_drafts}
use compositions.DropIds.{EdgeTarget, JokerTarget, composition_id_from_drop_id}
use compositions.Board.{
  Props, Board, update_hand_order, raw_hand_entries, draft_resolution, shown_drafts, drafted_views,
  holds, is_available, active_draw_entry,
}
use compositions.Board.Drags.{
  DragEvent, hand_drop_id, discard_drop_id, targeting, is_repeated_drag_over_target, draw_over,
  enter_draft, leave_draft, hand_over, handle_drag_over,
}
use compositions.Board.Drops.{
  discard_at, drop_on_discard, draft_on, playing, staged_on_edge, staged_on_joker, staged_in,
  drop_on_hand, drop_on_draft,
}
use compositions.Board.Staged.{
  IsStaged, later-IsStaged, remove-IsStaged, stage_new-IsStaged, insert-IsStaged,
  move_index-IsStaged, set_index-IsStaged, set_target-IsStaged,
}
use compositions.Board.Sound.{
  cond-IsSound, option-IsSound, drag-IsSound, scoped-IsStaged, order-IsSound, update-IsSound,
  returned-IsSound, IsSound,
}

module _ (array_move : (A : Type 0) → List A → ℕ → ℕ → List A)
    (array_move_perm : (A : Type 0) (xs : List A) (i j : ℕ)
      → i < length xs
      → j < length xs
      → Perm (array_move A xs i j) xs) where
  draw_over-IsSound :
      (p : Props) (e : DragEvent) (order : List String) (b : Board)
      → IsSound b
      → IsSound (draw_over array_move p e order b)
  unfolding draw_over update_hand_order
  draw_over-IsSound p e order b v = option-IsSound (active_draw_entry p b) _ _ v (λ entry.
      cond-IsSound (is_repeated_drag_over_target e b) _ _ v
        (option-IsSound e.over_id _ _ v (λ over. cond-IsSound (over == discard_drop_id) _ _ v v)))

  enter_draft-IsSound :
      (p : Props) (key over : String) (b : Board)
      → IsSound b
      → IsSound (enter_draft array_move p key over b)
  unfolding enter_draft
  enter_draft-IsSound p key over b v =
      let on_card = find? (holds over) (shown_drafts p b) in
      option-IsSound (first_some on_card _) _ _ v (λ target.
        cond-IsSound (is_some target.table_index || _) _ _ v (
          update-IsSound p _ b
            (insert-IsStaged array_move array_move_perm b.next_draft_id _ key target.id
              (if is_some on_card then some over else none) (scoped-IsStaged p b v))
            v.1))

  leave_draft-IsSound :
      (p : Props) (key over : String) (reorders : Bool) (b b' : Board)
      → IsSound b'
      → IsSound (leave_draft array_move p key over reorders b b')
  unfolding leave_draft
  leave_draft-IsSound p key over reorders b b' v =
      let removed =
        update-IsSound p (λ drafts. remove_hand_key_from_drafts drafts key) b'
          (remove-IsStaged b'.next_draft_id _ key (scoped-IsStaged p b' v)) v.1 in
      cond-IsSound reorders _ _ (order-IsSound p _ _ removed) removed

  hand_over-IsSound :
      (p : Props) (e : DragEvent) (key : String) (order : List String)
      (baseline : List DraftComposition) (reordered : Bool) (b : Board)
      → IsSound b
      → IsStaged b.next_draft_id baseline
      → IsSound (hand_over array_move p e key order baseline reordered b)
  unfolding hand_over update_hand_order
  hand_over-IsSound p e key order baseline reordered b v w =
      let b' = targeting e b in
      cond-IsSound (is_repeated_drag_over_target e b) b' _ v (
        option-IsSound e.over_id b' _ v (λ over.
          let started = any (holds key) baseline in
          let on_hand = is_available p b over in
          cond-IsSound (not started && on_hand && key != over) _ _ (v.0, w)
            (cond-IsSound (not p.can_discard) b' _ v (
              cond-IsSound (started && (over == hand_drop_id || on_hand)) _ _
                (leave_draft-IsSound p key over (on_hand && key != over) b b' v)
                (enter_draft-IsSound p key over b' v)))))

  pub over-IsSound :
      (p : Props) (e : DragEvent) (b : Board)
      → IsSound b
      → IsSound (handle_drag_over array_move p e b)
  unfolding handle_drag_over
  over-IsSound p e b v =
      drag-IsSound b.next_draft_id b.active_drag b _ _ v.1 v
        (λ source card entries order. draw_over-IsSound p e order b v)
        (λ key order baseline reordered. hand_over-IsSound p e key order baseline reordered b v)

  -- Drops.
  discard_at-IsSound :
      (p : Props) (key : String) (i : ℕ) (b : Board) → IsSound b → IsSound (discard_at p key i b)
  unfolding discard_at
  discard_at-IsSound p key i b v =
      let views = drafted_views p b in
      let index =
        if is_empty views
        then some i
        else hand_index_after_submitted_drafts (raw_hand_entries p) key
            (map (λ view. view.entries) views) in
      let found = lookup key (draft_resolution p b).all_entry_by_key in
      elim (Option-cases index) [
        | inl absent ↦ rw (absent, discard_at) v
        | inr (n, at) ↦ elim (Option-cases found) [
          | inl unknown ↦ rw (at, discard_at) (rw unknown v)
          | inr (entry, known) ↦ rw (at, discard_at) (rw known v)
        ]
      ]

  pub discard-IsSound :
      (p : Props) (e : DragEvent) (key : String) (b : Board)
      → IsSound b
      → IsSound (drop_on_discard p e key b)
  unfolding drop_on_discard
  discard-IsSound p e key b v = cond-IsSound (any (holds key) (shown_drafts p b)) b _ v (
      cond-IsSound e.is_virtual (playing "invalid-action" b) _ v (
        option-IsSound e.card_index b (λ i. discard_at p key i b) v
          (λ i. discard_at-IsSound p key i b v)))

  pub edge-IsStaged :
      (n : ℕ) (composition : Option Composition) (target : EdgeTarget) (key : String)
      (drafts : List DraftComposition)
      → IsStaged n drafts
      → IsStaged (n + 1) (staged_on_edge array_move n composition target key drafts)
  unfolding staged_on_edge
  edge-IsStaged n composition target key drafts v =
      elim (Option-cases (draft_on target.composition_index drafts)) [
        | inl absent ↦ rw (absent, staged_on_edge) (stage_new-IsStaged n drafts key _ refl refl v)
        | inr (existing, found) ↦
            rw (found, staged_on_edge)
              (later-IsStaged n _ (
                set_index-IsStaged n _ existing.id key _
                  (insert-IsStaged array_move array_move_perm n drafts key existing.id none v)))
      ]

  pub joker-IsStaged :
      (n : ℕ) (composition : Option Composition) (target : JokerTarget) (key : String)
      (drafts : List DraftComposition)
      → IsStaged n drafts
      → IsStaged (n + 1) (staged_on_joker array_move n composition target key drafts)
  unfolding staged_on_joker
  joker-IsStaged n composition target key drafts v =
      elim (Option-cases (draft_on target.composition_index drafts)) [
        | inl absent ↦ rw (absent, staged_on_joker) (stage_new-IsStaged n drafts key _ refl refl v)
        | inr (existing, found) ↦
            rw (found, staged_on_joker)
              (later-IsStaged n _ (
                set_target-IsStaged n _ existing.id key _
                  (insert-IsStaged array_move array_move_perm n drafts key existing.id none v)))
      ]

  in-IsStaged :
      (n : ℕ) (id key : String) (drafts : List DraftComposition)
      → IsStaged n drafts
      → IsStaged n (staged_in array_move id key drafts)
  unfolding staged_in
  in-IsStaged n id key drafts v =
      let inserted = insert-IsStaged array_move array_move_perm n drafts key id none v in
      elim (Option-cases (find? (λ composition. composition.id == id) drafts)) [
        | inl absent ↦ rw (absent, staged_in) inserted
        | inr (target, found) ↦ elim (Bool-cases (is_some target.table_index)) [
          | inl on_table ↦
              rw (found, staged_in) (rw on_table (move_index-IsStaged n _ id _ inserted))
          | inr own ↦ rw (found, staged_in) (rw own inserted)
        ]
      ]

  drop_on_hand-IsSound :
      (p : Props) (key over : String) (returned reordered : Bool) (b : Board)
      → IsSound b
      → IsSound (drop_on_hand array_move p key over returned reordered b)
  unfolding drop_on_hand
  drop_on_hand-IsSound p key over returned reordered b v =
      let back = returned-IsSound p key (playing "card-place" b) v in
      cond-IsSound (over == hand_drop_id) _ _ back (
        cond-IsSound (is_available p b over) _ b
          (cond-IsSound (key != over && not returned && not reordered) _ _
            (order-IsSound p _ _ back) back)
          v)

  pub drop_on_draft-IsSound :
      (p : Props) (key over : String) (returned reordered : Bool) (b : Board)
      → IsSound b
      → IsSound (drop_on_draft array_move p key over returned reordered b)
  unfolding drop_on_draft
  drop_on_draft-IsSound p key over returned reordered b v =
      let b' = playing "card-place" b in
      let scoped = scoped-IsStaged p b v in
      elim (Option-cases (find? (holds over) (shown_drafts p b))) [
        | inr (target, found) ↦
            rw (found, drop_on_draft)
              (update-IsSound p _ b'
                (insert-IsStaged array_move array_move_perm b.next_draft_id _ key target.id
                  (some over) scoped)
                v.1)
        | inl absent ↦ elim (Option-cases (truthy (composition_id_from_drop_id over))) [
          | inr (id, container) ↦
              rw (absent, drop_on_draft)
                (rw container
                  (update-IsSound p _ b' (in-IsStaged b.next_draft_id id key _ scoped) v.1))
          | inl other ↦
              rw (absent, drop_on_draft)
                (rw other (drop_on_hand-IsSound p key over returned reordered b v))
        ]
      ]
