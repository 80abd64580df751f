-- ===== src/Board/Sound.antt =====
-- A board whose drafts, and those that its drag may put back, are staged soundly, and the parts of the
-- handlers of useGameBoardController that the handlers share.
use compositions.Prelude.{
  ℕ, ◌+◌, inl, inr, String, Bool, true, false, ◌&&◌, Option, none, some, List, ◌==◌, if◌then◌else◌,
  is_some, nat_eq, string_eq, option_eq, Bool-cases, Option-cases,
}
use compositions.Snapshots.{Card}
use compositions.Hand.{HandEntry}
use compositions.Drafts.{DraftComposition, truthy}
use compositions.Table.{resolve_draft_views}
use compositions.Board.{
  Props, DrawPile, ActiveDrag, draw, drag_hand, Board, update_hand_order, update_draft_compositions,
  finish_returning_hand_key, scoped_compositions, draft_resolution, shown_drafts, draft_scope_key,
}
use compositions.Board.Drags.{DragEvent, handle_drag_start, start_hand}
use compositions.Board.Drops.{reset_draft_compositions}
use compositions.Board.Staged.{
  IsStaged, later-IsStaged, empty-IsStaged, prune-IsStaged, remove-IsStaged,
}

-- The drafts that a drag may put back.
abbrev IsRestorable : ℕ → Option ActiveDrag → Type 0
IsRestorable n none = Unit
IsRestorable n (some (draw source card entries order)) = Unit
IsRestorable n (some (drag_hand hand_key order drafts reordered)) = IsStaged n drafts

abbrev pub IsSound : Board → Type 0
IsSound b =
    IsStaged b.next_draft_id b.drafts.compositions × IsRestorable b.next_draft_id b.active_drag

pub later-IsRestorable : (n : ℕ) (o : Option ActiveDrag) → IsRestorable n o → IsRestorable (n + 1) o
later-IsRestorable n none v = tt
later-IsRestorable n (some (draw source card entries order)) v = tt
later-IsRestorable n (some (drag_hand hand_key order drafts reordered)) v =
    later-IsStaged n drafts v

pub cond-IsSound : (c : Bool) (x y : Board) → IsSound x → IsSound y → IsSound (if c then x else y)
cond-IsSound true x y v w = v
cond-IsSound false x y v w = w

pub option-IsSound {ℓ} :
    {A : Type ℓ} (o : Option A) (x : Board) (f : A → Board)
    → IsSound x
    → ((a : A) → IsSound (f a))
    → IsSound (elim o [ none ↦ x | some a ↦ f a ])
option-IsSound none x f v w = v
option-IsSound (some a) x f v w = w a

pub drag-IsSound :
    (n : ℕ) (o : Option ActiveDrag) (x : Board)
    (f : DrawPile → Option Card → List HandEntry → List String → Board)
    (g : String → List String → List DraftComposition → Bool → Board)
    → IsRestorable n o
    → IsSound x
    → ((source : DrawPile) (card : Option Card) (entries : List HandEntry) (order : List String)
        → IsSound (f source card entries order))
    → ((key : String) (order : List String) (baseline : List DraftComposition) (reordered : Bool)
        → IsStaged n baseline
        → IsSound (g key order baseline reordered))
    → IsSound (elim o [
      | none ↦ x
      | some (draw source card entries order) ↦ f source card entries order
      | some (drag_hand key order baseline reordered) ↦ g key order baseline reordered
    ])
drag-IsSound n none x f g r v w u = v
drag-IsSound n (some (draw source card entries order)) x f g r v w u = w source card entries order
drag-IsSound n (some (drag_hand key order baseline reordered)) x f g r v w u =
    u key order baseline reordered r

pub scoped-IsStaged :
    (p : Props) (b : Board) → IsSound b → IsStaged b.next_draft_id (scoped_compositions p b)
scoped-IsStaged p b v = elim (Bool-cases (b.drafts.scope_key == draft_scope_key p)) [
  | inl same ↦ rw same v.0
  | inr other ↦ rw other (empty-IsStaged b.next_draft_id)
]

resolved-IsStaged :
    (p : Props) (b : Board) → IsSound b → IsStaged b.next_draft_id (shown_drafts p b)
unfolding draft_resolution resolve_draft_views
resolved-IsStaged p b v = prune-IsStaged b.next_draft_id _ _ (scoped-IsStaged p b v)

pub order-IsSound :
    (p : Props) (order : List String) (b : Board)
    → IsSound b
    → IsSound (update_hand_order p order b)
unfolding update_hand_order
order-IsSound p order b v = v

pub update-IsSound :
    (p : Props) (updater : List DraftComposition → List DraftComposition) (b : Board)
    → IsStaged b.next_draft_id (updater (scoped_compositions p b))
    → IsRestorable b.next_draft_id b.active_drag
    → IsSound (update_draft_compositions p updater b)
unfolding update_draft_compositions
update-IsSound p updater b v w = (v, w)

pub returned-IsSound :
    (p : Props) (key : String) (b : Board) → IsSound b → IsSound (finish_returning_hand_key p key b)
unfolding finish_returning_hand_key
returned-IsSound p key b v = (remove-IsStaged b.next_draft_id _ key (scoped-IsStaged p b v), v.1)

start_hand-IsSound :
    (p : Props) (o : Option String) (b : Board) → IsSound b → IsSound (start_hand p o b)
start_hand-IsSound p none b v = (v.0, tt)
start_hand-IsSound p (some key) b v = (v.0, resolved-IsStaged p b v)

pub start-IsSound :
    (p : Props) (e : DragEvent) (b : Board) → IsSound b → IsSound (handle_drag_start p e b)
unfolding handle_drag_start
start-IsSound p e b v =
    cond-IsSound (e.draw_source == some "deck") _ _ (v.0, tt)
      (cond-IsSound (e.draw_source == some "discard" && is_some p.top_discard_card) _ _ (v.0, tt)
        (start_hand-IsSound p (truthy e.active_id) (record b { last_drag_over_target = none }) v))

pub reset-IsSound :
    (sync : Bool) (p : Props) (b : Board) → IsSound b → IsSound (reset_draft_compositions sync p b)
unfolding reset_draft_compositions update_hand_order
reset-IsSound sync p b v = elim (Bool-cases (b.drafts.scope_key == draft_scope_key p)) [
  | inr other ↦ rw other (empty-IsStaged b.next_draft_id, v.1)
  | inl same ↦ elim (Option-cases b.drafts.baseline_hand_order) [
    | inl nothing ↦ rw same (rw nothing (empty-IsStaged b.next_draft_id, v.1))
    | inr (order, kept) ↦ rw same (rw kept (empty-IsStaged b.next_draft_id, v.1))
  ]
]
