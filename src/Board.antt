-- ===== src/Board.antt =====
-- The hand order, the drafts and the drags of the table: `useGameBoardController` in
-- frontend/src/components/game/game-board-view.tsx and frontend/src/components/game/game-hand-order-store.ts.
-- The callbacks that guide a new player, and the copy of the hand order in the browser's storage, are
-- left out: they only report.
pub mod Drags
pub mod Drops
pub mod Staged
pub mod Run
pub mod Sound
pub mod Dropped
pub mod Once
pub mod Restored
use compositions.Prelude.{
  ℕ, suc, ◌+◌, String, Bool, true, false, not, ◌&&◌, ◌||◌, Option, none, some, List, [], ◌∷◌, ◌++◌,
  map, ◌==◌, ◌!=◌, if◌then◌else◌, get_or, filter, find?, contains, any, is_empty, is_some, length,
  get_elem?, first_some, nat_eq, string_eq, option_eq,
}
use compositions.Prelude.Text.{show}
use compositions.Prelude.Maps.{lookup, insert}
use compositions.Snapshots.{DraftSnapshot, Card, Composition, TablePlay}
use compositions.Snapshots.Game.{Game, Turn, PlayerState}
use compositions.Hand.{
  ◌+++◌, HandEntry, build_hand_entries, hand_entry_order, map_hand_keys_to_entries,
  apply_hand_entry_order, find_new_hand_entry, move_hand_entry,
}
use compositions.Drafts.{DraftComposition, DraftedComposition, truthy, remove_hand_key_from_drafts}
use compositions.Table.{
  ResolvedDrafts, resolve_draft_views, validate_opening_table_play, build_table_play_request,
}

-- The properties of the hook, and those of its turn state that it reads.
pub record Props : Type 0 where
  pub game : Option Game
  pub room_code : Option String
  pub player_id : String
  pub is_my_turn : Bool
  pub can_discard : Bool
  pub top_discard_card : Option Card

pub record HandOrderState : Type 0 where
  pub scope_key : Option String
  pub order : Option (List String)

pub record DraftCompositionState : Type 0 where
  pub scope_key : Option String
  pub compositions : List DraftComposition
  pub baseline_hand_order : Option (List String)

pub data DrawPile : Type 0 where
  deck_pile discard_pile : DrawPile

-- The key that a draw reveals is set only where the state is shown.
pub data ActiveDrag : Type 0 where
  draw :
      (source : DrawPile) (card : Option Card) (baseline_entries : List HandEntry)
      (baseline_order : List String)
      → ActiveDrag
  drag_hand :
      (hand_key : String) (baseline_hand_order : List String)
      (baseline_draft_compositions : List DraftComposition) (has_reordered_hand : Bool)
      → ActiveDrag

-- What the controller calls.
pub data Call : Type 0 where
  sound : String → Call
  draw_from_deck draw_from_discard : Call
  discard_card : ℕ → Card → Call
  play_table : TablePlay → Call
  update_turn_drafts : List DraftSnapshot → Call
  play_table_and_discard : TablePlay → ℕ → Card → Call

pub record Board : Type 0 where
  pub orders : List (String × List String)
  pub hand_order_state : HandOrderState
  pub active_drag : Option ActiveDrag
  pub drafts : DraftCompositionState
  pub show_draft_validation : Bool
  pub next_draft_id : ℕ
  pub skip_next_draft_sync : Bool
  pub last_drag_over_target : Option (String × Option String)
  pub calls : List Call

abbrev pub same_string_array : List String → List String → Bool
same_string_array [] [] = true
same_string_array (a ∷ left) (b ∷ right) = a == b && same_string_array left right
same_string_array _ _ = false

-- `usePersistedHandOrder`
unfoldable pub persisted_hand_order : List (String × List String) → Option String → List String
persisted_hand_order orders scope_key = elim (truthy scope_key) [
  | none ↦ []
  | some key ↦ get_or [] (lookup key orders)
]

unfoldable pub set_persisted_hand_order :
    Option String → List String → List (String × List String) → List (String × List String)
set_persisted_hand_order scope_key order orders = elim (truthy scope_key) [
  | none ↦ orders
  | some key ↦
      if same_string_array (get_or [] (lookup key orders)) order
      then orders
      else insert key order orders
]

abbrev pub hand_order_scope_key : Props → Option String
hand_order_scope_key p = elim (truthy p.room_code) [
  | none ↦ none
  | some room ↦ if p.player_id == "" then none else some (room +++ ":" +++ p.player_id)
]

unfoldable pub draft_scope_key : Props → Option String
draft_scope_key p = elim p.game [
  | none ↦ none
  | some game ↦
      if p.is_my_turn
      then some (p.player_id +++ ":" +++ show game.round +++ ":" +++ show game.turn.number)
      else none
]

-- `game?.hand ?? []` and `game?.activeCompositions ?? []`
abbrev pub hand_of : Option Game → List Card
hand_of none = []
hand_of (some game) = game.hand

abbrev pub active_compositions_of : Option Game → List Composition
active_compositions_of none = []
active_compositions_of (some game) = game.active_compositions

abbrev pub raw_hand_entries : Props → List HandEntry
raw_hand_entries p = build_hand_entries (hand_of p.game)

abbrev pub hand_order : Props → Board → List String
hand_order p b =
    let persisted = persisted_hand_order b.orders (hand_order_scope_key p) in
    if b.hand_order_state.scope_key == hand_order_scope_key p
    then get_or persisted b.hand_order_state.order
    else persisted

abbrev pub hand_entries : Props → Board → List HandEntry
hand_entries p b = apply_hand_entry_order (raw_hand_entries p) (hand_order p b)

unfoldable pub update_hand_order : Props → List String → Board → Board
unfolding set_persisted_hand_order
update_hand_order p order b =
    let scope = hand_order_scope_key p in
    let current = b.hand_order_state in
    record b {
      hand_order_state =
          if current.scope_key == scope
            && (elim current.order [ none ↦ false | some old ↦ same_string_array old order ])
          then current
          else record { scope_key = scope; order = some order };
      orders = set_persisted_hand_order scope order b.orders;
    }

-- `scopedDraftCompositions`
abbrev pub scoped_compositions : Props → Board → List DraftComposition
scoped_compositions p b =
    if b.drafts.scope_key == draft_scope_key p then b.drafts.compositions else []

abbrev pub commit_drafts : DraftCompositionState → Board → Board
commit_drafts drafts b = record b { drafts = drafts }

-- The tests that keep an equal state are left out: the state would be the same.
unfoldable pub update_draft_compositions :
    Props → (List DraftComposition → List DraftComposition) → Board → Board
update_draft_compositions p updater b =
    let current = b.drafts in
    let is_current_scope = current.scope_key == draft_scope_key p in
    let scoped = scoped_compositions p b in
    let next = updater scoped in
    let started =
      if is_empty scoped && not (is_empty next)
      then some (hand_entry_order (hand_entries p b))
      else none in
    commit_drafts
      (record {
        scope_key = draft_scope_key p;
        compositions = next;
        baseline_hand_order =
            first_some (if is_current_scope then current.baseline_hand_order else none) started;
      })
      (record b { show_draft_validation = false })

unfoldable pub finish_returning_hand_key : Props → String → Board → Board
finish_returning_hand_key p hand_key b =
    let next = remove_hand_key_from_drafts (scoped_compositions p b) hand_key in
    commit_drafts
      (record {
        scope_key = draft_scope_key p;
        compositions = next;
        baseline_hand_order = if is_empty next then none else b.drafts.baseline_hand_order;
      })
      b

-- What a render derives from the state.
unfoldable pub draft_resolution : Props → Board → ResolvedDrafts
draft_resolution p b =
    resolve_draft_views (active_compositions_of p.game) (scoped_compositions p b) (hand_entries p b)

abbrev pub shown_drafts : Props → Board → List DraftComposition
shown_drafts p b = (draft_resolution p b).draft_compositions

-- `buildDraftedCompositionViews`
unfoldable pub build_drafted_composition_views :
    List DraftComposition → List (String × HandEntry) → List DraftedComposition
build_drafted_composition_views drafts entry_by_key =
    map
      (λ draft. record {
        draft = draft;
        entries = map_hand_keys_to_entries draft.hand_keys entry_by_key;
      })
      drafts

abbrev pub drafted_views : Props → Board → List DraftedComposition
drafted_views p b =
    build_drafted_composition_views (shown_drafts p b) (draft_resolution p b).all_entry_by_key

abbrev pub holds : String → DraftComposition → Bool
holds hand_key composition = contains composition.hand_keys hand_key

abbrev pub available_hand_entries : Props → Board → List HandEntry
available_hand_entries p b =
    filter (λ entry. not (any (holds entry.key) (shown_drafts p b)))
      (draft_resolution p b).all_hand_entries

abbrev pub is_available : Props → Board → String → Bool
is_available p b key = any (λ entry. entry.key == key) (available_hand_entries p b)

abbrev pub active_draw_entry : Props → Board → Option HandEntry
active_draw_entry p b = elim b.active_drag [
  | none ↦ none
  | some (draw source card baseline_entries baseline_order) ↦
      find_new_hand_entry baseline_entries
        (apply_hand_entry_order (raw_hand_entries p) baseline_order)
  | some (drag_hand hand_key order drafts reordered) ↦ none
]

abbrev pub player_has_opened : Props → Bool
player_has_opened p = elim p.game [
  | none ↦ false
  | some game ↦ elim (find? (λ player. player.player_id == p.player_id) game.players) [
    | none ↦ false
    | some player ↦ player.has_opened
  ]
]
