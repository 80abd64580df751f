-- ===== src/Preview.antt =====
-- frontend/src/components/game/game-board-table-state.ts: how another player's draft is shown on the
-- table composition that it is staged on.
pub mod Conservation
use compositions.Prelude.{
  ℕ, suc, ◌+◌, String, Option, none, some, List, [], ◌∷◌, ◌++◌, reverse, ◌==◌, if◌then◌else◌,
  get_or, get_elem?, length, nat_eq, string_eq,
}
use compositions.Prelude.Maps.{lookup, insert}
use compositions.Snapshots.{Card, CardPlacement, DraftSnapshot}
use compositions.Hand.{HandEntry, build_hand_entries}
use compositions.Reclaims.{PlannedReclaim, plan_table_joker_reclaims}
use compositions.Table.{TableView, Groups, group_from, insert_index_of, without_reclaimed}

pub record DraftPreview : Type 0 where
  pub staged_entries : List HandEntry
  pub reclaims : List PlannedReclaim
  pub insert_index : Option ℕ
  pub card_insert_indices : Option (List (String × ℕ))

-- `placements?.[index]?.[field]`
abbrev pub field_at : (CardPlacement → Option ℕ) → Option (List CardPlacement) → ℕ → Option ℕ
field_at field none index = none
field_at field (some placements) index = elim (get_elem? placements index) [
  | none ↦ none
  | some placement ↦ field placement
]

-- The loop over the entries from an index on, with what it has collected.
unfoldable pub aligned_from :
    (CardPlacement → Option ℕ)
    → Option (List CardPlacement)
    → ℕ
    → List (String × ℕ)
    → List HandEntry
    → List (String × ℕ)
aligned_from field placements index normalized [] = normalized
aligned_from field placements index normalized (entry ∷ entries) =
    aligned_from field placements (index + 1)
      (elim (field_at field placements index) [
        | none ↦ normalized
        | some value ↦ insert entry.key value normalized
      ])
      entries

unfoldable pub aligned_entry_index_map :
    List HandEntry → Option (List CardPlacement) → (CardPlacement → Option ℕ) → List (String × ℕ)
aligned_entry_index_map entries placements field = aligned_from field placements 0 [] entries

-- The groups that are not at the front, one after the other.
unfoldable pub behind_front : Groups → List HandEntry
behind_front [] = []
behind_front ((insert_index, entries) ∷ groups) =
    if insert_index == 0 then behind_front groups else entries ++ behind_front groups

unfoldable pub draft_preview_for_composition :
    Option TableView → DraftSnapshot → List Card → DraftPreview
draft_preview_for_composition none draft cards = record {
  staged_entries = build_hand_entries cards;
  reclaims = [];
  insert_index = draft.insert_index;
  card_insert_indices = none;
}
draft_preview_for_composition (some table_composition) draft cards =
    let staged_entries = build_hand_entries cards in
    let insert_index = get_or (length table_composition.snapshot.cards) draft.insert_index in
    let targets =
      aligned_entry_index_map staged_entries draft.card_placements (λ p. p.reclaim_joker_index) in
    let indices =
      aligned_entry_index_map staged_entries draft.card_placements (λ p. p.insert_index) in
    let plan =
      plan_table_joker_reclaims table_composition.snapshot staged_entries insert_index
        (some targets) in
    let groups =
      group_from (insert_index_of (some indices) insert_index) []
        (without_reclaimed plan.reclaimed_entry_keys staged_entries) in
    record {
      staged_entries = reverse (get_or [] (lookup 0 groups)) ++ behind_front groups;
      reclaims = plan.reclaims;
      insert_index = some insert_index;
      card_insert_indices = some indices;
    }
