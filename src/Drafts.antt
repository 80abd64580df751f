-- ===== src/Drafts.antt =====
-- The drafts of the table in frontend/src/components/game/game-board-view-state.ts: the operations
-- that move hand keys between draft compositions and that place single cards.
pub mod Removal
pub mod Insertion
pub mod Moving
pub mod Position
pub mod Placing
use compositions.Prelude.{
  ℕ, suc, ◌+◌, String, Bool, true, false, not, ◌&&◌, ◌||◌, Option, none, some, List, [], ◌∷◌, ◌++◌,
  map, ◌==◌, ◌!=◌, if◌then◌else◌, get_or, filter, find?, find_index?, get_elem?, set, take, drop,
  contains, any, is_empty, is_some, nat_eq, string_eq,
}
use compositions.Prelude.Maps.{lookup, insert, erase}
use compositions.Snapshots.{Card, CardPlacement, DraftSnapshot}
use compositions.Hand.{HandEntry}

pub record DraftComposition : Type 0 where
  pub id : String
  pub hand_keys : List String
  pub table_index : Option ℕ
  pub insert_index : Option ℕ
  pub card_insert_indices : Option (List (String × ℕ))
  pub reclaim_targets : Option (List (String × ℕ))

-- `DraftComposition & { entries: HandEntry[] }`
pub record DraftedComposition : Type 0 where
  pub draft : DraftComposition
  pub entries : List HandEntry

-- `indices?.[key]`
abbrev pub index_of : Option (List (String × ℕ)) → String → Option ℕ
index_of none key = none
index_of (some indices) key = lookup key indices

abbrev placement_of : DraftComposition → HandEntry → CardPlacement
placement_of draft entry = record {
  insert_index = index_of draft.card_insert_indices entry.key;
  reclaim_joker_index = index_of draft.reclaim_targets entry.key;
}

unfoldable pub build_draft_composition_snapshot : DraftedComposition → DraftSnapshot
build_draft_composition_snapshot composition =
    let placements = map (placement_of composition.draft) composition.entries in
    record {
      id = composition.draft.id;
      table_index = composition.draft.table_index;
      insert_index = composition.draft.insert_index;
      card_placements =
          if any (λ p. is_some p.insert_index || is_some p.reclaim_joker_index) placements
          then some placements
          else none;
      cards = map (λ entry. entry.card) composition.entries;
    }

-- `Object.fromEntries(Object.entries(indices ?? {}).filter(([key]) => key !== handKey))`
abbrev pub indices_without : String → Option (List (String × ℕ)) → List (String × ℕ)
indices_without hand_key indices = erase hand_key (get_or [] indices)

-- `Object.keys(indices).length > 0 ? indices : undefined`
abbrev pub unless_empty : List (String × ℕ) → Option (List (String × ℕ))
unless_empty [] = none
unless_empty (index ∷ indices) = some (index ∷ indices)

-- The loop over the drafts once one of them holds the key.
unfoldable pub drafts_without : String → List DraftComposition → List DraftComposition
drafts_without hand_key [] = []
drafts_without hand_key (composition ∷ compositions) =
    let kept = filter (λ key. key != hand_key) composition.hand_keys in
    let next = drafts_without hand_key compositions in
    if is_empty kept
    then next
    else record composition {
      hand_keys = kept;
      card_insert_indices = unless_empty (indices_without hand_key composition.card_insert_indices);
      reclaim_targets = unless_empty (indices_without hand_key composition.reclaim_targets);
    }
      ∷ next

unfoldable pub remove_hand_key_from_drafts : List DraftComposition → String → List DraftComposition
remove_hand_key_from_drafts compositions hand_key =
    if any (λ composition. contains composition.hand_keys hand_key) compositions
    then drafts_without hand_key compositions
    else compositions

unfoldable pub prune_draft_compositions :
    List DraftComposition → List String → List DraftComposition
prune_draft_compositions [] valid_hand_keys = []
prune_draft_compositions (composition ∷ compositions) valid_hand_keys =
    let kept = filter (contains valid_hand_keys) composition.hand_keys in
    let next = prune_draft_compositions compositions valid_hand_keys in
    if is_empty kept then next else record composition { hand_keys = kept } ∷ next

-- A text that is absent or empty fails a test.
abbrev pub truthy : Option String → Option String
truthy none = none
truthy (some s) = if s == "" then none else some s

abbrev pub index_in : List String → String → Option ℕ
index_in keys key = find_index? (λ k. k == key) keys

-- The new keys of the target, from its keys other than the one that is inserted.
unfoldable pub insert_key : List String → String → Option String → List String
insert_key hand_keys hand_key none = hand_keys ++ hand_key ∷ []
insert_key hand_keys hand_key (some over_hand_key) = elim (index_in hand_keys over_hand_key) [
  | none ↦ hand_keys ++ hand_key ∷ []
  | some i ↦ take i hand_keys ++ (hand_key ∷ drop i hand_keys)
]

abbrev pub find_draft : List DraftComposition → String → Option DraftComposition
find_draft compositions id = find? (λ composition. composition.id == id) compositions

-- The second half of `insertHandKeyIntoDraft`, on the drafts without the key.
unfoldable pub insert_into_target :
    List DraftComposition → String → String → Option String → List DraftComposition
insert_into_target next hand_key target_id over =
    elim (find_index? (λ composition. composition.id == target_id) next) [
      | none ↦ next
      | some target_index ↦ elim (get_elem? next target_index) [
        | none ↦ next
        | some target ↦ set next target_index (record target {
          hand_keys = insert_key (filter (λ key. key != hand_key) target.hand_keys) hand_key over;
        })
      ]
    ]

-- `arrayMove` of @dnd-kit/sortable moves an item to another index.
module _ (array_move : (A : Type 0) → List A → ℕ → ℕ → List A) where
  -- The first half of it: the key is already in the target, over another of its keys.
  unfoldable pub reorder_in_draft :
      List DraftComposition → DraftComposition → String → String → List DraftComposition
  reorder_in_draft compositions source hand_key over_hand_key =
      elim (index_in source.hand_keys hand_key) [
        | none ↦ compositions
        | some old_index ↦ elim (index_in source.hand_keys over_hand_key) [
          | none ↦ compositions
          | some new_index ↦
              if old_index == new_index
              then compositions
              else map
                  (λ composition.
                    if composition.id == source.id
                    then record composition {
                      hand_keys = array_move String composition.hand_keys old_index new_index;
                    }
                    else composition)
                  compositions
        ]
      ]

  unfoldable pub insert_hand_key_into_draft :
      List DraftComposition → String → String → Option String → List DraftComposition
  insert_hand_key_into_draft compositions hand_key target_id over_hand_key =
      let source = find? (λ composition. contains composition.hand_keys hand_key) compositions in
      let target = find_draft compositions target_id in
      let over = truthy over_hand_key in
      let moved =
        insert_into_target (remove_hand_key_from_drafts compositions hand_key) hand_key target_id
          over in
      elim source [
        | none ↦ moved
        | some s ↦ elim target [
          | none ↦ moved
          | some t ↦ elim over [
            | none ↦ moved
            | some key ↦
                if s.id == t.id then reorder_in_draft compositions s hand_key key else moved
          ]
        ]
      ]

unfoldable pub move_draft_composition_insert_index :
    List DraftComposition → String → ℕ → List DraftComposition
move_draft_composition_insert_index compositions composition_id insert_index =
    map
      (λ composition.
        if composition.id == composition_id
        then record composition { insert_index = some insert_index }
        else composition)
      compositions

unfoldable pub set_draft_card_insert_index :
    List DraftComposition → String → String → ℕ → List DraftComposition
set_draft_card_insert_index draft_compositions composition_id hand_key insert_index =
    map
      (λ composition.
        if composition.id == composition_id
        then record composition {
          card_insert_indices =
              some (insert hand_key insert_index (get_or [] composition.card_insert_indices));
          reclaim_targets = some (indices_without hand_key composition.reclaim_targets);
        }
        else composition)
      draft_compositions

unfoldable pub set_draft_card_reclaim_target :
    List DraftComposition → String → String → ℕ → List DraftComposition
set_draft_card_reclaim_target draft_compositions composition_id hand_key joker_index =
    map
      (λ composition.
        if composition.id == composition_id
        then record composition {
          card_insert_indices =
              unless_empty (indices_without hand_key composition.card_insert_indices);
          reclaim_targets =
              some (insert hand_key joker_index (get_or [] composition.reclaim_targets));
        }
        else composition)
      draft_compositions
