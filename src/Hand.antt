-- ===== src/Hand.antt =====
-- The hand in frontend/src/components/game/game-board-view-state.ts: its entries with their keys,
-- the order that the player gave it, and the index of a card after the submitted drafts.
pub mod Keys
pub mod Order
pub mod Played
use compositions.Prelude.{
  ℕ, suc, ◌+◌, String, Bool, true, false, not, ◌&&◌, ◌||◌, Option, none, some, List, [], ◌∷◌, ◌++◌,
  map, ◌==◌, if◌then◌else◌, get_or, filter, find?, find_index?, contains, is_empty, nat_eq,
  string_eq,
}
use compositions.Prelude.Int.{ℤ, pos, int_eq}
use compositions.Prelude.Maps.{lookup, insert, of_entries}
use compositions.Prelude.Text.{show}
use compositions.Snapshots.{Card}
use Prim.Native.String.{◌++◌ as str_append}

pub record HandEntry : Type 0 where
  pub key : String
  pub card : Card
  pub source_index : ℤ
  pub is_virtual : Bool

infixr 65 ◌+++◌
abbrev pub ◌+++◌ : String → String → String
s +++ t = str_append s t

abbrev pub label : Option ℕ → String
label none = "?"
label (some n) = show n

unfoldable pub hand_card_key : Card → String
hand_card_key card = if card.is_joker then "joker" else label card.rank +++ "-" +++ label card.suit

-- The loop of `buildHandEntries` over the cards that are left, with the next source index and the
-- occurrences counted so far.
unfoldable pub hand_entries_from : ℕ → List (String × ℕ) → List Card → List HandEntry
hand_entries_from source_index counts [] = []
hand_entries_from source_index counts (card ∷ hand) =
    let base_key = hand_card_key card in
    let occurrence = get_or 0 (lookup base_key counts) + 1 in
    record {
      key = base_key +++ "-" +++ show occurrence;
      card = card;
      source_index = pos source_index;
      is_virtual = false;
    }
    ∷ hand_entries_from (source_index + 1) (insert base_key occurrence counts) hand

unfoldable pub build_hand_entries : List Card → List HandEntry
build_hand_entries hand = hand_entries_from 0 [] hand

unfoldable pub hand_entry_order : List HandEntry → List String
hand_entry_order [] = []
hand_entry_order (entry ∷ entries) = entry.key ∷ hand_entry_order entries

-- `new Map(entries.map((entry) => [entry.key, entry]))`
abbrev pub keyed : List HandEntry → List (String × HandEntry)
keyed = map (λ entry. (entry.key, entry))

abbrev pub entry_by_key : List HandEntry → List (String × HandEntry)
entry_by_key entries = of_entries (keyed entries)

-- The loop over the wanted keys: the entries that it pushes.
unfoldable pub map_hand_keys_to_entries : List String → List (String × HandEntry) → List HandEntry
map_hand_keys_to_entries [] by_key = []
map_hand_keys_to_entries (key ∷ keys) by_key = elim (lookup key by_key) [
  | none ↦ map_hand_keys_to_entries keys by_key
  | some entry ↦ entry ∷ map_hand_keys_to_entries keys by_key
]

-- `seenKeys` holds the keys of the pushed entries.
unfoldable pub apply_hand_entry_order : List HandEntry → List String → List HandEntry
apply_hand_entry_order entries ordered_keys =
    let ordered = map_hand_keys_to_entries ordered_keys (entry_by_key entries) in
    let seen_keys = hand_entry_order ordered in
    if is_empty ordered_keys
    then entries
    else ordered ++ filter (λ entry. not (contains seen_keys entry.key)) entries

unfoldable pub find_new_hand_entry : List HandEntry → List HandEntry → Option HandEntry
find_new_hand_entry current next =
    find? (λ entry. not (contains (hand_entry_order current) entry.key)) next

-- `arrayMove` of @dnd-kit/sortable moves an item to another index.
module _ (array_move : (A : Type 0) → List A → ℕ → ℕ → List A) where
  unfoldable pub move_hand_entry : List HandEntry → String → String → List HandEntry
  move_hand_entry current hand_key over_hand_key =
      elim (find_index? (λ entry. entry.key == hand_key) current) [
        | none ↦ current
        | some old_index ↦ elim (find_index? (λ entry. entry.key == over_hand_key) current) [
          | none ↦ current
          | some new_index ↦
              if old_index == new_index
              then current
              else array_move HandEntry current old_index new_index
        ]
      ]

-- The source indices of the cards that the drafts play; `drafted` holds the entries of each draft.
unfoldable pub played_source_indices : List (List HandEntry) → List ℤ
played_source_indices [] = []
played_source_indices (entries ∷ drafted) =
    map (λ entry. entry.source_index) (filter (λ entry. not entry.is_virtual) entries)
    ++ played_source_indices drafted

unfoldable pub next_index_of : List ℤ → ℤ → ℕ → List HandEntry → Option ℕ
next_index_of played dragged next_index [] = none
next_index_of played dragged next_index (entry ∷ entries) =
    let rest =
      next_index_of played dragged
        (if entry.is_virtual || contains played entry.source_index
          then next_index
          else next_index + 1)
        entries in
    if not entry.is_virtual && entry.source_index == dragged then some next_index else rest

unfoldable pub hand_index_after_submitted_drafts :
    List HandEntry → String → List (List HandEntry) → Option ℕ
hand_index_after_submitted_drafts raw_hand_entries hand_key drafted =
    elim (find? (λ entry. entry.key == hand_key) raw_hand_entries) [
      | none ↦ none
      | some dragged ↦
          if dragged.is_virtual || contains (played_source_indices drafted) dragged.source_index
          then none
          else next_index_of (played_source_indices drafted) dragged.source_index 0 raw_hand_entries
    ]
