-- ===== src/Table.antt =====
-- The table compositions with the drafts staged on them, in
-- frontend/src/components/game/game-board-view-state.ts: the cards after a draft, the validation of
-- the drafts, the play that is sent to the server, and the views of the table.
pub mod Grouping
pub mod Replaced
pub mod After
pub mod Play
pub mod Validation
pub mod Views
use compositions.Prelude.{
  ℕ, ◌+◌, String, Bool, true, not, ◌&&◌, Option, none, some, List, [], ◌∷◌, ◌++◌, map, reverse, leb,
  ◌==◌, ◌!=◌, if◌then◌else◌, get_or, is_some, filter, any, all, get_elem?, set, take, drop,
  contains, length, is_empty, nat_eq, string_eq,
}
use compositions.Prelude.Int.{negsuc}
use compositions.Prelude.Maps.{lookup, insert, of_entries}
use compositions.Prelude.Text.{show}
use compositions.Snapshots.{Card, Composition, Addition, Reclaim, TablePlay}
use compositions.Points.{is_valid_draft_composition, replace_from}
use compositions.Hand.{HandEntry, ◌+++◌, hand_entry_order, entry_by_key, map_hand_keys_to_entries}
use compositions.Drafts.{DraftComposition, DraftedComposition, index_of, prune_draft_compositions}
use compositions.Reclaims.{PlannedReclaim, TablePlan, plan_table_joker_reclaims}

abbrev pub card_of : HandEntry → Card
card_of entry = entry.card

abbrev pub Groups : Type 0
Groups = List (ℕ × List HandEntry)

-- The loop that fills `Map<number, HandEntry[]>`: an entry joins the group of its index.
unfoldable pub group_from : (HandEntry → ℕ) → Groups → List HandEntry → Groups
group_from index groups [] = groups
group_from index groups (entry ∷ entries) =
    group_from index
      (insert (index entry) (get_or [] (lookup (index entry) groups) ++ entry ∷ []) groups) entries

-- `draft.cardInsertIndices?.[entry.key] ?? defaultInsertIndex`
abbrev pub insert_index_of : Option (List (String × ℕ)) → ℕ → HandEntry → ℕ
insert_index_of indices default entry = get_or default (index_of indices entry.key)

-- Cards at the front of a composition are put there one by one, each before the last.
unfoldable pub in_group_order : ℕ → List HandEntry → List HandEntry
in_group_order insert_index entries = if insert_index == 0 then reverse entries else entries

-- `sort(([left], [right]) => right - left)`, by insertion.
unfoldable pub insert_descending : ℕ × List HandEntry → Groups → Groups
insert_descending g [] = g ∷ []
insert_descending g (h ∷ groups) =
    if leb h.0 g.0 then g ∷ h ∷ groups else h ∷ insert_descending g groups

unfoldable pub sort_descending : Groups → Groups
sort_descending [] = []
sort_descending (g ∷ groups) = insert_descending g (sort_descending groups)

-- `cards.splice(index, 0, ...added)`: an index past the end is the end.
abbrev pub splice_in : ℕ → List Card → List Card → List Card
splice_in index added cards = take index cards ++ (added ++ drop index cards)

unfoldable pub splice_groups : Groups → List Card → List Card
splice_groups [] cards = cards
splice_groups ((insert_index, entries) ∷ groups) cards =
    splice_groups groups
      (splice_in insert_index (map card_of (in_group_order insert_index entries)) cards)

abbrev pub replacements : List PlannedReclaim → List (ℕ × Card)
replacements = map (λ r. (r.joker_index, r.replacement_entry.card))

abbrev pub without_reclaimed : List String → List HandEntry → List HandEntry
without_reclaimed reclaimed_entry_keys =
    filter (λ entry. not (contains reclaimed_entry_keys entry.key))

-- `draft.entries.filter((entry) => entry.key !== excludedEntryKey)`
unfoldable pub without_excluded : Option String → List HandEntry → List HandEntry
without_excluded none entries = entries
without_excluded (some key) entries = filter (λ entry. entry.key != key) entries

unfoldable pub cards_after_table_draft :
    Composition → DraftedComposition → Option String → List Card
cards_after_table_draft composition drafted excluded_entry_key =
    let entries = without_excluded excluded_entry_key drafted.entries in
    let default = get_or (length composition.cards) drafted.draft.insert_index in
    let plan =
      plan_table_joker_reclaims composition entries default drafted.draft.reclaim_targets in
    splice_groups
      (sort_descending (
        group_from (insert_index_of drafted.draft.card_insert_indices default) []
          (without_reclaimed plan.reclaimed_entry_keys entries)))
      (replace_from 0 (of_entries (replacements plan.reclaims)) composition.cards)

pub record DraftValidation : Type 0 where
  pub invalid_composition_ids : List String
  pub invalid_entry_keys : List String

-- The entries to mark on a table draft that is not valid: those without any of which alone it would
-- be, or all of them.
unfoldable pub entries_to_mark : Composition → DraftedComposition → List HandEntry
entries_to_mark composition drafted =
    let responsible =
      filter
        (λ entry.
          is_valid_draft_composition (cards_after_table_draft composition drafted (some entry.key))
            (some composition.type))
        drafted.entries in
    if is_empty responsible then drafted.entries else responsible

-- What one draft adds to the invalid ids and to the invalid keys.
unfoldable pub validate_draft : List Composition → DraftedComposition → DraftValidation
validate_draft active drafted = elim drafted.draft.table_index [
  | none ↦
      if is_valid_draft_composition (map card_of drafted.entries) none
      then record { invalid_composition_ids = []; invalid_entry_keys = [] }
      else record { invalid_composition_ids = drafted.draft.id ∷ []; invalid_entry_keys = [] }
  | some table_index ↦ elim (get_elem? active table_index) [
    | none ↦ record {
      invalid_composition_ids = [];
      invalid_entry_keys = hand_entry_order drafted.entries;
    }
    | some composition ↦
        if is_valid_draft_composition (cards_after_table_draft composition drafted none)
          (some composition.type)
        then record { invalid_composition_ids = []; invalid_entry_keys = [] }
        else record {
          invalid_composition_ids = [];
          invalid_entry_keys = hand_entry_order (entries_to_mark composition drafted);
        }
  ]
]

unfoldable pub validate_drafted_compositions :
    List Composition → List DraftedComposition → DraftValidation
validate_drafted_compositions active [] = record {
  invalid_composition_ids = [];
  invalid_entry_keys = [];
}
validate_drafted_compositions active (drafted ∷ drafts) =
    let here = validate_draft active drafted in
    let rest = validate_drafted_compositions active drafts in
    record {
      invalid_composition_ids = here.invalid_composition_ids ++ rest.invalid_composition_ids;
      invalid_entry_keys = here.invalid_entry_keys ++ rest.invalid_entry_keys;
    }

-- The entries of the groups, one group after the other.
unfoldable pub ordered_groups : Groups → List HandEntry
ordered_groups [] = []
ordered_groups ((insert_index, entries) ∷ groups) =
    in_group_order insert_index entries ++ ordered_groups groups

unfoldable pub order_addition_entries :
    List HandEntry → ℕ → Option (List (String × ℕ)) → List HandEntry
order_addition_entries staged_entries default indices =
    ordered_groups (group_from (insert_index_of indices default) [] staged_entries)

-- The additions that the groups of a draft make.
unfoldable pub additions_of : ℕ → Groups → List Addition
additions_of table_index [] = []
additions_of table_index ((insert_index, entries) ∷ groups) =
    let ordered = in_group_order insert_index entries in
    let rest = additions_of table_index groups in
    if is_empty ordered
    then rest
    else record {
      composition_index = table_index;
      insert_index = insert_index;
      cards = map card_of ordered;
    }
      ∷ rest

unfoldable pub reclaims_of : ℕ → List PlannedReclaim → List Reclaim
reclaims_of table_index = map (λ r. record {
  composition_index = table_index;
  joker_index = r.joker_index;
  replacement_card = r.replacement_entry.card;
})

unfoldable pub plan_of : Option Composition → DraftedComposition → TablePlan
plan_of none drafted = record { reclaims = []; reclaimed_entry_keys = [] }
plan_of (some composition) drafted =
    plan_table_joker_reclaims composition drafted.entries
      (get_or (length composition.cards) drafted.draft.insert_index) drafted.draft.reclaim_targets

abbrev pub cards_length : Option Composition → ℕ
cards_length none = 0
cards_length (some composition) = length composition.cards

-- What one draft adds to the play.
unfoldable pub play_of : List Composition → DraftedComposition → TablePlay
play_of active drafted = elim drafted.draft.table_index [
  | none ↦ record { compositions = map card_of drafted.entries ∷ []; additions = []; reclaims = [] }
  | some table_index ↦
      let composition = get_elem? active table_index in
      let default = get_or (cards_length composition) drafted.draft.insert_index in
      let plan = plan_of composition drafted in
      record {
        compositions = [];
        additions = additions_of table_index (
            group_from (insert_index_of drafted.draft.card_insert_indices default) []
              (without_reclaimed plan.reclaimed_entry_keys drafted.entries));
        reclaims = reclaims_of table_index plan.reclaims;
      }
]

unfoldable pub build_table_play_request : List Composition → List DraftedComposition → TablePlay
build_table_play_request active [] = record { compositions = []; additions = []; reclaims = [] }
build_table_play_request active (drafted ∷ drafts) =
    let here = play_of active drafted in
    let rest = build_table_play_request active drafts in
    record {
      compositions = here.compositions ++ rest.compositions;
      additions = here.additions ++ rest.additions;
      reclaims = here.reclaims ++ rest.reclaims;
    }

-- The answer: the play can be submitted, or its own composition is missing.
pub data OpeningValidation : Type 0 where
  can_submit missing_own_composition : OpeningValidation

abbrev pub is_own_composition : DraftedComposition → Bool
is_own_composition drafted =
    not (is_some drafted.draft.table_index)
    && not (is_empty drafted.entries)
    && all (λ entry. not entry.is_virtual) drafted.entries

unfoldable pub validate_opening_table_play : Bool → List DraftedComposition → OpeningValidation
validate_opening_table_play player_has_opened drafts =
    if player_has_opened
    then can_submit
    else if any is_own_composition drafts
    then can_submit
    else missing_own_composition

pub record TableView : Type 0 where
  pub table_index : ℕ
  pub key : String
  pub snapshot : Composition
  pub staged_entries : List HandEntry
  pub reclaims : List PlannedReclaim
  pub insert_index : ℕ
  pub card_insert_indices : Option (List (String × ℕ))

unfoldable pub empty_views_from : ℕ → List Composition → List TableView
empty_views_from i [] = []
empty_views_from i (composition ∷ compositions) =
    record {
      table_index = i;
      key = "table-" +++ show i;
      snapshot = composition;
      staged_entries = [];
      reclaims = [];
      insert_index = length composition.cards;
      card_insert_indices = none;
    }
    ∷ empty_views_from (i + 1) compositions

-- The view of a table composition once a draft is staged on it.
unfoldable pub staged_view : TableView → DraftComposition → List (String × HandEntry) → TableView
staged_view existing draft by_key =
    let staged = map_hand_keys_to_entries draft.hand_keys by_key in
    let insert_index = get_or (length existing.snapshot.cards) draft.insert_index in
    let plan =
      plan_table_joker_reclaims existing.snapshot staged insert_index draft.reclaim_targets in
    record existing {
      staged_entries =
          order_addition_entries (without_reclaimed plan.reclaimed_entry_keys staged) insert_index
            draft.card_insert_indices
          ++ map (λ r. r.replacement_entry) plan.reclaims;
      reclaims = plan.reclaims;
      insert_index = insert_index;
      card_insert_indices = draft.card_insert_indices;
    }

-- The loop over the drafts.
unfoldable pub stage_drafts :
    List TableView → List DraftComposition → List (String × HandEntry) → List TableView
stage_drafts views [] by_key = views
stage_drafts views (draft ∷ drafts) by_key =
    stage_drafts
      (elim draft.table_index [
        | none ↦ views
        | some table_index ↦ elim (get_elem? views table_index) [
          | none ↦ views
          | some existing ↦ set views table_index (staged_view existing draft by_key)
        ]
      ])
      drafts by_key

unfoldable pub build_table_composition_views :
    List Composition → List DraftComposition → List (String × HandEntry) → List TableView
build_table_composition_views active drafts by_key =
    stage_drafts (empty_views_from 0 active) drafts by_key

pub record VirtualJoker : Type 0 where
  pub key : String
  pub joker_index : ℕ
  pub entry : HandEntry

abbrev pub virtual_key : ℕ → ℕ → String
virtual_key table_index joker_index =
    "reclaimed-joker-" +++ show table_index +++ "-" +++ show joker_index

unfoldable pub virtual_joker : ℕ → PlannedReclaim → VirtualJoker
virtual_joker table_index reclaim = record {
  key = virtual_key table_index reclaim.joker_index;
  joker_index = reclaim.joker_index;
  entry = record {
    key = virtual_key table_index reclaim.joker_index;
    card = record { rank = none; suit = none; is_joker = true };
    source_index = negsuc 0;
    is_virtual = true;
  };
}

unfoldable pub build_virtual_reclaimed_jokers : List TableView → List VirtualJoker
build_virtual_reclaimed_jokers [] = []
build_virtual_reclaimed_jokers (view ∷ views) =
    map (virtual_joker view.table_index) view.reclaims ++ build_virtual_reclaimed_jokers views

pub record ResolvedDrafts : Type 0 where
  pub table_compositions : List TableView
  pub virtual_reclaimed_jokers : List VirtualJoker
  pub draft_compositions : List DraftComposition
  pub all_hand_entries : List HandEntry
  pub all_entry_by_key : List (String × HandEntry)

unfoldable pub resolve_draft_views :
    List Composition → List DraftComposition → List HandEntry → ResolvedDrafts
resolve_draft_views active scoped hand_entries =
    let from_hand = prune_draft_compositions scoped (hand_entry_order hand_entries) in
    let virtual =
      build_virtual_reclaimed_jokers
        (build_table_composition_views active from_hand (entry_by_key hand_entries)) in
    let all_hand_entries = hand_entries ++ map (λ joker. joker.entry) virtual in
    let drafts = prune_draft_compositions scoped (hand_entry_order all_hand_entries) in
    record {
      table_compositions =
          build_table_composition_views active drafts (entry_by_key all_hand_entries);
      virtual_reclaimed_jokers = virtual;
      draft_compositions = drafts;
      all_hand_entries = all_hand_entries;
      all_entry_by_key = entry_by_key all_hand_entries;
    }
