-- ===== src/Reclaims.antt =====
-- The planning of joker reclaims in frontend/src/components/game/game-board-view-state.ts: which
-- staged cards take the place of a joker on the table, and which are added to the composition.
pub mod Explicit
pub mod Inferred
pub mod Rest
pub mod Options
pub mod Jokers
use compositions.Prelude.{
  ℕ, zero, suc, ◌+◌, ◌-◌, String, Bool, true, false, not, ◌&&◌, ◌||◌, Option, none, some, List, [],
  ◌∷◌, ◌++◌, map, ltb, ◌==◌, ◌!=◌, if◌then◌else◌, get_or, is_some, filter, find?, get_elem?, take,
  drop, contains, length, is_empty, nat_eq, string_eq, option_eq,
}
use compositions.Prelude.Maps.{lookup, insert, erase, of_entries, keys}
use compositions.Snapshots.{Card, Composition}
use compositions.Points.{naturals, first_rank}
use compositions.Hand.{HandEntry, label, ◌+++◌}
use compositions.Drafts.{index_of}

pub record PlannedReclaim : Type 0 where
  pub joker_index : ℕ
  pub replacement_entry : HandEntry

pub record ReclaimPlan : Type 0 where
  pub additions : List HandEntry
  pub reclaims : List PlannedReclaim

pub record ReclaimOption : Type 0 where
  pub joker_index : ℕ
  pub replacement_card : Card

pub record TablePlan : Type 0 where
  pub reclaims : List PlannedReclaim
  pub reclaimed_entry_keys : List String

unfoldable pub bool_beq : Bool → Bool → Bool
bool_beq true b = b
bool_beq false b = not b

unfoldable pub cards_equal : Card → Card → Bool
unfolding bool_beq
cards_equal a b = bool_beq a.is_joker b.is_joker && a.rank == b.rank && a.suit == b.suit

-- `cards[index]?.isJoker`
abbrev pub joker_at : List Card → ℕ → Bool
joker_at cards i = elim (get_elem? cards i) [ none ↦ false | some card ↦ card.is_joker ]

-- The loop over the entries of `jokerRepresentations`.
unfoldable pub options_from : Composition → List (ℕ × List Card) → List ReclaimOption
options_from composition [] = []
options_from composition ((joker_index, card ∷ []) ∷ representations) =
    let rest = options_from composition representations in
    if joker_at composition.cards joker_index
    then record { joker_index = joker_index; replacement_card = card } ∷ rest
    else rest
options_from composition ((joker_index, _) ∷ representations) =
    options_from composition representations

unfoldable pub joker_reclaim_options : Composition → List ReclaimOption
joker_reclaim_options composition = options_from composition composition.joker_representations

unfoldable pub can_reclaim_joker_with_card : Composition → ℕ → Card → Bool
can_reclaim_joker_with_card composition joker_index card =
    elim (find? (λ o. o.joker_index == joker_index) (joker_reclaim_options composition)) [
      | none ↦ false
      | some o ↦ cards_equal o.replacement_card card
    ]

unfoldable pub is_ambiguous_run_insertion : Composition → ℕ → Bool
is_ambiguous_run_insertion composition insert_index =
    composition.type == "run" && (ltb 0 insert_index && ltb insert_index (length composition.cards))

pub data Edge : Type 0 where
  start end : Edge

unfoldable pub table_composition_insert_index_for_edge : Composition → Edge → ℕ
table_composition_insert_index_for_edge composition start = 0
table_composition_insert_index_for_edge composition end = length composition.cards

unfoldable pub card_key : Card → String
card_key card =
    label card.rank
    +++ "-"
    +++ label card.suit
    +++ "-"
    +++ (if card.is_joker then "true" else "false")

-- The state of the first loop of `inferSetPlannedJokerReclaims` at its end.
pub record SetSplit : Type 0 where
  pub remaining_entries : List HandEntry
  pub additions : List HandEntry
  pub present_suits : List ℕ

-- The suit with which an entry can join the set, if it can.
unfoldable pub joining_suit : ℕ → List ℕ → Card → Option ℕ
joining_suit set_rank present_suits card = elim card.suit [
  | none ↦ none
  | some suit ↦
      if card.is_joker || card.rank != some set_rank || contains present_suits suit
      then none
      else some suit
]

unfoldable pub split_set_entries : ℕ → List ℕ → ℕ → List HandEntry → SetSplit
split_set_entries set_rank present_suits room [] = record {
  remaining_entries = [];
  additions = [];
  present_suits = present_suits;
}
split_set_entries set_rank present_suits zero (entry ∷ entries) =
    let rest = split_set_entries set_rank present_suits zero entries in
    record rest { remaining_entries = entry ∷ rest.remaining_entries }
split_set_entries set_rank present_suits (suc room) (entry ∷ entries) =
    elim (joining_suit set_rank present_suits entry.card) [
      | none ↦
          let rest = split_set_entries set_rank present_suits (suc room) entries in
          record rest { remaining_entries = entry ∷ rest.remaining_entries }
      | some suit ↦
          let rest = split_set_entries set_rank (suit ∷ present_suits) room entries in
          record rest { additions = entry ∷ rest.additions }
    ]

unfoldable pub suits_of : List Card → List ℕ
suits_of [] = []
suits_of (card ∷ cards) = elim card.suit [
  | none ↦ suits_of cards
  | some suit ↦ suit ∷ suits_of cards
]

unfoldable pub joker_indices_from : ℕ → List Card → List ℕ
joker_indices_from i [] = []
joker_indices_from i (card ∷ cards) =
    if card.is_joker then i ∷ joker_indices_from (i + 1) cards else joker_indices_from (i + 1) cards

-- The option for the only joker of a set that lacks one suit, which has no representation.
unfoldable pub missing_suit_option : ℕ → List ℕ → List ℕ → List ReclaimOption
missing_suit_option set_rank (joker_index ∷ []) present_suits =
    elim (filter (λ suit. not (contains present_suits suit)) (0 ∷ 1 ∷ 2 ∷ 3 ∷ [])) [
      | [] ↦ []
      | suit ∷ others ↦
          if is_empty others
          then record {
            joker_index = joker_index;
            replacement_card = record { rank = some set_rank; suit = some suit; is_joker = false };
          }
            ∷ []
          else []
    ]
missing_suit_option set_rank _ present_suits = []

abbrev pub by_card_key : List ReclaimOption → List (String × ReclaimOption)
by_card_key options = of_entries (map (λ o. (card_key o.replacement_card, o)) options)

-- The second loop: each remaining entry takes an option with its card, or is added.
unfoldable pub match_options : List (String × ReclaimOption) → List HandEntry → ReclaimPlan
match_options options [] = record { additions = []; reclaims = [] }
match_options options (entry ∷ entries) =
    let added =
      let rest = match_options options entries in
      record rest { additions = entry ∷ rest.additions } in
    elim (lookup (card_key entry.card) options) [
      | none ↦ added
      | some o ↦
          let matched =
            let rest = match_options (erase (card_key o.replacement_card) options) entries in
            record rest {
              reclaims =
                  record { joker_index = o.joker_index; replacement_entry = entry } ∷ rest.reclaims;
            } in
          if cards_equal o.replacement_card entry.card then matched else added
    ]

unfoldable pub infer_set_planned_joker_reclaims : Composition → List HandEntry → ReclaimPlan
infer_set_planned_joker_reclaims composition staged_entries =
    elim (first_rank (naturals composition.cards)) [
      | none ↦ record { additions = staged_entries; reclaims = [] }
      | some set_rank ↦
          let split =
            split_set_entries set_rank (suits_of (naturals composition.cards))
              (4 - length composition.cards) staged_entries in
          let represented = joker_reclaim_options composition in
          let available =
            if is_empty represented
            then missing_suit_option set_rank (joker_indices_from 0 composition.cards)
                split.present_suits
            else represented in
          let plan = match_options (by_card_key available) split.remaining_entries in
          record plan { additions = split.additions ++ plan.additions }
    ]

-- `new Map(options.map((option, index) => [key of the option's card, index]))`
unfoldable pub indexed_keys : ℕ → List ReclaimOption → List (String × ℕ)
indexed_keys i [] = []
indexed_keys i (o ∷ options) = (card_key o.replacement_card, i) ∷ indexed_keys (i + 1) options

-- `options.splice(index, 1)`: what is left.
abbrev pub remove_at {ℓ} : {A : Type ℓ} → ℕ → List A → List A
remove_at n xs = take n xs ++ drop (suc n) xs

-- The loop over the entries staged on a run: the options shrink, their indices by key stay.
unfoldable pub match_run_options :
    List ReclaimOption → List (String × ℕ) → List HandEntry → ReclaimPlan
match_run_options available index_by_key [] = record { additions = []; reclaims = [] }
match_run_options available index_by_key (entry ∷ entries) =
    elim (lookup (card_key entry.card) index_by_key) [
      | none ↦
          let rest = match_run_options available index_by_key entries in
          record rest { additions = entry ∷ rest.additions }
      | some index ↦ elim (get_elem? available index) [
        | none ↦
            let rest = match_run_options available index_by_key entries in
            record rest { additions = entry ∷ rest.additions }
        | some o ↦
            let rest =
              match_run_options (remove_at index available)
                (erase (card_key entry.card) index_by_key) entries in
            record rest {
              reclaims =
                  record { joker_index = o.joker_index; replacement_entry = entry } ∷ rest.reclaims;
            }
      ]
    ]

unfoldable pub infer_planned_joker_reclaims_for_insert_index :
    Composition → List HandEntry → ℕ → ReclaimPlan
infer_planned_joker_reclaims_for_insert_index composition staged_entries insert_index =
    let available = joker_reclaim_options composition in
    if composition.type == "set"
    then infer_set_planned_joker_reclaims composition staged_entries
    else if is_empty available || is_ambiguous_run_insertion composition insert_index
    then record { additions = staged_entries; reclaims = [] }
    else match_run_options available (of_entries (indexed_keys 0 available)) staged_entries

-- An absent index is the end of the composition.
unfoldable pub infer_planned_joker_reclaims : Composition → List HandEntry → Option ℕ → ReclaimPlan
infer_planned_joker_reclaims composition staged_entries insert_index =
    infer_planned_joker_reclaims_for_insert_index composition staged_entries
      (get_or (length composition.cards) insert_index)

-- The loop of `buildExplicitReclaims`, with the joker indices that are used.
unfoldable pub explicit_from :
    Composition → Option (List (String × ℕ)) → List ℕ → List HandEntry → List PlannedReclaim
explicit_from composition targets used [] = []
explicit_from composition targets used (entry ∷ entries) = elim (index_of targets entry.key) [
  | none ↦ explicit_from composition targets used entries
  | some joker_index ↦
      if contains used joker_index
        || not (can_reclaim_joker_with_card composition joker_index entry.card)
      then explicit_from composition targets used entries
      else record { joker_index = joker_index; replacement_entry = entry }
        ∷ explicit_from composition targets (joker_index ∷ used) entries
]

-- `reclaims.map((reclaim) => reclaim.replacementEntry.key)`
abbrev pub reclaimed_keys : List PlannedReclaim → List String
reclaimed_keys = map (λ r. r.replacement_entry.key)

unfoldable pub build_explicit_reclaims :
    Composition → List HandEntry → Option (List (String × ℕ)) → TablePlan
build_explicit_reclaims composition staged_entries targets =
    let reclaims = explicit_from composition targets [] staged_entries in
    record { reclaims = reclaims; reclaimed_entry_keys = reclaimed_keys reclaims }

abbrev pub is_targeted : Option (List (String × ℕ)) → HandEntry → Bool
is_targeted targets entry = contains (keys (get_or [] targets)) entry.key

unfoldable pub plan_table_joker_reclaims :
    Composition → List HandEntry → ℕ → Option (List (String × ℕ)) → TablePlan
plan_table_joker_reclaims composition staged_entries insert_index targets =
    let explicit = build_explicit_reclaims composition staged_entries targets in
    let in_play_order =
      filter (λ entry. not (is_targeted targets entry)) staged_entries
      ++ filter (is_targeted targets) staged_entries in
    let inferred =
      infer_planned_joker_reclaims_for_insert_index composition in_play_order insert_index in
    if not (is_empty explicit.reclaims) || composition.type != "set" then explicit else record {
      reclaims = inferred.reclaims;
      reclaimed_entry_keys = reclaimed_keys inferred.reclaims;
    }
