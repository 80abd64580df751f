-- ===== src/Points.antt =====
-- frontend/src/components/game/game-card-utils.ts: the point values of cards, and which lists of
-- cards are sets and runs. A rank or suit is a natural number or absent, so `Number.isInteger` is
-- presence.
pub mod Sets
pub mod Placement
pub mod Runs
pub mod Totals
pub mod Complete
use compositions.Prelude.{
  ℕ, zero, suc, ◌+◌, ◌-◌, ◌*◌, max, String, Bool, true, false, not, ◌&&◌, ◌||◌, Option, none, some,
  List, [], ◌∷◌, ◌++◌, ltb, leb, ◌==◌, ◌!=◌, if◌then◌else◌, get_or, first_some, is_some, length,
  head?, filter, any, all, find?, contains, is_empty, get_elem?, nat_eq, string_eq, option_eq,
}
use compositions.Prelude.Maps.{lookup, of_entries}
use compositions.Snapshots.{Card, Composition}

unfoldable pub rank_point_value : ℕ → Bool → ℕ
rank_point_value rank ace_low =
    if rank == 1
    then if ace_low then 1 else 10
    else if leb 11 rank && leb rank 13
    then 10
    else if leb 2 rank && leb rank 10
    then rank
    else 0

-- `cards[index]?.rank`
abbrev pub rank_at : List Card → ℕ → Option ℕ
rank_at cards i = elim (get_elem? cards i) [ none ↦ none | some card ↦ card.rank ]

-- `composition.jokerRepresentations?.[index]?.[0]?.rank`
abbrev pub represented_rank : Composition → ℕ → Option ℕ
represented_rank composition i = elim (lookup i composition.joker_representations) [
  | none ↦ none
  | some cards ↦ rank_at cards 0
]

abbrev pub is_joker_at : List Card → ℕ → Bool
is_joker_at cards i = elim (get_elem? cards i) [ none ↦ false | some card ↦ card.is_joker ]

abbrev pub next_rank : Composition → ℕ → Option ℕ
next_rank composition i =
    if is_joker_at composition.cards i
    then represented_rank composition i
    else rank_at composition.cards i

unfoldable pub joker_reclaim_point_value : Composition → ℕ → Card → Option ℕ
unfolding rank_point_value
joker_reclaim_point_value composition joker_index replacement =
    let ace_low =
      composition.type == "run"
      && joker_index == 0
      && replacement.rank == some 1
      && next_rank composition (joker_index + 1) == some 2 in
    elim replacement.rank [
      | none ↦ none
      | some rank ↦
          if is_joker_at composition.cards joker_index
          then some (rank_point_value rank ace_low)
          else none
    ]

abbrev pub has_rank : Card → Bool
has_rank card = elim card.rank [ none ↦ false | some rank ↦ leb 1 rank && leb rank 13 ]

abbrev pub has_suit : Card → Bool
has_suit card = elim card.suit [ none ↦ false | some suit ↦ leb suit 3 ]

abbrev pub has_valid_natural_identity : Card → Bool
has_valid_natural_identity card = card.is_joker || has_rank card && has_suit card

-- `cards.filter((card) => !card.isJoker)`
abbrev pub naturals : List Card → List Card
naturals = filter (λ card. not card.is_joker)

abbrev pub first_rank : List Card → Option ℕ
first_rank [] = none
first_rank (card ∷ cards) = card.rank

abbrev pub first_suit : List Card → Option ℕ
first_suit [] = none
first_suit (card ∷ cards) = card.suit

-- The loop of `draftSetPointTotal`; false stands for `return null`.
unfoldable pub suits_fit : Option ℕ → List ℕ → List Card → Bool
suits_fit rank seen [] = true
suits_fit rank seen (card ∷ cards) = elim card.suit [
  | none ↦ false
  | some suit ↦ card.rank == rank && not (contains seen suit) && suits_fit rank (suit ∷ seen) cards
]

unfoldable pub draft_set_point_total : List Card → Option ℕ
unfolding suits_fit rank_point_value
draft_set_point_total cards =
    let rank = get_or 1 (first_rank (naturals cards)) in
    if ltb (length cards) 3 || ltb 4 (length cards) || not (all has_valid_natural_identity cards)
    then none
    else if suits_fit (some rank) [] (naturals cards)
    then some (length cards * rank_point_value rank false)
    else none

-- A position from `start` to `end` that no card holds yet.
unfoldable pub is_free : ℕ → ℕ → List ℕ → ℕ → Bool
is_free start end used candidate =
    leb start candidate && leb candidate end && not (contains used candidate)

abbrev pub possible_positions : ℕ → List ℕ
possible_positions rank = if rank == 1 then 1 ∷ 14 ∷ [] else rank ∷ []

abbrev pub rank_or_zero : Card → ℕ
rank_or_zero card = get_or 0 card.rank

-- The loop over the natural cards of one window: each card takes the first free position of its.
unfoldable pub run_fits : ℕ → ℕ → List ℕ → List Card → Bool
unfolding is_free
run_fits start end used [] = true
run_fits start end used (card ∷ cards) =
    elim (find? (is_free start end used) (possible_positions (rank_or_zero card))) [
      | none ↦ false
      | some position ↦ run_fits start end (position ∷ used) cards
    ]

-- The fourteen positions of a run: the ace stands at both ends.
abbrev pub rank_of_position : ℕ → ℕ
rank_of_position position = if position == 14 then 1 else position

unfoldable pub position_value : ℕ → ℕ
position_value position = rank_point_value (rank_of_position position) (position == 1)

-- The loop that adds up a window: `left` more ranks from `rank` on.
unfoldable pub window_total : ℕ → ℕ → ℕ
unfolding position_value rank_point_value
window_total zero rank = 0
window_total (suc left) rank = position_value rank + window_total left (rank + 1)

-- One round of the loop over the windows.
unfoldable pub better : ℕ → List Card → ℕ → Option ℕ → Option ℕ
better run_length cards start best =
    if run_fits start (start + run_length - 1) [] cards
    then some (max (get_or 0 best) (window_total run_length start))
    else best

-- The loop over the windows: `left` more of them, from `start` on.
unfoldable pub best_run : ℕ → List Card → ℕ → ℕ → Option ℕ → Option ℕ
best_run run_length cards zero start best = best
best_run run_length cards (suc left) start best =
    best_run run_length cards left (start + 1) (better run_length cards start best)

unfoldable pub draft_run_point_total : List Card → Option ℕ
draft_run_point_total cards =
    let suit = first_suit (naturals cards) in
    if ltb (length cards) 3 || ltb 14 (length cards) || not (all has_valid_natural_identity cards)
    then none
    else if any (λ card. card.suit != suit || not (is_some card.rank)) (naturals cards)
    then none
    else best_run (length cards) (naturals cards) (15 - length cards) 1 none

unfoldable pub sum_of_points : List Card → ℕ
unfolding rank_point_value
sum_of_points [] = 0
sum_of_points (card ∷ cards) = rank_point_value (rank_or_zero card) false + sum_of_points cards

unfoldable pub resolved_points : List Card → Option String → Option ℕ
resolved_points cards type =
    if type == some "set"
    then draft_set_point_total cards
    else if type == some "run"
    then draft_run_point_total cards
    else first_some (draft_set_point_total cards) (draft_run_point_total cards)

unfoldable pub draft_composition_point_total : List Card → Option String → Option ℕ
draft_composition_point_total cards type =
    if all (λ card. card.is_joker) cards then none else elim (resolved_points cards type) [
      | some points ↦ some points
      | none ↦
          if any (λ card. card.is_joker) cards || not (all has_valid_natural_identity cards)
          then none
          else some (sum_of_points cards)
    ]

unfoldable pub is_valid_draft_composition : List Card → Option String → Bool
is_valid_draft_composition cards type =
    if type == some "set"
    then is_some (draft_set_point_total cards)
    else if type == some "run"
    then is_some (draft_run_point_total cards)
    else is_some (draft_set_point_total cards) || is_some (draft_run_point_total cards)

unfoldable pub is_complete_draft_composition : List Card → Option String → Bool
is_complete_draft_composition cards type =
    if any (λ card. card.is_joker) cards
    then false
    else if type == some "set" || type == none && is_some (draft_set_point_total cards)
    then length cards == 4 && is_some (draft_set_point_total cards)
    else length cards == 14 && is_some (draft_run_point_total cards)

-- `cards.map((card, index) => replacements.get(index) ?? card)`, from an index on.
unfoldable pub replace_from : ℕ → List (ℕ × Card) → List Card → List Card
replace_from i replacements [] = []
replace_from i replacements (card ∷ cards) =
    get_or card (lookup i replacements) ∷ replace_from (i + 1) replacements cards

unfoldable pub is_complete_composition_preview : Composition → List Card → List (ℕ × Card) → Bool
is_complete_composition_preview composition additions replacements =
    if composition.complete && is_empty additions && is_empty replacements
    then true
    else is_complete_draft_composition
        (replace_from 0 (of_entries replacements) composition.cards ++ additions)
        (some composition.type)

unfoldable pub draft_composition_preview_point_total :
    Composition → List Card → List (ℕ × Card) → Option ℕ
draft_composition_preview_point_total composition additions replacements =
    draft_composition_point_total
      (replace_from 0 (of_entries replacements) composition.cards ++ additions)
      (some composition.type)
