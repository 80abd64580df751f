-- ===== src/DropIds.antt =====
-- The ids of the drop zones in frontend/src/components/game/game-board-view-state.ts, and their
-- parsing.
pub mod RoundTrip
use compositions.Prelude.{
  ℕ, Bool, true, false, Option, none, some, ◌>>=◌, ◌==◌, if◌then◌else◌, nat_eq, string_eq, String,
}
use Prim.Native.Char.{code}
use Prim.Native.String.{[], ◌∷◌}
use compositions.Prelude.Int.{ℤ, pos, negsuc}
use compositions.Prelude.Text.{show}
use compositions.Hand.{◌+++◌}
use compositions.Reclaims.{Edge, start, end}

-- `text.startsWith(prefix)`, and then `text.slice(prefix.length)`.
unfoldable pub strip_prefix : String → String → Option String
strip_prefix [] text = some text
strip_prefix (c ∷ prefix) [] = none
strip_prefix (c ∷ prefix) (d ∷ text) =
    let rest = strip_prefix prefix text in if code c == code d then rest else none

-- What stands before the first dash, and what stands after it.
unfoldable pub split_dash : String → Option (String × String)
split_dash [] = none
split_dash (c ∷ text) =
    let rest = split_dash text in
    if code c == b'-'
    then some ("", text)
    else elim rest [ none ↦ none | some (before, after) ↦ some (c ∷ before, after) ]

abbrev pub draft_composition_prefix : String
draft_composition_prefix = "draft-composition-"

abbrev pub table_composition_edge_prefix : String
table_composition_edge_prefix = "table-composition-edge-"

abbrev pub table_composition_joker_prefix : String
table_composition_joker_prefix = "table-composition-joker-"

unfoldable pub draft_composition_drop_id : String → String
draft_composition_drop_id composition_id = draft_composition_prefix +++ composition_id

unfoldable pub composition_id_from_drop_id : String → Option String
composition_id_from_drop_id drop_id = strip_prefix draft_composition_prefix drop_id

unfoldable pub table_composition_drop_id : ℕ → String
table_composition_drop_id composition_index = "table-composition-" +++ show composition_index

abbrev pub edge_text : Edge → String
edge_text start = "start"
edge_text end = "end"

abbrev pub edge_of : String → Option Edge
edge_of text = if text == "start" then some start else if text == "end" then some end else none

unfoldable pub table_composition_edge_drop_id : ℕ → Edge → String
table_composition_edge_drop_id composition_index edge =
    table_composition_edge_prefix +++ (show composition_index +++ ("-" +++ edge_text edge))

unfoldable pub table_composition_joker_drop_id : ℕ → ℕ → String
table_composition_joker_drop_id composition_index joker_index =
    table_composition_joker_prefix +++ (show composition_index +++ ("-" +++ show joker_index))

pub record EdgeTarget : Type 0 where
  pub composition_index : ℕ
  pub edge : Edge

pub record JokerTarget : Type 0 where
  pub composition_index : ℕ
  pub joker_index : ℕ

-- `number` gives the integer that `Number(text)` is, if it is one.
module _ (number : String → Option ℤ) where
  -- An integer that is not negative.
  abbrev pub index_from : String → Option ℕ
  index_from text = elim (number text) [
    | none ↦ none
    | some (pos n) ↦ some n
    | some (negsuc n) ↦ none
  ]

  unfoldable pub table_composition_edge_target_from_drop_id : String → Option EdgeTarget
  table_composition_edge_target_from_drop_id drop_id = do
    target ← strip_prefix table_composition_edge_prefix drop_id
    parts ← split_dash target
    composition_index ← index_from parts.0
    edge ← edge_of parts.1
    some (record { composition_index = composition_index; edge = edge })

  unfoldable pub table_composition_joker_target_from_drop_id : String → Option JokerTarget
  table_composition_joker_target_from_drop_id drop_id = do
    target ← strip_prefix table_composition_joker_prefix drop_id
    parts ← split_dash target
    composition_index ← index_from parts.0
    joker_index ← index_from parts.1
    some (record { composition_index = composition_index; joker_index = joker_index })
