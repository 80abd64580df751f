-- ===== src/Tests/Zones.antt =====
-- The theorems on drop ids and on previews, at concrete ones.
use compositions.Prelude.{
  ℕ, ◌≡◌, refl, String, Option, none, some, List, [], ◌∷◌, ◌++◌, map, ap, Perm,
}
use compositions.Prelude.Int.{ℤ, pos}
use compositions.Prelude.Text.{show, value, value-show}
use compositions.Snapshots.{Card, DraftSnapshot}
use compositions.Reclaims.{end}
use compositions.Reclaims.Inferred.{replacing}
use compositions.Table.{card_of}
use compositions.DropIds.{
  strip_prefix, split_dash, draft_composition_drop_id, composition_id_from_drop_id,
  table_composition_drop_id, table_composition_edge_drop_id, table_composition_joker_drop_id,
  table_composition_edge_target_from_drop_id, table_composition_joker_target_from_drop_id,
}
use compositions.DropIds.RoundTrip.{
  table_composition_edge_drop_id-round_trip, table_composition_joker_drop_id-round_trip,
}
use compositions.Preview.{
  aligned_from, aligned_entry_index_map, behind_front, draft_preview_for_composition,
}
use compositions.Preview.Conservation.{draft_preview_for_composition-perm}
use compositions.Tests.{natural}
use compositions.Tests.Hands.{hand}
use compositions.Tests.Plays.{plays, run_view}

zones : Unit {0}
unfolding plays hand strip_prefix split_dash draft_composition_drop_id composition_id_from_drop_id
    table_composition_drop_id table_composition_edge_drop_id table_composition_joker_drop_id
    table_composition_edge_target_from_drop_id table_composition_joker_target_from_drop_id
    aligned_from aligned_entry_index_map behind_front draft_preview_for_composition
zones = tt

-- A reading of decimal texts.
abbrev number : String → Option ℤ
number text = some (pos (value text 0))

number-show : (n : ℕ) → number (show n) ≡ some (pos n)
number-show n = ap (λ m. some (pos m)) (value-show n)

drop_id_tests :
    (table_composition_edge_drop_id 12 end ≡ "table-composition-edge-12-end")
    × (table_composition_joker_drop_id 3 40 ≡ "table-composition-joker-3-40")
    × (table_composition_edge_target_from_drop_id number "table-composition-joker-3-40" ≡ none)
    × (table_composition_edge_target_from_drop_id number "table-composition-edge-3-middle" ≡ none)
    × (composition_id_from_drop_id "table-composition-3" ≡ none)
unfolding zones
drop_id_tests = (refl, refl, refl, refl, refl)

table_composition_edge_drop_id-round_trip_example :
    table_composition_edge_target_from_drop_id number (table_composition_edge_drop_id 12 end)
    ≡ some (record { composition_index = 12; edge = end })
table_composition_edge_drop_id-round_trip_example =
    table_composition_edge_drop_id-round_trip number number-show 12 end

table_composition_joker_drop_id-round_trip_example :
    table_composition_joker_target_from_drop_id number (table_composition_joker_drop_id 3 40)
    ≡ some (record { composition_index = 3; joker_index = 40 })
table_composition_joker_drop_id-round_trip_example =
    table_composition_joker_drop_id-round_trip number number-show 3 40

-- The five in the place of the run's joker, the three and the two at its front.
abbrev previewed : List Card
previewed = natural 5 0 ∷ natural 3 0 ∷ natural 2 0 ∷ []

abbrev preview_draft : DraftSnapshot
preview_draft = record {
  id = "b";
  table_index = some 1;
  insert_index = some 0;
  card_placements = some (
      record { insert_index = none; reclaim_joker_index = some 1 }
      ∷ record { insert_index = none; reclaim_joker_index = none }
      ∷ []);
  cards = previewed;
}

preview_test :
    map card_of
      (draft_preview_for_composition (some run_view) preview_draft previewed).staged_entries
    ≡ natural 2 0 ∷ natural 3 0 ∷ []
unfolding zones
preview_test = refl

draft_preview_for_composition-perm_example :
    Perm
      (map card_of (
        (draft_preview_for_composition (some run_view) preview_draft previewed).staged_entries
        ++ replacing
            (draft_preview_for_composition (some run_view) preview_draft previewed).reclaims))
      previewed
draft_preview_for_composition-perm_example =
    draft_preview_for_composition-perm (some run_view) preview_draft previewed
