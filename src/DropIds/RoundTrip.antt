-- ===== src/DropIds/RoundTrip.antt =====
-- The ids of drop zones are read back.
use compositions.Prelude.{
  ℕ, ◌≡◌, refl, false, Option, some, ◌>>=◌, ◌==◌, nat_eq, string_eq, String, arith, ap, ◌∙◌,
}
use Prim.Native.Char.{code}
use Prim.Native.String.{[], ◌∷◌, ◌++◌}
use text.Mathlib.TextLemmas.{nil-append, cons-append}
use compositions.Prelude.Int.{ℤ, pos}
use compositions.Prelude.Text.{show, IsDashFree, show-IsDashFree}
use compositions.Reclaims.{Edge, start, end}
use compositions.DropIds.{
  strip_prefix, split_dash, draft_composition_prefix, table_composition_edge_prefix,
  table_composition_joker_prefix, draft_composition_drop_id, composition_id_from_drop_id,
  table_composition_edge_drop_id, table_composition_joker_drop_id, index_from,
  table_composition_edge_target_from_drop_id, table_composition_joker_target_from_drop_id,
}

pub strip_prefix-append : (prefix text : String) → strip_prefix prefix (prefix ++ text) ≡ some text
unfolding strip_prefix
strip_prefix-append [] text = rw (nil-append text) refl
strip_prefix-append (c ∷ prefix) text =
    rw (cons-append c prefix text)
      (rw ((nat_eq.equal_iff (code c) (code c)).1 refl) (strip_prefix-append prefix text))

dash_before : (text : String) → "-" ++ text ≡ "-" ∷ text
dash_before text = cons-append "-" [] text ∙ ap (λ s. "-" ∷ s) (nil-append text)

split_dash-append :
    (before after : String)
    → IsDashFree before
    → split_dash (before ++ ("-" ++ after)) ≡ some (before, after)
unfolding split_dash
split_dash-append [] after h = rw (nil-append ("-" ++ after), dash_before after) refl
split_dash-append (c ∷ before) after (other, h) =
    let rest = split_dash-append before after h in
    let plain : (code c == b'-') ≡ false = ground (arith, other, nat_eq.equal_iff (code c) b'-') in
    rw (cons-append c before ("-" ++ after)) (rw plain (rw rest refl))

module _ (number : String → Option ℤ) (number-show : (n : ℕ) → number (show n) ≡ some (pos n)) where
  index_from-show : (n : ℕ) → index_from number (show n) ≡ some n
  index_from-show n = rw (number-show n, index_from) refl

  -- The id of an edge's drop zone is read back as that edge of that composition, if `Number` reads
  -- back the text of every natural number.
  pub table_composition_edge_drop_id-round_trip :
      (composition_index : ℕ) (edge : Edge)
      → table_composition_edge_target_from_drop_id number
          (table_composition_edge_drop_id composition_index edge)
        ≡ some (record { composition_index = composition_index; edge = edge })
  unfolding table_composition_edge_target_from_drop_id table_composition_edge_drop_id
  table_composition_edge_drop_id-round_trip i start =
      rw (strip_prefix-append table_composition_edge_prefix (show i ++ ("-" ++ "start"))) (
        rw (split_dash-append (show i) "start" (show-IsDashFree i)) (
          ap
            (λ found.
              found >>= (λ index. some (record { composition_index = index; edge = start })))
            (index_from-show i)))
  table_composition_edge_drop_id-round_trip i end =
      rw (strip_prefix-append table_composition_edge_prefix (show i ++ ("-" ++ "end"))) (
        rw (split_dash-append (show i) "end" (show-IsDashFree i)) (
          ap (λ found. found >>= (λ index. some (record { composition_index = index; edge = end })))
            (index_from-show i)))

  -- The id of a joker's drop zone is read back as that joker of that composition, if `Number` reads
  -- back the text of every natural number.
  pub table_composition_joker_drop_id-round_trip :
      (composition_index joker_index : ℕ)
      → table_composition_joker_target_from_drop_id number
          (table_composition_joker_drop_id composition_index joker_index)
        ≡ some (record { composition_index = composition_index; joker_index = joker_index })
  unfolding table_composition_joker_target_from_drop_id table_composition_joker_drop_id
  table_composition_joker_drop_id-round_trip i j =
      rw (strip_prefix-append table_composition_joker_prefix (show i ++ ("-" ++ show j))) (
        rw (split_dash-append (show i) (show j) (show-IsDashFree i)) (
          ap
            (λ found. found >>= (λ index. index_from number (show j) >>= (λ joker_index.
              some (record { composition_index = index; joker_index = joker_index }))))
            (index_from-show i)
          ∙ ap
              (λ found. found >>= (λ joker_index.
                some (record { composition_index = i; joker_index = joker_index })))
              (index_from-show j)))

-- The id of a draft's drop zone is read back as the draft's id.
draft_composition_drop_id-round_trip :
    (composition_id : String)
    → composition_id_from_drop_id (draft_composition_drop_id composition_id) ≡ some composition_id
unfolding composition_id_from_drop_id draft_composition_drop_id
draft_composition_drop_id-round_trip id = strip_prefix-append draft_composition_prefix id
