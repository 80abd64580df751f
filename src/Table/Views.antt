-- ===== src/Table/Views.antt =====
-- The views of the table's compositions, `buildTableCompositionViews`.
use compositions.Prelude.{
  ℕ, zero, suc, ◌+◌, ◌≡◌, refl, String, some, List, [], ◌∷◌, map, length, get_or, get_elem?, set,
  IsDistinct, string_eq, Option-cases, inl, inr, Perm, ap, sym, ◌∙◌,
}
use mathlib.Core.List.Perm
use mathlib.Core.List.{perm_append_comm}
use compositions.Snapshots.{Composition}
use compositions.Hand.{HandEntry, hand_entry_order, map_hand_keys_to_entries}
use compositions.Hand.Keys.{range_from}
use compositions.Drafts.{DraftComposition}
use compositions.Reclaims.{plan_table_joker_reclaims}
use compositions.Reclaims.Inferred.{replacing}
use compositions.Reclaims.Rest.{left_of, plan_table_joker_reclaims-perm}
use compositions.Table.{
  TableView, empty_views_from, staged_view, stage_drafts, build_table_composition_views,
  order_addition_entries, group_from, insert_index_of,
}
use compositions.Table.Grouping.{group_from-perm, ordered_groups-perm}

-- A view staged with a draft shows every entry of the draft once, as an addition or in the place of a
-- joker, where the entries have different keys.
pub staged_view-perm :
    (view : TableView) (draft : DraftComposition) (by_key : List (String × HandEntry))
    → IsDistinct (hand_entry_order (map_hand_keys_to_entries draft.hand_keys by_key))
    → Perm
        (staged_view view draft by_key).staged_entries
        (map_hand_keys_to_entries draft.hand_keys by_key)
unfolding staged_view order_addition_entries
staged_view-perm view draft by_key distinct =
    let staged = map_hand_keys_to_entries draft.hand_keys by_key in
    let insert_index = get_or (length view.snapshot.cards) draft.insert_index in
    let plan = plan_table_joker_reclaims view.snapshot staged insert_index draft.reclaim_targets in
    let additions = left_of plan.reclaimed_entry_keys staged in
    let index = insert_index_of draft.card_insert_indices insert_index in
    Perm.trans
      (Perm.append_right (replacing plan.reclaims) (
        Perm.trans (ordered_groups-perm (group_from index [] additions))
          (group_from-perm index additions [])))
      (Perm.trans (perm_append_comm additions (replacing plan.reclaims)) (
        plan_table_joker_reclaims-perm view.snapshot staged insert_index draft.reclaim_targets
          distinct))

map-set {ℓ} :
    {B : Type ℓ} (f : TableView → B) (views : List TableView) (i : ℕ) (old new : TableView)
    → get_elem? views i ≡ some old
    → f new ≡ f old
    → map f (set views i new) ≡ map f views
map-set f [] i old new e same = refl
map-set f (view ∷ views) zero old new e same =
    let at : view ≡ old = cc in ap (λ x. x ∷ map f views) (same ∙ ap f (sym at))
map-set f (view ∷ views) (suc i) old new e same =
    ap (λ xs. f view ∷ xs) (map-set f views i old new e same)

stage_drafts-map {ℓ} :
    {B : Type ℓ} (f : TableView → B) (drafts : List DraftComposition) (views : List TableView)
    (by_key : List (String × HandEntry))
    → ((view : TableView) (draft : DraftComposition) → f (staged_view view draft by_key) ≡ f view)
    → map f (stage_drafts views drafts by_key) ≡ map f views
unfolding stage_drafts
stage_drafts-map f [] views by_key kept = refl
stage_drafts-map f (draft ∷ drafts) views by_key kept = elim (Option-cases draft.table_index) [
  | inl new ↦ rw new (stage_drafts-map f drafts views by_key kept)
  | inr (table_index, at) ↦ elim (Option-cases (get_elem? views table_index)) [
    | inl gone ↦ rw at (rw gone (stage_drafts-map f drafts views by_key kept))
    | inr (view, found) ↦ rw at (
        rw found (
          stage_drafts-map f drafts (set views table_index (staged_view view draft by_key)) by_key
            kept
          ∙ map-set f views table_index view _ found (kept view draft)))
  ]
]

empty_views-maps :
    (i : ℕ) (active : List Composition)
    → (map (λ view. view.snapshot) (empty_views_from i active) ≡ active)
      × (map (λ view. view.table_index) (empty_views_from i active) ≡ range_from i (length active))
unfolding empty_views_from
empty_views-maps i [] = (refl, refl)
empty_views-maps i (composition ∷ active) =
    let (snapshots, indices) = empty_views-maps (i + 1) active in
    (ap (λ xs. composition ∷ xs) snapshots, ap (λ xs. i ∷ xs) indices)

-- Whatever is staged, there is one view for each composition of the table, in the table's order: it
-- shows that composition as the server sent it, and its table index is its place.
pub build_table_composition_views-maps :
    (active : List Composition) (drafts : List DraftComposition)
    (by_key : List (String × HandEntry))
    → (map (λ view. view.snapshot) (build_table_composition_views active drafts by_key) ≡ active)
      × (map (λ view. view.table_index) (build_table_composition_views active drafts by_key)
          ≡ range_from 0 (length active))
unfolding build_table_composition_views staged_view
build_table_composition_views-maps active drafts by_key =
    let (snapshots, indices) = empty_views-maps 0 active in
    (
      stage_drafts-map (λ view. view.snapshot) drafts (empty_views_from 0 active) by_key
            (λ view draft. refl)
          ∙ snapshots,
      stage_drafts-map (λ view. view.table_index) drafts (empty_views_from 0 active) by_key
            (λ view draft. refl)
          ∙ indices,
    )
