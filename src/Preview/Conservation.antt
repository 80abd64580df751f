-- ===== src/Preview/Conservation.antt =====
-- A preview shows every card of the previewed draft.
use compositions.Prelude.{
  ℕ, ◌≡◌, refl, false, Option, none, some, List, [], ◌∷◌, ◌++◌, map, ◌==◌, get_or, length, contains,
  IsDistinct, nat_eq, string_eq, Bool-cases, inl, inr, Perm, arith, subst,
}
use mathlib.Core.List.Perm
use mathlib.Core.List.{append-nil, append_assoc, perm_append_comm, reverse_perm}
use compositions.Prelude.Maps.{lookup, keys, insert-IsDistinct}
use compositions.Snapshots.{Card, DraftSnapshot}
use compositions.Hand.{HandEntry, build_hand_entries}
use compositions.Hand.Keys.{build_hand_entries-IsDistinct}
use compositions.Reclaims.{plan_table_joker_reclaims}
use compositions.Reclaims.Inferred.{replacing}
use compositions.Reclaims.Rest.{left_of, plan_table_joker_reclaims-perm}
use compositions.Table.{TableView, Groups, card_of, group_from, insert_index_of}
use compositions.Table.Grouping.{flat, group_from-perm}
use compositions.Preview.{aligned_entry_index_map, behind_front, draft_preview_for_composition}

group_from-IsDistinct :
    (index : HandEntry → ℕ) (entries : List HandEntry) (groups : Groups)
    → IsDistinct (keys groups)
    → IsDistinct (keys (group_from index groups entries))
unfolding group_from
group_from-IsDistinct index [] groups h = h
group_from-IsDistinct index (entry ∷ entries) groups h =
    group_from-IsDistinct index entries _ (insert-IsDistinct (index entry) _ groups h)

behind_front-flat :
    (groups : Groups) → contains (keys groups) 0 ≡ false → behind_front groups ≡ flat groups
unfolding behind_front
behind_front-flat [] h = refl
behind_front-flat ((i, entries) ∷ groups) h = ground (arith, h, behind_front-flat groups)

front_first-perm :
    (groups : Groups)
    → IsDistinct (keys groups)
    → Perm (get_or [] (lookup 0 groups) ++ behind_front groups) (flat groups)
unfolding behind_front
front_first-perm [] h = Perm.rfl
front_first-perm ((i, entries) ∷ groups) (new, h) = elim (Bool-cases (i == 0)) [
  | inl front ↦
      let none_else =
        behind_front-flat groups
          (subst (λ k. contains (keys groups) k ≡ false) ((nat_eq.equal_iff i 0).0 front) new) in
      rw front (rw none_else Perm.rfl)
  | inr behind ↦
      let at_front = get_or [] (lookup 0 groups) in
      rw behind (
        rw (← append_assoc at_front entries (behind_front groups)) (
          Perm.trans (Perm.append_right (behind_front groups) (perm_append_comm at_front entries)) (
            rw (append_assoc entries at_front (behind_front groups))
              (Perm.append_left entries (front_first-perm groups h)))))
]

-- Whatever the placements of a draft, and whether its table composition is there or not, the preview
-- shows every card of the draft once, as a staged card or in the place of a joker.
pub draft_preview_for_composition-perm :
    (view : Option TableView) (draft : DraftSnapshot) (cards : List Card)
    → Perm
        (map card_of (
          (draft_preview_for_composition view draft cards).staged_entries
          ++ replacing (draft_preview_for_composition view draft cards).reclaims))
        cards
unfolding draft_preview_for_composition
draft_preview_for_composition-perm none draft cards =
    let (_, same, _, _) = build_hand_entries-IsDistinct cards in
    rw (append-nil (build_hand_entries cards), same) Perm.rfl
draft_preview_for_composition-perm (some view) draft cards =
    let (distinct, same, _, _) = build_hand_entries-IsDistinct cards in
    let staged = build_hand_entries cards in
    let insert_index = get_or (length view.snapshot.cards) draft.insert_index in
    let targets =
      aligned_entry_index_map staged draft.card_placements (λ p. p.reclaim_joker_index) in
    let indices = aligned_entry_index_map staged draft.card_placements (λ p. p.insert_index) in
    let plan = plan_table_joker_reclaims view.snapshot staged insert_index (some targets) in
    let additions = left_of plan.reclaimed_entry_keys staged in
    let index = insert_index_of (some indices) insert_index in
    let groups = group_from index [] additions in
    let shown =
      Perm.trans
        (Perm.append_right (behind_front groups) (reverse_perm (get_or [] (lookup 0 groups))))
        (Perm.trans (front_first-perm groups (group_from-IsDistinct index additions [] tt))
          (group_from-perm index additions [])) in
    let all_staged = Perm.trans (Perm.append_right (replacing plan.reclaims) shown) (
      Perm.trans (perm_append_comm additions (replacing plan.reclaims)) (
        plan_table_joker_reclaims-perm view.snapshot staged insert_index (some targets)
          distinct)) in
    Perm.trans (Perm.map card_of all_staged) (rw same Perm.rfl)
