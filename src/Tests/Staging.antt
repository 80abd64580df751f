-- ===== src/Tests/Staging.antt =====
-- The theorems on the drafts, at concrete drafts.
use compositions.Prelude.{
  ◌≤◌, ◌≡◌, ◌⊎◌, inl, inr, refl, String, false, none, some, List, [], ◌∷◌, if◌then◌else◌, contains,
  All, arith, Bool-cases, eq_iff, is_empty, count, nat_eq, string_eq, subst,
}
use compositions.Tests.Moves.{array_move, array_move_perm}
use compositions.Drafts.{
  DraftComposition, index_of, drafts_without, remove_hand_key_from_drafts, prune_draft_compositions,
  insert_key, insert_into_target, reorder_in_draft, insert_hand_key_into_draft,
  set_draft_card_insert_index, set_draft_card_reclaim_target,
}
use compositions.Drafts.Removal.{
  all_keys, IsClearOf, remove_hand_key_from_drafts-count, remove_hand_key_from_drafts-IsClearOf,
  prune_draft_compositions-count,
}
use compositions.Drafts.Moving.{ids, insert_hand_key_into_draft-count}
use compositions.Drafts.Position.{insert_hand_key_into_draft-only_key}
use compositions.Drafts.Placing.{IsExclusive, placing-IsExclusive}

staging : Unit {0}
unfolding drafts_without remove_hand_key_from_drafts prune_draft_compositions insert_key
    insert_into_target reorder_in_draft insert_hand_key_into_draft set_draft_card_insert_index
    set_draft_card_reclaim_target
staging = tt

abbrev draft : String → List String → DraftComposition
draft id keys = record {
  id = id;
  hand_keys = keys;
  table_index = none;
  insert_index = none;
  card_insert_indices = some (("4-0-1", 2) ∷ []);
  reclaim_targets = some (("5-0-1", 0) ∷ []);
}

abbrev drafts : List DraftComposition
drafts = draft "a" ("4-0-1" ∷ "5-0-1" ∷ "6-0-1" ∷ []) ∷ draft "b" ("9-1-1" ∷ []) ∷ []

staging_tests :
    (all_keys (insert_hand_key_into_draft array_move drafts "9-1-1" "a" (some "5-0-1"))
      ≡ "4-0-1" ∷ "9-1-1" ∷ "5-0-1" ∷ "6-0-1" ∷ [])
    × (all_keys (insert_hand_key_into_draft array_move drafts "6-0-1" "a" (some "4-0-1"))
        ≡ "6-0-1" ∷ "4-0-1" ∷ "5-0-1" ∷ "9-1-1" ∷ [])
    × (all_keys (insert_hand_key_into_draft array_move drafts "6-0-1" "a" none)
        ≡ "4-0-1" ∷ "5-0-1" ∷ "6-0-1" ∷ "9-1-1" ∷ [])
    × (all_keys (prune_draft_compositions drafts ("5-0-1" ∷ [])) ≡ "5-0-1" ∷ [])
    × (ids (remove_hand_key_from_drafts drafts "9-1-1") ≡ "a" ∷ [])
unfolding staging
staging_tests = (refl, refl, refl, refl, refl)

insert_hand_key_into_draft-count_example :
    (count "4-0-1" (all_keys (insert_hand_key_into_draft array_move drafts "9-1-1" "a" none))
      ≡ count "4-0-1" (all_keys drafts))
    × (count "9-1-1" (all_keys (insert_hand_key_into_draft array_move drafts "9-1-1" "a" none)) ≤ 1)
unfolding staging
insert_hand_key_into_draft-count_example =
    insert_hand_key_into_draft-count array_move array_move_perm drafts "9-1-1" "a" "4-0-1" none
      (refl, (refl, tt)) (omega arith) refl

insert_hand_key_into_draft-only_key_example :
    (contains (ids (insert_hand_key_into_draft array_move drafts "9-1-1" "b" none)) "b" ≡ false)
    × (count "9-1-1" (all_keys (insert_hand_key_into_draft array_move drafts "9-1-1" "b" none)) ≡ 0)
unfolding staging
insert_hand_key_into_draft-only_key_example =
    insert_hand_key_into_draft-only_key array_move drafts "9-1-1" "b" (draft "b" ("9-1-1" ∷ []))
      (refl, (refl, tt)) refl refl

remove_hand_key_from_drafts-count_example :
    count "5-0-1" (all_keys (remove_hand_key_from_drafts drafts "4-0-1")) ≡ 1
remove_hand_key_from_drafts-count_example = remove_hand_key_from_drafts-count drafts "4-0-1" "5-0-1"

remove_hand_key_from_drafts-IsClearOf_example :
    All (IsClearOf "5-0-1") (remove_hand_key_from_drafts drafts "5-0-1")
remove_hand_key_from_drafts-IsClearOf_example =
    remove_hand_key_from_drafts-IsClearOf drafts "5-0-1" refl

prune_draft_compositions-count_example :
    ((j : String)
      → count j (all_keys (prune_draft_compositions drafts ("5-0-1" ∷ [])))
        ≡ (if contains ("5-0-1" ∷ []) j then count j (all_keys drafts) else 0))
    × All
        (λ composition. is_empty composition.hand_keys ≡ false)
        (prune_draft_compositions drafts ("5-0-1" ∷ []))
prune_draft_compositions-count_example = prune_draft_compositions-count drafts ("5-0-1" ∷ [])

placed_or_reclaiming : (id : String) (keys : List String) → IsExclusive (draft id keys)
placed_or_reclaiming id keys key = elim (Bool-cases (string_eq.equal "4-0-1" key)) [
  | inl same ↦
      subst
        (λ k.
          (index_of (draft id keys).card_insert_indices k ≡ none)
          ⊎ (index_of (draft id keys).reclaim_targets k ≡ none))
        ((eq_iff "4-0-1" key).0 same) (inr refl)
  | inr other ↦ inl (rw other refl)
]

placing-IsExclusive_example :
    All IsExclusive (
      set_draft_card_reclaim_target
        (set_draft_card_insert_index drafts "a" "5-0-1" 1)
        "a"
        "4-0-1"
        0)
    × All IsExclusive (
        set_draft_card_insert_index
          (set_draft_card_reclaim_target drafts "a" "4-0-1" 0)
          "a"
          "5-0-1"
          1)
placing-IsExclusive_example = placing-IsExclusive drafts "a" "5-0-1" "4-0-1" 1 0 (
  placed_or_reclaiming "a" (draft "a" ("4-0-1" ∷ "5-0-1" ∷ "6-0-1" ∷ [])).hand_keys,
  (placed_or_reclaiming "b" (draft "b" ("9-1-1" ∷ [])).hand_keys, tt),
)
