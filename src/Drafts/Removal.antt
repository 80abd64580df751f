-- ===== src/Drafts/Removal.antt =====
-- Taking a hand key out of the drafts, and keeping only the keys of the hand.
use compositions.Prelude.{
  ℕ, ◌≡◌, refl, String, true, false, Option, none, some, List, [], ◌∷◌, ◌++◌, eq_iff, arith, ◌==◌,
  ◌!=◌, if◌then◌else◌, contains, count, filter, any, All, is_empty, string_eq, Bool-cases, inl, inr,
  subst, ◌∙◌, count-append, count_absent, count-filter_ne,
}
use compositions.Prelude.Maps.{lookup, erase, lookup-erase}
use text.Mathlib.TextPositions.{eq_refl}
use compositions.Drafts.{
  DraftComposition, index_of, indices_without, unless_empty, drafts_without,
  remove_hand_key_from_drafts, prune_draft_compositions,
}

-- The keys of all drafts, in their order.
abbrev pub all_keys : List DraftComposition → List String
all_keys [] = []
all_keys (composition ∷ compositions) = composition.hand_keys ++ all_keys compositions

drafts_without-count :
    (key j : String) (compositions : List DraftComposition)
    → count j (all_keys (drafts_without key compositions))
      ≡ (if key == j then 0 else count j (all_keys compositions))
unfolding drafts_without
drafts_without-count key j [] = ground arith
drafts_without-count key j (composition ∷ compositions) = ground (
  arith,
  drafts_without-count key j compositions,
  count-filter_ne j key composition.hand_keys,
  count-append j composition.hand_keys (all_keys compositions),
  count-append j (filter (λ x. x != key) composition.hand_keys)
      (all_keys (drafts_without key compositions)),
)

none_holds :
    (key : String) (compositions : List DraftComposition)
    → any (λ composition. contains composition.hand_keys key) compositions ≡ false
    → count key (all_keys compositions) ≡ 0
none_holds key [] h = refl
none_holds key (composition ∷ compositions) h = ground (
  arith,
  none_holds key compositions,
  count_absent key composition.hand_keys,
  count-append key composition.hand_keys (all_keys compositions),
)

-- `removeHandKeyFromDrafts` leaves no draft with the key, and leaves every other key in the drafts
-- as often as it was.
pub remove_hand_key_from_drafts-count :
    (compositions : List DraftComposition) (key j : String)
    → count j (all_keys (remove_hand_key_from_drafts compositions key))
      ≡ (if key == j then 0 else count j (all_keys compositions))
unfolding remove_hand_key_from_drafts
remove_hand_key_from_drafts-count compositions key j =
    elim (Bool-cases (any (λ composition. contains composition.hand_keys key) compositions)) [
      | inl held ↦ rw held (drafts_without-count key j compositions)
      | inr free ↦ rw free (elim (Bool-cases (key == j)) [
        | inl same ↦
            let at = (eq_iff key j).0 same in
            rw same (
              subst (λ k. count k (all_keys compositions) ≡ 0) at
                (none_holds key compositions free))
        | inr other ↦ rw other refl
      ])
    ]

-- A draft without keys, or with an index or a target for a key that it does not hold, is stale.
abbrev pub IsClearOf : String → DraftComposition → Type 0
IsClearOf key composition =
    (is_empty composition.hand_keys ≡ false)
    × (contains composition.hand_keys key ≡ false)
    × (index_of composition.card_insert_indices key ≡ none)
    × (index_of composition.reclaim_targets key ≡ none)

index_of-unless_empty :
    (key : String) (indices : List (String × ℕ))
    → index_of (unless_empty indices) key ≡ lookup key indices
index_of-unless_empty key [] = refl
index_of-unless_empty key (index ∷ indices) = refl

pub index_of-without :
    (key j : String) (indices : Option (List (String × ℕ)))
    → index_of (unless_empty (indices_without key indices)) j
      ≡ (if key == j then none else index_of indices j)
index_of-without key j none = ground arith
index_of-without key j (some indices) =
    index_of-unless_empty j (erase key indices) ∙ lookup-erase key j indices

contains-filter_ne :
    (key : String) (keys : List String) → contains (filter (λ k. k != key) keys) key ≡ false
contains-filter_ne key [] = refl
contains-filter_ne key (k ∷ keys) = ground (arith, contains-filter_ne key keys)

drafts_without-IsClearOf :
    (key : String) (compositions : List DraftComposition)
    → All (IsClearOf key) (drafts_without key compositions)
unfolding drafts_without
drafts_without-IsClearOf key [] = tt
drafts_without-IsClearOf key (composition ∷ compositions) =
    elim (Bool-cases (is_empty (filter (λ k. k != key) composition.hand_keys))) [
      | inl empty ↦ rw empty (drafts_without-IsClearOf key compositions)
      | inr left ↦ rw left (
        (
          left,
          contains-filter_ne key composition.hand_keys,
          index_of-without key key composition.card_insert_indices ∙ rw (eq_refl key) refl,
          index_of-without key key composition.reclaim_targets ∙ rw (eq_refl key) refl,
        ),
        drafts_without-IsClearOf key compositions,
      )
    ]

-- Where a draft held the key, every draft that `removeHandKeyFromDrafts` leaves has keys, does not
-- hold this one, and has neither an insert index nor a reclaim target for it.
pub remove_hand_key_from_drafts-IsClearOf :
    (compositions : List DraftComposition) (key : String)
    → any (λ composition. contains composition.hand_keys key) compositions ≡ true
    → All (IsClearOf key) (remove_hand_key_from_drafts compositions key)
unfolding remove_hand_key_from_drafts
remove_hand_key_from_drafts-IsClearOf compositions key held =
    rw held (drafts_without-IsClearOf key compositions)

count-filter-contains :
    (valid : List String) (j : String) (keys : List String)
    → count j (filter (contains valid) keys) ≡ (if contains valid j then count j keys else 0)
count-filter-contains valid j [] = ground arith
count-filter-contains valid j (k ∷ keys) =
    ground (arith, count-filter-contains valid j keys, eq_iff k j)

-- `pruneDraftCompositions` keeps exactly the valid keys, each as often as it was, and no draft that
-- is left is empty.
pub prune_draft_compositions-count :
    (compositions : List DraftComposition) (valid : List String)
    → ((j : String)
        → count j (all_keys (prune_draft_compositions compositions valid))
          ≡ (if contains valid j then count j (all_keys compositions) else 0))
      × All
          (λ composition. is_empty composition.hand_keys ≡ false)
          (prune_draft_compositions compositions valid)
unfolding prune_draft_compositions
prune_draft_compositions-count [] valid = ((λ j. ground arith), tt)
prune_draft_compositions-count (composition ∷ compositions) valid =
    let (counts, full) = prune_draft_compositions-count compositions valid in
    (
      λ j. ground (
        arith,
        counts j,
        count-filter-contains valid j composition.hand_keys,
        count-append j composition.hand_keys (all_keys compositions),
        count-append j (filter (contains valid) composition.hand_keys)
            (all_keys (prune_draft_compositions compositions valid)),
      ),
      elim (Bool-cases (is_empty (filter (contains valid) composition.hand_keys))) [
        | inl empty ↦ rw empty full
        | inr left ↦ rw left (left, full)
      ],
    )
