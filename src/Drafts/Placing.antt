-- ===== src/Drafts/Placing.antt =====
-- A staged card has a place in its table composition or a joker to reclaim, never both.
use compositions.Prelude.{
  ℕ, ◌≡◌, ◌≢◌, ◌⊎◌, refl, String, Option, none, some, List, [], ◌∷◌, eq_iff, arith, ◌==◌,
  if◌then◌else◌, All, string_eq, Bool-cases, inl, inr, ◌∙◌, get_or,
}
use text.Mathlib.TextPositions.{eq_refl}
use compositions.Prelude.Maps.{insert, lookup-insert, lookup-erase}
use compositions.Drafts.{
  DraftComposition, index_of, indices_without, set_draft_card_insert_index,
  set_draft_card_reclaim_target,
}
use compositions.Drafts.Removal.{index_of-without}

-- No key has both an insert index and a reclaim target.
abbrev pub IsExclusive : DraftComposition → Type 0
IsExclusive d =
    (key : String)
    → (index_of d.card_insert_indices key ≡ none) ⊎ (index_of d.reclaim_targets key ≡ none)

index_of-insert :
    (key j : String) (n : ℕ) (indices : Option (List (String × ℕ)))
    → index_of (some (insert key n (get_or [] indices))) j
      ≡ (if key == j then some n else index_of indices j)
index_of-insert key j n none = ground (arith, lookup-insert key j n [])
index_of-insert key j n (some indices) = lookup-insert key j n indices

index_of-erase :
    (key j : String) (indices : Option (List (String × ℕ)))
    → index_of (some (indices_without key indices)) j
      ≡ (if key == j then none else index_of indices j)
index_of-erase key j none = ground arith
index_of-erase key j (some indices) = lookup-erase key j indices

-- A draft of another id, or one in which the card has the place or reclaims the joker, and not both.
abbrev pub IsPlacedAt : String → String → ℕ → DraftComposition → Type 0
IsPlacedAt id key n d =
    (d.id ≢ id)
    ⊎ ((index_of d.card_insert_indices key ≡ some n) × (index_of d.reclaim_targets key ≡ none))

abbrev pub IsReclaiming : String → String → ℕ → DraftComposition → Type 0
IsReclaiming id key n d =
    (d.id ≢ id)
    ⊎ ((index_of d.reclaim_targets key ≡ some n) × (index_of d.card_insert_indices key ≡ none))

-- After `setDraftCardInsertIndex` the card has that place in every draft of the id and reclaims no
-- joker there.
set_draft_card_insert_index-IsPlacedAt :
    (drafts : List DraftComposition) (id key : String) (n : ℕ)
    → All (IsPlacedAt id key n) (set_draft_card_insert_index drafts id key n)
unfolding set_draft_card_insert_index
set_draft_card_insert_index-IsPlacedAt [] id key n = tt
set_draft_card_insert_index-IsPlacedAt (d ∷ drafts) id key n =
    let rest = set_draft_card_insert_index-IsPlacedAt drafts id key n in
    elim (Bool-cases (d.id == id)) [
      | inl same ↦ rw same (
        inr (
          index_of-insert key key n d.card_insert_indices ∙ rw (eq_refl key) refl,
          index_of-erase key key d.reclaim_targets ∙ rw (eq_refl key) refl,
        ),
        rest,
      )
      | inr other ↦ rw other (inl (λ e. absurd (ground (arith, eq_iff d.id id))), rest)
    ]

set_draft_card_insert_index-IsExclusive :
    (drafts : List DraftComposition) (id key : String) (n : ℕ)
    → All IsExclusive drafts
    → All IsExclusive (set_draft_card_insert_index drafts id key n)
unfolding set_draft_card_insert_index
set_draft_card_insert_index-IsExclusive [] id key n h = tt
set_draft_card_insert_index-IsExclusive (d ∷ drafts) id key n (h, hs) =
    let rest = set_draft_card_insert_index-IsExclusive drafts id key n hs in
    elim (Bool-cases (d.id == id)) [
      | inl same ↦ rw same (
        λ j. ground (
          arith,
          h j,
          index_of-insert key j n d.card_insert_indices,
          index_of-erase key j d.reclaim_targets,
        ),
        rest,
      )
      | inr other ↦ rw other (h, rest)
    ]

-- After `setDraftCardReclaimTarget` the card reclaims that joker in every draft of the id and has
-- no place there.
set_draft_card_reclaim_target-IsReclaiming :
    (drafts : List DraftComposition) (id key : String) (n : ℕ)
    → All (IsReclaiming id key n) (set_draft_card_reclaim_target drafts id key n)
unfolding set_draft_card_reclaim_target
set_draft_card_reclaim_target-IsReclaiming [] id key n = tt
set_draft_card_reclaim_target-IsReclaiming (d ∷ drafts) id key n =
    let rest = set_draft_card_reclaim_target-IsReclaiming drafts id key n in
    elim (Bool-cases (d.id == id)) [
      | inl same ↦ rw same (
        inr (
          index_of-insert key key n d.reclaim_targets ∙ rw (eq_refl key) refl,
          index_of-without key key d.card_insert_indices ∙ rw (eq_refl key) refl,
        ),
        rest,
      )
      | inr other ↦ rw other (inl (λ e. absurd (ground (arith, eq_iff d.id id))), rest)
    ]

set_draft_card_reclaim_target-IsExclusive :
    (drafts : List DraftComposition) (id key : String) (n : ℕ)
    → All IsExclusive drafts
    → All IsExclusive (set_draft_card_reclaim_target drafts id key n)
unfolding set_draft_card_reclaim_target
set_draft_card_reclaim_target-IsExclusive [] id key n h = tt
set_draft_card_reclaim_target-IsExclusive (d ∷ drafts) id key n (h, hs) =
    let rest = set_draft_card_reclaim_target-IsExclusive drafts id key n hs in
    elim (Bool-cases (d.id == id)) [
      | inl same ↦ rw same (
        λ j. ground (
          arith,
          h j,
          index_of-insert key j n d.reclaim_targets,
          index_of-without key j d.card_insert_indices,
        ),
        rest,
      )
      | inr other ↦ rw other (h, rest)
    ]

-- Placing a card with `setDraftCardInsertIndex` and then another with `setDraftCardReclaimTarget`, or
-- in the other order, never leaves a card of a draft with both a place and a joker, if there was
-- none before.
pub placing-IsExclusive :
    (drafts : List DraftComposition) (id placed reclaiming : String) (n m : ℕ)
    → All IsExclusive drafts
    → All IsExclusive (
        set_draft_card_reclaim_target
          (set_draft_card_insert_index drafts id placed n)
          id
          reclaiming
          m)
      × All IsExclusive (
          set_draft_card_insert_index
            (set_draft_card_reclaim_target drafts id reclaiming m)
            id
            placed
            n)
placing-IsExclusive drafts id placed reclaiming n m h = (
  set_draft_card_reclaim_target-IsExclusive _ id reclaiming m
      (set_draft_card_insert_index-IsExclusive drafts id placed n h),
  set_draft_card_insert_index-IsExclusive _ id placed n
      (set_draft_card_reclaim_target-IsExclusive drafts id reclaiming m h),
)
