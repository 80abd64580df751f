-- ===== src/Hand/Played.antt =====
-- The index of a card in the hand that is left once the submitted drafts have been played.
use compositions.Prelude.{
  ℕ, suc, ◌+◌, ◌≡◌, String, Bool, false, not, ◌&&◌, ◌||◌, some, List, [], ◌∷◌, arith, ◌==◌,
  contains, filter, find?, get_elem?, string_eq, Bool-cases, Option-cases, inl, inr,
}
use compositions.Prelude.Int.{ℤ, int_eq}
use compositions.Hand.{
  HandEntry, played_source_indices, next_index_of, hand_index_after_submitted_drafts,
}

-- A card of the hand that the drafts leave there.
abbrev pub stays : List ℤ → HandEntry → Bool
stays played entry = not (entry.is_virtual || contains played entry.source_index)

-- An entry is at an index of the hand that is left.
abbrev pub IsAt : List HandEntry → ℕ → ℤ → Type 0
IsAt hand i source =
    (entry : HandEntry) × (get_elem? hand i ≡ some entry) × (entry.source_index ≡ source)

module _ (played : List ℤ) (dragged : ℤ) (unplayed : contains played dragged ≡ false) where
  next_index_of-IsAt :
      (n : ℕ) (entries : List HandEntry) (entry : HandEntry)
      → find? (λ e. not e.is_virtual && e.source_index == dragged) entries ≡ some entry
      → (i : ℕ) × (next_index_of played dragged n entries ≡ some (n + i))
        × IsAt (filter (stays played) entries) i dragged
  unfolding next_index_of
  next_index_of-IsAt n [] entry e = absurd (cc)
  next_index_of-IsAt n (x ∷ entries) entry e =
      elim (Bool-cases (not x.is_virtual && x.source_index == dragged)) [
        | inl found ↦
            let source : x.source_index ≡ dragged =
              (int_eq.equal_iff x.source_index dragged).0 (ground arith) in
            let unplayed' : contains played x.source_index ≡ false = rw source unplayed in
            (0, ground arith, (x, ground arith, source))
        | inr other ↦ elim (Bool-cases (stays played x)) [
          | inl left ↦
              let (i, later, (y, at, source)) =
                next_index_of-IsAt (n + 1) entries entry (ground arith) in
              (suc i, ground (arith, later), (y, ground (arith, at), source))
          | inr gone ↦
              let (i, later, (y, at, source)) = next_index_of-IsAt n entries entry (ground arith) in
              (i, ground (arith, later), (y, ground (arith, at), source))
        ]
      ]

-- Where the dragged entry itself is met, a match of its source is met too.
found_source :
    (hand_key : String) (entries : List HandEntry) (dragged : HandEntry)
    → find? (λ entry. entry.key == hand_key) entries ≡ some dragged
    → dragged.is_virtual ≡ false
    → (entry : HandEntry) × (find?
          (λ e. not e.is_virtual && e.source_index == dragged.source_index)
          entries
        ≡ some entry)
found_source hand_key [] dragged e real = absurd (cc)
found_source hand_key (x ∷ entries) dragged e real =
    elim (Bool-cases (not x.is_virtual && x.source_index == dragged.source_index)) [
      | inl here ↦ (x, ground arith)
      | inr other ↦
          let different : (x.key == hand_key) ≡ false =
            ground (arith, int_eq.equal_iff dragged.source_index dragged.source_index) in
          let (entry, found) = found_source hand_key entries dragged (ground arith) real in
          (entry, ground arith)
    ]

-- For a real card of the hand that no draft plays, `handIndexAfterSubmittedDrafts` gives an index,
-- and at that index the hand that is left, which holds the real cards that no draft plays in their
-- order, has the card's entry or another of the same source index.
pub hand_index_after_submitted_drafts-IsAt :
    (raw_hand_entries : List HandEntry) (hand_key : String) (drafted : List (List HandEntry))
    (dragged : HandEntry)
    → find? (λ entry. entry.key == hand_key) raw_hand_entries ≡ some dragged
    → dragged.is_virtual ≡ false
    → contains (played_source_indices drafted) dragged.source_index ≡ false
    → (i : ℕ) × (hand_index_after_submitted_drafts raw_hand_entries hand_key drafted ≡ some i)
      × IsAt
          (filter (stays (played_source_indices drafted)) raw_hand_entries)
          i
          dragged.source_index
unfolding hand_index_after_submitted_drafts
hand_index_after_submitted_drafts-IsAt raw_hand_entries hand_key drafted dragged e real unplayed =
    let (entry, found) = found_source hand_key raw_hand_entries dragged e real in
    let (i, index, at) =
      next_index_of-IsAt (played_source_indices drafted) dragged.source_index unplayed 0
        raw_hand_entries entry found in
    (i, ground (arith, e, index), at)

-- An index is given only for a real card of the hand whose source index no draft plays.
hand_index_after_submitted_drafts-unplayed :
    (raw_hand_entries : List HandEntry) (hand_key : String) (drafted : List (List HandEntry))
    (i : ℕ)
    → hand_index_after_submitted_drafts raw_hand_entries hand_key drafted ≡ some i
    → (dragged : HandEntry) × (find? (λ entry. entry.key == hand_key) raw_hand_entries
        ≡ some dragged)
      × (dragged.is_virtual ≡ false)
      × (contains (played_source_indices drafted) dragged.source_index ≡ false)
unfolding hand_index_after_submitted_drafts
hand_index_after_submitted_drafts-unplayed raw_hand_entries hand_key drafted i e =
    elim (Option-cases (find? (λ entry. entry.key == hand_key) raw_hand_entries)) [
      | inl absent ↦ absurd (cc)
      | inr (dragged, found) ↦ (dragged, found, ground (arith, found), ground (arith, found))
    ]
