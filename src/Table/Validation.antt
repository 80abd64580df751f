-- ===== src/Table/Validation.antt =====
-- The validation of the drafts, `validateDraftedCompositions`.
use compositions.Prelude.{
  ◌≡◌, refl, String, Bool, false, ◌&&◌, none, some, List, [], ◌∷◌, ◌++◌, map, is_empty, all,
  get_elem?, All, Bool-cases, Option-cases, inl, inr, arith, ◌∙◌,
}
use compositions.Snapshots.{Composition}
use compositions.Points.{is_valid_draft_composition}
use compositions.Hand.{HandEntry, hand_entry_order}
use compositions.Drafts.{DraftedComposition}
use compositions.Table.{
  card_of, cards_after_table_draft, DraftValidation, entries_to_mark, validate_draft,
  validate_drafted_compositions,
}

-- A draft is a set or a run of its own, or makes one of the table's compositions a valid one of its
-- type.
abbrev pub is_playable : List Composition → DraftedComposition → Bool
is_playable active drafted = elim drafted.draft.table_index [
  | none ↦ is_valid_draft_composition (map card_of drafted.entries) none
  | some table_index ↦ elim (get_elem? active table_index) [
    | none ↦ false
    | some composition ↦
        is_valid_draft_composition (cards_after_table_draft composition drafted none)
          (some composition.type)
  ]
]

-- Nothing is marked.
abbrev pub is_clean : DraftValidation → Bool
is_clean validation =
    is_empty validation.invalid_composition_ids && is_empty validation.invalid_entry_keys

order-is_empty : (entries : List HandEntry) → is_empty (hand_entry_order entries) ≡ is_empty entries
unfolding hand_entry_order
order-is_empty [] = refl
order-is_empty (entry ∷ entries) = refl

marks_some :
    (composition : Composition) (drafted : DraftedComposition)
    → is_empty drafted.entries ≡ false
    → is_empty (entries_to_mark composition drafted) ≡ false
unfolding entries_to_mark
marks_some composition drafted h = ground (arith, h)

is_empty-append : (xs ys : List String) → is_empty (xs ++ ys) ≡ (is_empty xs && is_empty ys)
is_empty-append [] ys = refl
is_empty-append (x ∷ xs) ys = refl

validate_draft-is_clean :
    (active : List Composition) (drafted : DraftedComposition)
    → is_empty drafted.entries ≡ false
    → is_clean (validate_draft active drafted) ≡ is_playable active drafted
unfolding validate_draft
validate_draft-is_clean active drafted staged = elim (Option-cases drafted.draft.table_index) [
  | inl new ↦
      rw (new, validate_draft)
        (elim (Bool-cases (is_valid_draft_composition (map card_of drafted.entries) none)) [
          | inl valid ↦ rw valid refl
          | inr invalid ↦ rw invalid refl
        ])
  | inr (table_index, at) ↦ elim (Option-cases (get_elem? active table_index)) [
    | inl gone ↦
        rw (at, validate_draft, is_playable) (rw gone (order-is_empty drafted.entries ∙ staged))
    | inr (composition, found) ↦
        elim (Bool-cases (
          is_valid_draft_composition (cards_after_table_draft composition drafted none)
            (some composition.type))) [
              | inl valid ↦ rw (at, validate_draft, is_playable) (rw found (rw valid refl))
              | inr invalid ↦
                  rw (at, validate_draft, is_playable)
                    (rw found (
                      rw invalid (
                        order-is_empty (entries_to_mark composition drafted)
                        ∙ marks_some composition drafted staged)))
            ]
  ]
]

-- The validation marks nothing exactly when every draft is playable: a new composition is a set or a
-- run, and a draft on the table has its composition there and leaves it valid for its type. No draft
-- is empty.
pub validate_drafted_compositions-is_clean :
    (active : List Composition) (drafts : List DraftedComposition)
    → All (λ drafted. is_empty drafted.entries ≡ false) drafts
    → is_clean (validate_drafted_compositions active drafts) ≡ all (is_playable active) drafts
unfolding validate_drafted_compositions
validate_drafted_compositions-is_clean active [] h = refl
validate_drafted_compositions-is_clean active (drafted ∷ drafts) (staged, h) =
    let here = validate_draft active drafted in
    let rest = validate_drafted_compositions active drafts in
    ground (
      arith,
      is_empty-append here.invalid_composition_ids rest.invalid_composition_ids,
      is_empty-append here.invalid_entry_keys rest.invalid_entry_keys,
      validate_draft-is_clean active drafted staged,
      validate_drafted_compositions-is_clean active drafts h,
    )
