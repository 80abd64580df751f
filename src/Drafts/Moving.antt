-- ===== src/Drafts/Moving.antt =====
-- `insertHandKeyIntoDraft` as a whole: no key is lost or doubled.
use compositions.Prelude.{
  ℕ, ◌≤◌, ◌<◌, ◌≡◌, ◌⊎◌, refl, String, Bool, true, false, Option, some, List, [], ◌∷◌, map, eq_iff,
  arith, ◌==◌, if◌then◌else◌, contains, count, find?, length, string_eq, nat_eq, Bool-cases,
  Option-cases, inl, inr, subst, ◌∙◌, Perm, count-append, find_index?-lt-length, IsDistinct,
}
use compositions.Prelude.Perms.{count-Perm}
use text.Mathlib.TextPositions.{eq_refl}
use compositions.Drafts.{
  DraftComposition, truthy, index_in, find_draft, insert_into_target, remove_hand_key_from_drafts,
  reorder_in_draft, insert_hand_key_into_draft,
}
use compositions.Drafts.Removal.{all_keys, remove_hand_key_from_drafts-count}
use compositions.Drafts.Insertion.{insert_into_target-count}

abbrev pub ids : List DraftComposition → List String
ids = map (λ d. d.id)

-- The loop that reorders: it changes the drafts of one id.
abbrev reordered :
    (List String → List String) → String → List DraftComposition → List DraftComposition
reordered f id = map (λ d. if d.id == id then record d { hand_keys = f d.hand_keys } else d)

reordered_absent :
    (f : List String → List String) (id : String) (drafts : List DraftComposition)
    → contains (ids drafts) id ≡ false
    → reordered f id drafts ≡ drafts
reordered_absent f id [] h = refl
reordered_absent f id (d ∷ drafts) h = ground (arith, reordered_absent f id drafts)

find?-id :
    (p : DraftComposition → Bool) (drafts : List DraftComposition) (s : DraftComposition)
    → find? p drafts ≡ some s
    → contains (ids drafts) s.id ≡ true
find?-id p [] s e = absurd (cc)
find?-id p (d ∷ drafts) s e = ground (arith, find?-id p drafts s, eq_iff d.id s.id)

count-reordered :
    (f : List String → List String) (j : String) (p : DraftComposition → Bool)
    (drafts : List DraftComposition) (s : DraftComposition)
    → IsDistinct (ids drafts)
    → find? p drafts ≡ some s
    → count j (f s.hand_keys) ≡ count j s.hand_keys
    → count j (all_keys (reordered f s.id drafts)) ≡ count j (all_keys drafts)
count-reordered f j p [] s h e same = refl
count-reordered f j p (d ∷ drafts) s (new, h) e same = elim (Bool-cases (p d)) [
  | inl here ↦
      let this : d ≡ s = ground arith in
      let rest =
        reordered_absent f s.id drafts
          (subst (λ (x : DraftComposition). contains (ids drafts) x.id ≡ false) this new) in
      let named : (d.id == s.id) ≡ true = ground (arith, eq_iff d.id s.id) in
      rw (named, rest)
        (ground (
          arith,
          count-append j (f d.hand_keys) (all_keys drafts),
          count-append j d.hand_keys (all_keys drafts),
        ))
  | inr later ↦
      let e' : find? p drafts ≡ some s = ground arith in
      let other : (d.id == s.id) ≡ false = ground (arith, find?-id p drafts s, eq_iff d.id s.id) in
      rw other (
        omega (
          arith,
          count-reordered f j p drafts s h e' same,
          count-append j d.hand_keys (all_keys drafts),
          count-append j d.hand_keys (all_keys (reordered f s.id drafts)),
        ))
]

pub cleared :
    (drafts : List DraftComposition) (key : String)
    → count key (all_keys (remove_hand_key_from_drafts drafts key)) ≡ 0
cleared drafts key = remove_hand_key_from_drafts-count drafts key key ∙ rw (eq_refl key) refl

module _ (array_move : (A : Type 0) → List A → ℕ → ℕ → List A)
    (array_move_perm : (A : Type 0) (xs : List A) (i j : ℕ)
      → i < length xs
      → j < length xs
      → Perm (array_move A xs i j) xs) where
  reorder_in_draft-count :
      (drafts : List DraftComposition) (s : DraftComposition) (key over j : String)
      (p : DraftComposition → Bool)
      → IsDistinct (ids drafts)
      → find? p drafts ≡ some s
      → count j (all_keys (reorder_in_draft array_move drafts s key over))
        ≡ count j (all_keys drafts)
  unfolding reorder_in_draft
  reorder_in_draft-count drafts s key over j p h e =
      elim (Option-cases (index_in s.hand_keys key)) [
        | inl absent ↦ rw (absent, reorder_in_draft)
        | inr (old, at) ↦ elim (Option-cases (index_in s.hand_keys over)) [
          | inl absent ↦ rw (at, reorder_in_draft) (rw absent)
          | inr (new, at') ↦ elim (Bool-cases (old == new)) [
            | inl same ↦ rw (at, reorder_in_draft) (rw at' (rw same))
            | inr different ↦
                rw (at, reorder_in_draft)
                  (rw at' (
                    rw different (
                      count-reordered (λ keys. array_move String keys old new) j p drafts s h e
                        (count-Perm j (
                          array_move_perm String s.hand_keys old new
                            (find_index?-lt-length (λ k. k == key) s.hand_keys old at)
                            (find_index?-lt-length (λ k. k == over) s.hand_keys new at'))))))
          ]
        ]
      ]

  -- The two ways that an insertion goes.
  pub insert_cases :
      (drafts : List DraftComposition) (key id : String) (over : Option String)
      → (insert_hand_key_into_draft array_move drafts key id over
          ≡ insert_into_target (remove_hand_key_from_drafts drafts key) key id (truthy over))
        ⊎ ((s : DraftComposition) × (o : String) × (find? (λ d. contains d.hand_keys key) drafts
              ≡ some s)
            × (insert_hand_key_into_draft array_move drafts key id over
                ≡ reorder_in_draft array_move drafts s key o))
  unfolding insert_hand_key_into_draft
  insert_cases drafts key id over =
      elim (Option-cases (find? (λ d. contains d.hand_keys key) drafts)) [
        | inl absent ↦ inl (rw (absent, insert_hand_key_into_draft))
        | inr (s, found) ↦ elim (Option-cases (find_draft drafts id)) [
          | inl absent ↦ inl (rw (found, insert_hand_key_into_draft) (rw absent))
          | inr (t, target) ↦ elim (Option-cases (truthy over)) [
            | inl absent ↦ inl (rw (found, insert_hand_key_into_draft) (rw target (ground arith)))
            | inr (o, present) ↦ elim (Bool-cases (s.id == t.id)) [
              | inl same ↦
                  inr
                    (s, o, found, rw (found, insert_hand_key_into_draft) (rw target (ground arith)))
              | inr different ↦
                  inl (rw (found, insert_hand_key_into_draft) (rw target (ground arith)))
            ]
          ]
        ]
      ]

  -- `insertHandKeyIntoDraft` keeps every other key in the drafts as often as it was, and leaves the
  -- inserted key there at most once if it was there at most once before; the drafts have different
  -- ids, and `arrayMove` reorders its list where both indices are in range.
  pub insert_hand_key_into_draft-count :
      (drafts : List DraftComposition) (key id j : String) (over : Option String)
      → IsDistinct (ids drafts)
      → count key (all_keys drafts) ≤ 1
      → (key == j) ≡ false
      → (count j (all_keys (insert_hand_key_into_draft array_move drafts key id over))
          ≡ count j (all_keys drafts))
        × (count key (all_keys (insert_hand_key_into_draft array_move drafts key id over)) ≤ 1)
  insert_hand_key_into_draft-count drafts key id j over h once other =
      elim (insert_cases drafts key id over) [
        | inl moved ↦ (
          rw moved (
              ground (
                arith,
                other,
                insert_into_target-count (remove_hand_key_from_drafts drafts key) key id
                    (truthy over) j (cleared drafts key),
                remove_hand_key_from_drafts-count drafts key j,
              )),
          rw moved (
              ground (
                arith,
                insert_into_target-count (remove_hand_key_from_drafts drafts key) key id
                    (truthy over) key (cleared drafts key),
                cleared drafts key,
              )),
        )
        | inr (s, o, found, same) ↦ (
          rw same (reorder_in_draft-count drafts s key o j (λ d. contains d.hand_keys key) h found),
          rw same (
              rw (reorder_in_draft-count drafts s key o key (λ d. contains d.hand_keys key) h found)
                once),
        )
      ]
