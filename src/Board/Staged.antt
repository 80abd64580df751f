-- ===== src/Board/Staged.antt =====
-- The drafts that the operations on them leave: no hand key is staged twice, and no two drafts share
-- an id.
use compositions.Prelude.{
  ℕ, zero, suc, Perm, ◌+◌, ◌≤◌, ◌<◌, ◌≡◌, inl, inr, refl, String, false, Option, some, List, [],
  ◌∷◌, ◌++◌, map, ◌==◌, if◌then◌else◌, find_index?, get_elem?, set, count, count-append, IsDistinct,
  length, nat_eq, string_eq, option_eq, Bool-cases, Option-cases, arith, ap, sym, subst, ◌∙◌,
}
use text.Mathlib.TextPositions.{eq_refl}
use compositions.Prelude.Text.{show, show_inj}
use compositions.Prelude.Lists.{not_contains_of_count}
use compositions.Drafts.{
  DraftComposition, index_in, drafts_without, remove_hand_key_from_drafts, prune_draft_compositions,
  insert_into_target, reorder_in_draft, insert_hand_key_into_draft,
  move_draft_composition_insert_index, set_draft_card_insert_index, set_draft_card_reclaim_target,
  truthy,
}
use compositions.Drafts.Removal.{
  all_keys, remove_hand_key_from_drafts-count, prune_draft_compositions-count,
}
use compositions.Drafts.Moving.{ids, insert_cases, insert_hand_key_into_draft-count}
use compositions.DropIds.{strip_prefix}
use compositions.DropIds.RoundTrip.{strip_prefix-append}
use compositions.Board.Drags.{draft_id}

-- Each hand key is in the drafts at most once, their ids differ, and the ids from `n` on are free.
unfoldable pub IsStaged : ℕ → List DraftComposition → Type 0
IsStaged n drafts =
    ((j : String) → count j (all_keys drafts) ≤ 1)
    × ((i : String) → count i (ids drafts) ≤ 1)
    × ((m : ℕ) → n ≤ m → count (draft_id m) (ids drafts) ≡ 0)

thinned :
    (n : ℕ) (drafts next : List DraftComposition)
    → IsStaged n drafts
    → ((j : String) → count j (all_keys next) ≤ 1)
    → ((i : String) → count i (ids next) ≤ count i (ids drafts))
    → IsStaged n next
unfolding IsStaged
thinned n drafts next (once, apart, free) keys fewer =
    (keys, λ i. omega (arith, apart i, fewer i), λ m h. omega (arith, free m h, fewer (draft_id m)))

pub later-IsStaged :
    (n : ℕ) (drafts : List DraftComposition) → IsStaged n drafts → IsStaged (n + 1) drafts
unfolding IsStaged
later-IsStaged n drafts (once, apart, free) = (once, apart, λ m h. free m (omega arith))

pub empty-IsStaged : (n : ℕ) → IsStaged n []
unfolding IsStaged
empty-IsStaged n = (λ j. omega arith, λ i. omega arith, λ m h. refl)

counted_once : (xs : List String) → ((i : String) → count i xs ≤ 1) → IsDistinct xs
counted_once [] h = tt
counted_once (x ∷ xs) h = (
  not_contains_of_count x xs (ground (arith, h x, eq_refl x)),
  counted_once xs (λ i. ground (arith, h i)),
)

ids-drafts_without :
    (i key : String) (drafts : List DraftComposition)
    → count i (ids (drafts_without key drafts)) ≤ count i (ids drafts)
unfolding drafts_without
ids-drafts_without i key [] = omega arith
ids-drafts_without i key (d ∷ drafts) = ground (arith, ids-drafts_without i key drafts)

ids-remove :
    (i key : String) (drafts : List DraftComposition)
    → count i (ids (remove_hand_key_from_drafts drafts key)) ≤ count i (ids drafts)
unfolding remove_hand_key_from_drafts
ids-remove i key drafts = ground (arith, ids-drafts_without i key drafts)

ids-prune :
    (i : String) (drafts : List DraftComposition) (valid : List String)
    → count i (ids (prune_draft_compositions drafts valid)) ≤ count i (ids drafts)
unfolding prune_draft_compositions
ids-prune i [] valid = omega arith
ids-prune i (d ∷ drafts) valid = ground (arith, ids-prune i drafts valid)

ids-set :
    (drafts : List DraftComposition) (i : ℕ) (d e : DraftComposition)
    → get_elem? drafts i ≡ some d
    → e.id ≡ d.id
    → ids (set drafts i e) ≡ ids drafts
ids-set [] i d e found same = refl
ids-set (x ∷ drafts) zero d e found same = ground (arith, found, same)
ids-set (x ∷ drafts) (suc i) d e found same =
    ap (λ rest. x.id ∷ rest) (ids-set drafts i d e found same)

ids-insert_into_target :
    (next : List DraftComposition) (key id : String) (over : Option String)
    → ids (insert_into_target next key id over) ≡ ids next
unfolding insert_into_target
ids-insert_into_target next key id over = elim (Option-cases (find_index? (λ d. d.id == id) next)) [
  | inl absent ↦ rw (absent, insert_into_target) refl
  | inr (i, at) ↦ elim (Option-cases (get_elem? next i)) [
    | inl absent ↦ rw (at, insert_into_target) (rw absent refl)
    | inr (target, found) ↦
        rw (at, insert_into_target) (rw found (ids-set next i target _ found refl))
  ]
]

-- A map that keeps each id, and one that keeps the keys too.
ids-map :
    (f : DraftComposition → DraftComposition) (drafts : List DraftComposition)
    → ((d : DraftComposition) → (f d).id ≡ d.id)
    → ids (map f drafts) ≡ ids drafts
ids-map f [] same = refl
ids-map f (d ∷ drafts) same = ground (arith, same d, ids-map f drafts same)

all_keys-map :
    (f : DraftComposition → DraftComposition) (drafts : List DraftComposition)
    → ((d : DraftComposition) → (f d).hand_keys ≡ d.hand_keys)
    → all_keys (map f drafts) ≡ all_keys drafts
all_keys-map f [] same = refl
all_keys-map f (d ∷ drafts) same = ground (arith, same d, all_keys-map f drafts same)

map-IsStaged :
    (n : ℕ) (f : DraftComposition → DraftComposition) (drafts : List DraftComposition)
    → ((d : DraftComposition) → (f d).id ≡ d.id)
    → ((d : DraftComposition) → (f d).hand_keys ≡ d.hand_keys)
    → IsStaged n drafts
    → IsStaged n (map f drafts)
unfolding IsStaged
map-IsStaged n f drafts id keys (once, apart, free) =
    thinned n drafts (map f drafts) (once, apart, free)
      (λ j. subst (λ xs. count j xs ≤ 1) (sym (all_keys-map f drafts keys)) (once j))
      (λ i.
        subst (λ xs. count i xs ≤ count i (ids drafts)) (sym (ids-map f drafts id)) (omega arith))

pub prune-IsStaged :
    (n : ℕ) (drafts : List DraftComposition) (valid : List String)
    → IsStaged n drafts
    → IsStaged n (prune_draft_compositions drafts valid)
unfolding IsStaged
prune-IsStaged n drafts valid (once, apart, free) =
    thinned n drafts _ (once, apart, free)
      (λ j. ground (arith, once j, (prune_draft_compositions-count drafts valid).0 j))
      (λ i. ids-prune i drafts valid)

pub remove-IsStaged :
    (n : ℕ) (drafts : List DraftComposition) (key : String)
    → IsStaged n drafts
    → IsStaged n (remove_hand_key_from_drafts drafts key)
unfolding IsStaged
remove-IsStaged n drafts key (once, apart, free) =
    thinned n drafts _ (once, apart, free)
      (λ j. ground (arith, once j, remove_hand_key_from_drafts-count drafts key j))
      (λ i. ids-remove i key drafts)

all_keys-append :
    (j : String) (drafts : List DraftComposition) (d : DraftComposition)
    → count j (all_keys (drafts ++ d ∷ [])) ≡ count j (all_keys drafts) + count j d.hand_keys
all_keys-append j [] d = ground (arith, count-append j d.hand_keys [])
all_keys-append j (x ∷ drafts) d = ground (
  arith,
  all_keys-append j drafts d,
  count-append j x.hand_keys (all_keys (drafts ++ d ∷ [])),
  count-append j x.hand_keys (all_keys drafts),
)

ids-append :
    (i : String) (drafts : List DraftComposition) (d : DraftComposition)
    → count i (ids (drafts ++ d ∷ [])) ≡ count i (ids drafts) + (if d.id == i then 1 else 0)
ids-append i [] d = ground arith
ids-append i (x ∷ drafts) d = ground (arith, ids-append i drafts d)

some_inj : {s t : String} → some s ≡ some t → s ≡ t
some_inj e = cc

draft_id_inj : (m n : ℕ) → draft_id m ≡ draft_id n → m ≡ n
draft_id_inj m n e =
    let both : some (show m) ≡ some (show n) =
      sym (strip_prefix-append "draft-" (show m))
      ∙ ap (strip_prefix "draft-") e
      ∙ strip_prefix-append "draft-" (show n) in
    show_inj m n (some_inj both)

-- A new draft of one key, which the others do not hold any more, with the next id.
pub stage_new-IsStaged :
    (n : ℕ) (drafts : List DraftComposition) (key : String) (new : DraftComposition)
    → new.id ≡ draft_id n
    → new.hand_keys ≡ key ∷ []
    → IsStaged n drafts
    → IsStaged (n + 1) (remove_hand_key_from_drafts drafts key ++ new ∷ [])
unfolding IsStaged
stage_new-IsStaged n drafts key new id keys (once, apart, free) =
    let removed = remove_hand_key_from_drafts drafts key in
    let fresh = free n (omega arith) in
    (
      λ j. ground (
        arith,
        once j,
        keys,
        all_keys-append j removed new,
        remove_hand_key_from_drafts-count drafts key j,
      ),
      λ i. elim (Bool-cases (new.id == i)) [
        | inr other ↦
            ground (arith, other, apart i, ids-append i removed new, ids-remove i key drafts)
        | inl same ↦
            let at : draft_id n ≡ i = sym id ∙ (string_eq.equal_iff new.id i).0 same in
            let none_yet = subst (λ x. count x (ids drafts) ≡ 0) at fresh in
            ground (arith, same, none_yet, ids-append i removed new, ids-remove i key drafts)
      ],
      λ m h. elim (Bool-cases (new.id == draft_id m)) [
        | inr other ↦ ground (
          arith,
          other,
          free m (omega (arith, h)),
          ids-append (draft_id m) removed new,
          ids-remove (draft_id m) key drafts,
        )
        | inl same ↦ absurd (
            omega (
              arith,
              h,
              draft_id_inj n m (sym id ∙ (string_eq.equal_iff new.id (draft_id m)).0 same),
            ))
      ],
    )

ids-reorder :
    (array_move : (A : Type 0) → List A → ℕ → ℕ → List A) (drafts : List DraftComposition)
    (s : DraftComposition) (key over : String)
    → ids (reorder_in_draft array_move drafts s key over) ≡ ids drafts
unfolding reorder_in_draft
ids-reorder array_move drafts s key over = elim (Option-cases (index_in s.hand_keys key)) [
  | inl absent ↦ rw (absent, reorder_in_draft) refl
  | inr (old, at) ↦ elim (Option-cases (index_in s.hand_keys over)) [
    | inl absent ↦ rw (at, reorder_in_draft) (rw absent refl)
    | inr (new, at') ↦ elim (Bool-cases (old == new)) [
      | inl same ↦ rw (at, reorder_in_draft) (rw at' (rw same refl))
      | inr different ↦
          rw (at, reorder_in_draft) (rw at' (rw different (ids-map _ drafts (λ d. ground arith))))
    ]
  ]
]

other_key : (key : String) → (k : String) × ((key == k) ≡ false)
other_key key = elim (Bool-cases (key == "")) [
  | inr full ↦ ("", full)
  | inl empty ↦
      ("a", subst (λ k. (k == "a") ≡ false) (sym ((string_eq.equal_iff key "").0 empty)) refl)
]

module _ (array_move : (A : Type 0) → List A → ℕ → ℕ → List A)
    (array_move_perm : (A : Type 0) (xs : List A) (i j : ℕ)
      → i < length xs
      → j < length xs
      → Perm (array_move A xs i j) xs) where
  ids-insert :
      (drafts : List DraftComposition) (key id : String) (over : Option String) (i : String)
      → count i (ids (insert_hand_key_into_draft array_move drafts key id over))
        ≤ count i (ids drafts)
  ids-insert drafts key id over i =
      elim (insert_cases array_move array_move_perm drafts key id over) [
        | inl moved ↦ rw moved (
            subst (λ xs. count i xs ≤ count i (ids drafts))
              (sym (
                ids-insert_into_target (remove_hand_key_from_drafts drafts key) key id
                  (truthy over)))
              (ids-remove i key drafts))
        | inr (s, o, found, reordered) ↦ rw reordered (
            subst (λ xs. count i xs ≤ count i (ids drafts))
              (sym (ids-reorder array_move drafts s key o)) (omega arith))
      ]

  pub insert-IsStaged :
      (n : ℕ) (drafts : List DraftComposition) (key id : String) (over : Option String)
      → IsStaged n drafts
      → IsStaged n (insert_hand_key_into_draft array_move drafts key id over)
  unfolding IsStaged
  insert-IsStaged n drafts key id over (once, apart, free) =
      thinned n drafts _ (once, apart, free)
        (λ j.
          let after = λ (k : String) (other : (key == k) ≡ false).
            insert_hand_key_into_draft-count array_move array_move_perm drafts key id k over
              (counted_once (ids drafts) apart) (once key) other in
          elim (Bool-cases (key == j)) [
            | inr other ↦ omega (arith, (after j other).0, once j)
            | inl same ↦
                let (k, other) = other_key key in
                subst
                  (λ x.
                    count x (all_keys (insert_hand_key_into_draft array_move drafts key id over))
                    ≤ 1)
                  ((string_eq.equal_iff key j).0 same) ((after k other).1)
          ])
        (ids-insert drafts key id over)

-- What sets the places of a draft or of a card in it.
pub move_index-IsStaged :
    (n : ℕ) (drafts : List DraftComposition) (id : String) (i : ℕ)
    → IsStaged n drafts
    → IsStaged n (move_draft_composition_insert_index drafts id i)
unfolding move_draft_composition_insert_index
move_index-IsStaged n drafts id i v =
    map-IsStaged n _ drafts (λ d. ground arith) (λ d. ground arith) v

pub set_index-IsStaged :
    (n : ℕ) (drafts : List DraftComposition) (id key : String) (i : ℕ)
    → IsStaged n drafts
    → IsStaged n (set_draft_card_insert_index drafts id key i)
unfolding set_draft_card_insert_index
set_index-IsStaged n drafts id key i v =
    map-IsStaged n _ drafts (λ d. ground arith) (λ d. ground arith) v

pub set_target-IsStaged :
    (n : ℕ) (drafts : List DraftComposition) (id key : String) (i : ℕ)
    → IsStaged n drafts
    → IsStaged n (set_draft_card_reclaim_target drafts id key i)
unfolding set_draft_card_reclaim_target
set_target-IsStaged n drafts id key i v =
    map-IsStaged n _ drafts (λ d. ground arith) (λ d. ground arith) v
