-- ===== src/Drafts/Insertion.antt =====
-- Putting a hand key into its target draft: the key comes in once and no other changes.
use compositions.Prelude.{
  ℕ, suc, zero, ◌+◌, ◌≤◌, ◌<◌, ◌≡◌, refl, String, Bool, ◌&&◌, Option, none, some, List, [], ◌∷◌,
  eq_iff, arith, ◌==◌, ◌!=◌, if◌then◌else◌, count, filter, find?, find_index?, get_elem?, set, take,
  drop, length, string_eq, nat_eq, Option-cases, inl, inr, ap, sym, ◌∙◌, count-append,
  count-filter_ne, take-append-drop, find_index?-lt-length, get_elem?-find_index?, is_some,
}
use compositions.Drafts.{DraftComposition, index_in, insert_key, find_draft, insert_into_target}
use compositions.Drafts.Removal.{all_keys}

pub count-insert_key :
    (j : String) (keys : List String) (key : String) (over : Option String)
    → count j (insert_key keys key over) ≡ count j keys + (if key == j then 1 else 0)
unfolding insert_key
count-insert_key j keys key none = ground (arith, count-append j keys (key ∷ []))
count-insert_key j keys key (some o) = elim (Option-cases (index_in keys o)) [
  | inl absent ↦ rw (absent, insert_key) (ground (arith, count-append j keys (key ∷ [])))
  | inr (i, present) ↦
      rw (present, insert_key)
        (ground (
          arith,
          count-append j (take i keys) (key ∷ drop i keys),
          count-append j (take i keys) (drop i keys),
          ap (count j) (take-append-drop i keys),
        ))
]

count-set :
    (j : String) (drafts : List DraftComposition) (i : ℕ) (target new : DraftComposition)
    → get_elem? drafts i ≡ some target
    → count j (all_keys (set drafts i new)) + count j target.hand_keys
      ≡ count j (all_keys drafts) + count j new.hand_keys
count-set j [] i target new e = absurd (cc)
count-set j (d ∷ drafts) zero target new e =
    let same : d ≡ target = ground arith in
    rw (← same) (
      omega (
        arith,
        count-append j new.hand_keys (all_keys drafts),
        count-append j d.hand_keys (all_keys drafts),
      ))
count-set j (d ∷ drafts) (suc i) target new e = omega (
  arith,
  count-set j drafts i target new e,
  count-append j d.hand_keys (all_keys drafts),
  count-append j d.hand_keys (all_keys (set drafts i new)),
)

count-get_elem?-le :
    (j : String) (drafts : List DraftComposition) (i : ℕ) (target : DraftComposition)
    → get_elem? drafts i ≡ some target
    → count j target.hand_keys ≤ count j (all_keys drafts)
count-get_elem?-le j [] i target e = absurd (cc)
count-get_elem?-le j (d ∷ drafts) zero target e =
    let same : d ≡ target = ground arith in
    rw (← same) (omega (arith, count-append j d.hand_keys (all_keys drafts)))
count-get_elem?-le j (d ∷ drafts) (suc i) target e =
    omega
      (arith, count-get_elem?-le j drafts i target e, count-append j d.hand_keys (all_keys drafts))

-- The target with the key in it.
abbrev pub with_key : DraftComposition → String → Option String → DraftComposition
with_key target key over = record target {
  hand_keys = insert_key (filter (λ k. k != key) target.hand_keys) key over;
}

pub insert_into_target_absent :
    (next : List DraftComposition) (key id : String) (over : Option String)
    → find_index? (λ d. d.id == id) next ≡ none
    → insert_into_target next key id over ≡ next
unfolding insert_into_target
insert_into_target_absent next key id over e = rw (e, insert_into_target)

pub insert_into_target_present :
    (next : List DraftComposition) (key id : String) (over : Option String) (i : ℕ)
    (target : DraftComposition)
    → find_index? (λ d. d.id == id) next ≡ some i
    → get_elem? next i ≡ some target
    → insert_into_target next key id over ≡ set next i (with_key target key over)
unfolding insert_into_target
insert_into_target_present next key id over i target e f = rw (e, insert_into_target) (rw f)

pub find?-absent :
    (p : DraftComposition → Bool) (drafts : List DraftComposition)
    → find_index? p drafts ≡ none
    → find? p drafts ≡ none
find?-absent p [] e = refl
find?-absent p (d ∷ drafts) e = ground (arith, find?-absent p drafts)

pub get_elem?-lt :
    (drafts : List DraftComposition) (i : ℕ)
    → i < length drafts
    → (d : DraftComposition) × (get_elem? drafts i ≡ some d)
get_elem?-lt [] i h = absurd (omega arith)
get_elem?-lt (d ∷ drafts) zero h = (d, refl)
get_elem?-lt (d ∷ drafts) (suc i) h = get_elem?-lt drafts i (omega arith)

-- Where the target is found the key comes in once, and nothing else changes.
pub insert_into_target-count :
    (next : List DraftComposition) (key id : String) (over : Option String) (j : String)
    → count key (all_keys next) ≡ 0
    → count j (all_keys (insert_into_target next key id over))
      ≡ count j (all_keys next) + (if key == j && is_some (find_draft next id) then 1 else 0)
insert_into_target-count next key id over j free =
    elim (Option-cases (find_index? (λ d. d.id == id) next)) [
      | inl absent ↦
          rw (insert_into_target_absent next key id over absent)
            (ground (arith, find?-absent (λ d. d.id == id) next absent))
      | inr (i, present) ↦
          let (target, at) =
            get_elem?-lt next i (find_index?-lt-length (λ d. d.id == id) next i present) in
          let found : find_draft next id ≡ some target =
            sym (get_elem?-find_index? (λ d. d.id == id) next i present) ∙ at in
          rw (insert_into_target_present next key id over i target present at) (
            ground (
              arith,
              found,
              count-set j next i target (with_key target key over) at,
              count-insert_key j (filter (λ k. k != key) target.hand_keys) key over,
              count-filter_ne j key target.hand_keys,
              count-get_elem?-le key next i target at,
              eq_iff key j,
            ))
    ]
