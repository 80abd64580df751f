-- ===== src/Drafts/Position.antt =====
-- Where an inserted key stands, and what becomes of a draft whose only key is inserted into it.
use compositions.Prelude.{
  ℕ, suc, zero, ◌≡◌, refl, String, Bool, true, false, Option, none, some, List, [], ◌∷◌, ◌++◌,
  eq_iff, arith, ◌==◌, ◌!=◌, contains, count, filter, any, find?, find_index?, set, take, drop,
  string_eq, Bool-cases, inl, inr, ap, sym, subst, ◌∙◌, take-append-drop, get_elem?-find_index?,
  IsDistinct,
}
use text.Mathlib.TextPositions.{eq_refl}
use compositions.Drafts.{
  DraftComposition, index_in, insert_key, find_draft, insert_into_target, drafts_without,
  remove_hand_key_from_drafts, insert_hand_key_into_draft,
}
use compositions.Drafts.Insertion.{with_key, insert_into_target_absent, insert_into_target_present}
use compositions.Drafts.Removal.{all_keys}
use compositions.Drafts.Moving.{ids, cleared}

split_at :
    (keys : List String) (over : String)
    → contains keys over ≡ true
    → (i : ℕ) × (after : List String) × (index_in keys over ≡ some i)
      × (drop i keys ≡ over ∷ after)
      × (contains (take i keys) over ≡ false)
split_at [] over h = absurd (cc)
split_at (k ∷ keys) over h = elim (Bool-cases (k == over)) [
  | inl here ↦ (0, keys, rw here refl, ap (λ x. x ∷ keys) ((eq_iff k over).0 here), refl)
  | inr later ↦
      let (i, after, at, rest, unseen) = split_at keys over (ground arith) in
      (suc i, after, rw (later, at) refl, rest, rw (later, unseen) refl)
]

-- The key comes before the first occurrence of the key that it is dropped over, and the keys around
-- it keep their order.
insert_key-before :
    (keys : List String) (key over : String)
    → contains keys over ≡ true
    → (before : List String) × (after : List String) × (keys ≡ before ++ (over ∷ after))
      × (contains before over ≡ false)
      × (insert_key keys key (some over) ≡ before ++ (key ∷ over ∷ after))
unfolding insert_key
insert_key-before keys key over h =
    let (i, after, at, rest, unseen) = split_at keys over h in
    (
      take i keys,
      after,
      sym (take-append-drop i keys) ∙ ap (λ ks. take i keys ++ ks) rest,
      unseen,
      rw (at, insert_key) (rw rest refl),
    )

find?-set :
    (p : DraftComposition → Bool) (drafts : List DraftComposition) (i : ℕ) (new : DraftComposition)
    → find_index? p drafts ≡ some i
    → p new ≡ true
    → find? p (set drafts i new) ≡ some new
find?-set p [] i new e h = absurd (cc)
find?-set p (d ∷ drafts) zero new e h = ground arith
find?-set p (d ∷ drafts) (suc i) new e h = ground (arith, find?-set p drafts i new)

find_index?_of_find? :
    (p : DraftComposition → Bool) (drafts : List DraftComposition) (target : DraftComposition)
    → find? p drafts ≡ some target
    → (i : ℕ) × (find_index? p drafts ≡ some i) × (p target ≡ true)
find_index?_of_find? p [] target e = absurd (cc)
find_index?_of_find? p (d ∷ drafts) target e = elim (Bool-cases (p d)) [
  | inl here ↦ (0, rw here refl, ground arith)
  | inr later ↦
      let (i, at, holds) = find_index?_of_find? p drafts target (ground arith) in
      (suc i, rw (later, at) refl, holds)
]

-- If a draft of the target id is left once the key was taken out of the drafts, the first such draft
-- gets the key, at its end or before the key that it is dropped over, and is otherwise as it was.
insert_into_target-find_draft :
    (next : List DraftComposition) (key id : String) (over : Option String)
    (target : DraftComposition)
    → find_draft next id ≡ some target
    → find_draft (insert_into_target next key id over) id ≡ some (with_key target key over)
insert_into_target-find_draft next key id over target e =
    let (i, at, named) = find_index?_of_find? (λ d. d.id == id) next target e in
    let here = get_elem?-find_index? (λ d. d.id == id) next i at ∙ e in
    rw (insert_into_target_present next key id over i target at here)
      (find?-set (λ d. d.id == id) next i (with_key target key over) at named)

drafts_without-ids :
    (key id : String) (drafts : List DraftComposition)
    → contains (ids drafts) id ≡ false
    → contains (ids (drafts_without key drafts)) id ≡ false
unfolding drafts_without
drafts_without-ids key id [] h = refl
drafts_without-ids key id (d ∷ drafts) h = ground (arith, drafts_without-ids key id drafts)

emptied :
    (key id : String) (drafts : List DraftComposition) (target : DraftComposition)
    → IsDistinct (ids drafts)
    → find_draft drafts id ≡ some target
    → target.hand_keys ≡ key ∷ []
    → (contains (ids (drafts_without key drafts)) id ≡ false)
      × (any (λ d. contains d.hand_keys key) drafts ≡ true)
unfolding drafts_without
emptied key id [] target h e only = absurd (cc)
emptied key id (d ∷ drafts) target (new, h) e only = elim (Bool-cases (d.id == id)) [
  | inl here ↦
      let named = (eq_iff d.id id).0 here in
      let same : d ≡ target = ground arith in
      let keys : d.hand_keys ≡ key ∷ [] = rw same only in
      let rest =
        drafts_without-ids key id drafts
          (subst (λ (s : String). contains (ids drafts) s ≡ false) named new) in
      let empty : filter (λ k. k != key) d.hand_keys ≡ [] = rw keys (rw (eq_refl key) refl) in
      (rw empty rest, rw keys (rw (eq_refl key) refl))
  | inr later ↦
      let (gone, held) = emptied key id drafts target h (ground arith) only in
      (ground (arith, gone), ground (arith, held))
]

find_index?_absent :
    (id : String) (drafts : List DraftComposition)
    → contains (ids drafts) id ≡ false
    → find_index? (λ d. d.id == id) drafts ≡ none
find_index?_absent id [] h = refl
find_index?_absent id (d ∷ drafts) h = ground (arith, find_index?_absent id drafts)

insert_none :
    (array_move : (A : Type 0) → List A → ℕ → ℕ → List A) (drafts : List DraftComposition)
    (key id : String)
    → insert_hand_key_into_draft array_move drafts key id none
      ≡ insert_into_target (remove_hand_key_from_drafts drafts key) key id none
unfolding insert_hand_key_into_draft
insert_none array_move drafts key id = ground arith

-- Inserting the only key of a draft into that same draft, over none of its keys, removes the draft:
-- no draft of that id is left, and the key is in no draft, so the card is back in the hand.
pub insert_hand_key_into_draft-only_key :
    (array_move : (A : Type 0) → List A → ℕ → ℕ → List A) (drafts : List DraftComposition)
    (key id : String) (target : DraftComposition)
    → IsDistinct (ids drafts)
    → find_draft drafts id ≡ some target
    → target.hand_keys ≡ key ∷ []
    → (contains (ids (insert_hand_key_into_draft array_move drafts key id none)) id ≡ false)
      × (count key (all_keys (insert_hand_key_into_draft array_move drafts key id none)) ≡ 0)
unfolding remove_hand_key_from_drafts
insert_hand_key_into_draft-only_key array_move drafts key id target h e only =
    let (gone, held) = emptied key id drafts target h e only in
    let next : remove_hand_key_from_drafts drafts key ≡ drafts_without key drafts = rw held refl in
    let result =
      insert_none array_move drafts key id
      ∙ insert_into_target_absent (remove_hand_key_from_drafts drafts key) key id none
          (rw next (find_index?_absent id (drafts_without key drafts) gone)) in
    (rw result (rw next gone), rw result (cleared drafts key))
