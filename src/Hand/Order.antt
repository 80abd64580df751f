-- ===== src/Hand/Order.antt =====
-- Ordering the hand by the player's keys loses no card and invents none.
use compositions.Prelude.{
  ◌≡◌, refl, String, Bool, true, false, not, ◌&&◌, some, List, [], ◌∷◌, ◌++◌, eq_iff, arith, ◌==◌,
  contains, IsDistinct, filter, filter_all, filter_congr, string_eq, Bool-cases, Option-cases, inl,
  inr, ap, sym, subst, Perm, ◌∙◌,
}
use mathlib.Core.List.Perm
use mathlib.Core.List.{perm_middle}
use compositions.Prelude.Maps.{lookup, keys, lookup-of_entries}
use compositions.Hand.{
  HandEntry, hand_entry_order, keyed, entry_by_key, map_hand_keys_to_entries,
  apply_hand_entry_order,
}

keys-keyed : (entries : List HandEntry) → keys (keyed entries) ≡ hand_entry_order entries
unfolding hand_entry_order
keys-keyed [] = refl
keys-keyed (entry ∷ entries) = ap (λ ks. entry.key ∷ ks) (keys-keyed entries)

lookup-entry_by_key :
    (key : String) (entries : List HandEntry)
    → IsDistinct (hand_entry_order entries)
    → lookup key (entry_by_key entries) ≡ lookup key (keyed entries)
lookup-entry_by_key key entries h =
    lookup-of_entries key (keyed entries) (subst IsDistinct (sym (keys-keyed entries)) h)

-- The entries that a test keeps, without the one of a key.
abbrev without : String → (HandEntry → Bool) → HandEntry → Bool
without key p entry = p entry && not (key == entry.key)

filter-without :
    (key : String) (p : HandEntry → Bool) (entries : List HandEntry)
    → contains (hand_entry_order entries) key ≡ false
    → filter (without key p) entries ≡ filter p entries
unfolding hand_entry_order
filter-without key p [] h = refl
filter-without key p (entry ∷ entries) h =
    ground (arith, filter-without key p entries, eq_iff key entry.key, eq_iff entry.key key)

lookup-key :
    (key : String) (entries : List HandEntry) (found : HandEntry)
    → lookup key (keyed entries) ≡ some found
    → found.key ≡ key
lookup-key key [] found e = absurd (cc)
lookup-key key (entry ∷ entries) found e =
    ground (arith, lookup-key key entries found, eq_iff entry.key key)

-- The entry of a key can be taken out of the entries with different keys that a test keeps.
take_out :
    (key : String) (p : HandEntry → Bool) (entries : List HandEntry) (found : HandEntry)
    → IsDistinct (hand_entry_order entries)
    → lookup key (keyed entries) ≡ some found
    → p found ≡ true
    → Perm (filter p entries) (found ∷ filter (without key p) entries)
unfolding hand_entry_order
take_out key p [] found d e kept = absurd (cc)
take_out key p (entry ∷ entries) found (new, d) e kept = elim (Bool-cases (entry.key == key)) [
  | inl same ↦
      let at_key = (eq_iff entry.key key).0 same in
      let here : entry ≡ found = ground arith in
      let stays =
        filter-without key p entries
          (subst (λ k. contains (hand_entry_order entries) k ≡ false) at_key new) in
      let gone : not (key == entry.key) ≡ false = ground (arith, eq_iff key entry.key) in
      let kept' : p entry ≡ true = rw here kept in rw (kept', gone, stays, here) (Perm.refl _)
  | inr other ↦
      let ih = take_out key p entries found d (ground arith) kept in
      let stays : not (key == entry.key) ≡ true =
        ground (arith, eq_iff key entry.key, eq_iff entry.key key) in
      elim (Bool-cases (p entry)) [
        | inl passes ↦
            rw (passes, stays)
              (Perm.trans (Perm.cons entry ih)
                (Perm.swap found entry (filter (without key p) entries)))
        | inr fails ↦ rw fails ih
      ]
]

-- The test that the second loop makes, after some keys were pushed.
abbrev unseen : List String → HandEntry → Bool
unseen seen entry = not (contains seen entry.key)

module _ (entries : List HandEntry) (h : IsDistinct (hand_entry_order entries)) where
  abbrev pushed : List String → List HandEntry
  pushed ordered_keys = map_hand_keys_to_entries ordered_keys (entry_by_key entries)

  pushed_key :
      (key : String) (found : HandEntry)
      → lookup key (entry_by_key entries) ≡ some found
      → found.key ≡ key
  pushed_key key found e =
      lookup-key key entries found (sym (lookup-entry_by_key key entries h) ∙ e)

  pushed_absent :
      (ordered_keys : List String) (key : String)
      → contains ordered_keys key ≡ false
      → contains (hand_entry_order (pushed ordered_keys)) key ≡ false
  unfolding map_hand_keys_to_entries hand_entry_order
  pushed_absent [] key e = refl
  pushed_absent (k ∷ ordered_keys) key e = elim (Option-cases (lookup k (entry_by_key entries))) [
    | inl absent ↦
        rw (absent, map_hand_keys_to_entries) (pushed_absent ordered_keys key (ground arith))
    | inr (found, present) ↦
        let at_key = pushed_key k found present in
        let rest = pushed_absent ordered_keys key (ground arith) in
        rw (present, map_hand_keys_to_entries) (ground arith)
  ]

  pushed-perm :
      (ordered_keys : List String)
      → IsDistinct ordered_keys
      → Perm
          (pushed ordered_keys ++ filter (unseen (hand_entry_order (pushed ordered_keys))) entries)
          entries
  unfolding map_hand_keys_to_entries hand_entry_order
  pushed-perm [] d = rw (filter_all (unseen []) entries (λ _. refl)) (Perm.refl entries)
  pushed-perm (key ∷ ordered_keys) (new, d) =
      elim (Option-cases (lookup key (entry_by_key entries))) [
        | inl absent ↦ rw (absent, map_hand_keys_to_entries) (pushed-perm ordered_keys d)
        | inr (found, present) ↦
            let seen = hand_entry_order (pushed ordered_keys) in
            let at_key = pushed_key key found present in
            let fresh = pushed_absent ordered_keys key new in
            let kept : unseen seen found ≡ true = rw at_key (rw fresh refl) in
            let out =
              take_out key (unseen seen) entries found h
                (sym (lookup-entry_by_key key entries h) ∙ present) kept in
            let tests =
              filter_congr (unseen (found.key ∷ seen)) (without key (unseen seen)) entries
                (λ x. rw at_key (ground arith)) in
            rw (present, map_hand_keys_to_entries)
              (rw tests (
                Perm.trans (Perm.symm (perm_middle (pushed ordered_keys) _)) (
                  Perm.trans (Perm.append_left (pushed ordered_keys) (Perm.symm out))
                    (pushed-perm ordered_keys d))))
      ]

-- Whatever keys the player's order names, present or not, the ordered hand holds the same entries
-- as before, if no two entries share a key and the order names no key twice.
pub apply_hand_entry_order-perm :
    (entries : List HandEntry) (ordered_keys : List String)
    → IsDistinct (hand_entry_order entries)
    → IsDistinct ordered_keys
    → Perm (apply_hand_entry_order entries ordered_keys) entries
unfolding apply_hand_entry_order
apply_hand_entry_order-perm entries [] h d = Perm.refl entries
apply_hand_entry_order-perm entries (key ∷ ordered_keys) h d =
    pushed-perm entries h (key ∷ ordered_keys) d
