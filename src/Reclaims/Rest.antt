-- ===== src/Reclaims/Rest.antt =====
-- The staged entries that a plan leaves: those whose keys it does not report.
use compositions.Prelude.{
  ℕ, ◌+◌, ◌≤◌, ◌≡◌, refl, String, true, false, not, Option, List, [], ◌∷◌, ◌++◌, map, contains,
  count, count_present, count-le-one, not_contains_of_count, count-append, filter, filter-append,
  IsDistinct, string_eq, Perm, arith, ap, ◌∙◌,
}
use mathlib.Core.List.Perm
use text.Mathlib.TextPositions.{eq_refl}
use compositions.Prelude.Perms.{filter-Perm, count-Perm}
use compositions.Snapshots.{Composition}
use compositions.Hand.{HandEntry, hand_entry_order}
use compositions.Reclaims.{PlannedReclaim, reclaimed_keys, plan_table_joker_reclaims}
use compositions.Reclaims.Inferred.{replacing}
use compositions.Reclaims.Explicit.{plan-split}

-- The staged entries that are not among those of some keys.
abbrev pub left_of : List String → List HandEntry → List HandEntry
left_of keys = filter (λ entry. not (contains keys entry.key))

order-map : (entries : List HandEntry) → hand_entry_order entries ≡ map (λ entry. entry.key) entries
unfolding hand_entry_order
order-map [] = refl
order-map (entry ∷ entries) = ap (λ keys. entry.key ∷ keys) (order-map entries)

order-count :
    (j : String) (xs ys : List HandEntry)
    → Perm xs ys
    → count j (hand_entry_order xs) ≡ count j (hand_entry_order ys)
order-count j xs ys p =
    rw (order-map xs, order-map ys) (count-Perm j (Perm.map (λ entry. entry.key) p))

order-append :
    (xs ys : List HandEntry)
    → hand_entry_order (xs ++ ys) ≡ hand_entry_order xs ++ hand_entry_order ys
unfolding hand_entry_order
order-append [] ys = refl
order-append (entry ∷ xs) ys = ap (λ keys. entry.key ∷ keys) (order-append xs ys)

order-replacing :
    (reclaims : List PlannedReclaim)
    → hand_entry_order (replacing reclaims) ≡ reclaimed_keys reclaims
unfolding hand_entry_order
order-replacing [] = refl
order-replacing (r ∷ reclaims) =
    ap (λ keys. r.replacement_entry.key ∷ keys) (order-replacing reclaims)

none_left :
    (keys : List String) (entries : List HandEntry)
    → ((j : String) → contains (hand_entry_order entries) j ≡ true → contains keys j ≡ true)
    → left_of keys entries ≡ []
unfolding hand_entry_order
none_left keys [] h = refl
none_left keys (entry ∷ entries) h =
    let rest = none_left keys entries (λ j c. h j (ground (arith, c))) in
    rw (h entry.key (ground (arith, eq_refl entry.key))) rest

all_left :
    (keys : List String) (entries : List HandEntry)
    → ((j : String) → contains (hand_entry_order entries) j ≡ true → contains keys j ≡ false)
    → left_of keys entries ≡ entries
unfolding hand_entry_order
all_left keys [] h = refl
all_left keys (entry ∷ entries) h =
    let rest = all_left keys entries (λ j c. h j (ground (arith, c))) in
    rw (h entry.key (ground (arith, eq_refl entry.key))) (ap (λ xs. entry ∷ xs) rest)

left_of-perm :
    (used rest entries : List HandEntry)
    → IsDistinct (hand_entry_order entries)
    → Perm (used ++ rest) entries
    → Perm (used ++ left_of (hand_entry_order used) entries) entries
left_of-perm used rest entries distinct p =
    let keys = hand_entry_order used in
    let once : (j : String) → count j keys + count j (hand_entry_order rest) ≤ 1 = λ j. omega (
      arith,
      count-le-one j (hand_entry_order entries) distinct,
      order-count j (used ++ rest) entries p,
      ap (count j) (order-append used rest),
      count-append j keys (hand_entry_order rest),
    ) in
    let free = all_left keys rest (λ j c.
      not_contains_of_count j keys
        (omega (arith, once j, count_present j (hand_entry_order rest) c))) in
    let kept : left_of keys (used ++ rest) ≡ rest =
      filter-append (λ entry. not (contains keys entry.key)) used rest
      ∙ rw (none_left keys used (λ j c. c), free) refl in
    Perm.trans
      (Perm.append_left used (
        Perm.trans (Perm.symm (filter-Perm (λ entry. not (contains keys entry.key)) p))
          (rw kept Perm.rfl)))
      p

-- A plan and the entries whose keys it does not report are together the staged entries, each once,
-- where the staged entries have different keys.
pub plan_table_joker_reclaims-perm :
    (composition : Composition) (entries : List HandEntry) (insert_index : ℕ)
    (targets : Option (List (String × ℕ)))
    → IsDistinct (hand_entry_order entries)
    → Perm
        (replacing (plan_table_joker_reclaims composition entries insert_index targets).reclaims
          ++ left_of
              (plan_table_joker_reclaims composition entries insert_index
                targets).reclaimed_entry_keys
              entries)
        entries
plan_table_joker_reclaims-perm composition entries insert_index targets distinct =
    let (keys, (rest, p)) = plan-split composition entries insert_index targets in
    let reclaims = (plan_table_joker_reclaims composition entries insert_index targets).reclaims in
    rw (keys, ← order-replacing reclaims)
      (left_of-perm (replacing reclaims) rest entries distinct p)
