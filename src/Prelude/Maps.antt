-- ===== src/Prelude/Maps.antt =====
-- `Map` and a record of optional entries: an association list in insertion order. A write to a
-- present key keeps the key's place, as in JavaScript.
use mathlib.Core.Path.{◌≡◌, refl}
use mathlib.Core.Logic.{inl, inr}
use mathlib.Core.Bool.{false, ◌||◌}
use mathlib.Core.Option.{Option, none, some}
use mathlib.Core.List.{List, [], ◌∷◌}
use native.Mathlib.Omega.{arith}
use compositions.Prelude.Tests.{first_some, if◌then◌else◌, Eq, ◌==◌, Bool-cases}
use compositions.Prelude.Lists.{contains, IsDistinct}

module _ {ℓ κ} {K : Type ℓ} {V : Type κ} ⦃e : Eq K⦄ where
  abbrev pub lookup : K → List (K × V) → Option V
  lookup k [] = none
  lookup k ((j, v) ∷ m) = if j == k then some v else lookup k m

  abbrev pub insert : K → V → List (K × V) → List (K × V)
  insert k v [] = (k, v) ∷ []
  insert k v ((j, w) ∷ m) = if j == k then (j, v) ∷ m else (j, w) ∷ insert k v m

  -- `delete`, and `Object.fromEntries(Object.entries(m).filter(([key]) => key !== k))`.
  abbrev pub erase : K → List (K × V) → List (K × V)
  erase k [] = []
  erase k ((j, v) ∷ m) = if j == k then erase k m else (j, v) ∷ erase k m

  -- `new Map(entries)`: the last value of a key counts, at the place of its first.
  abbrev pub insert_all : List (K × V) → List (K × V) → List (K × V)
  insert_all m [] = m
  insert_all m ((k, v) ∷ es) = insert_all (insert k v m) es

  abbrev pub of_entries : List (K × V) → List (K × V)
  of_entries es = insert_all [] es

  abbrev pub keys : List (K × V) → List K
  keys [] = []
  keys ((k, v) ∷ m) = k ∷ keys m

  pub lookup-insert :
      (k j : K) (v : V) (m : List (K × V))
      → lookup j (insert k v m) ≡ (if k == j then some v else lookup j m)
  lookup-insert k j v [] = refl
  lookup-insert k j v ((i, w) ∷ m) =
      ground (arith, e.equal_iff k j, e.equal_iff i k, e.equal_iff i j, lookup-insert k j v m)

  pub lookup-erase :
      (k j : K) (m : List (K × V)) → lookup j (erase k m) ≡ (if k == j then none else lookup j m)
  lookup-erase k j [] = ground arith
  lookup-erase k j ((i, w) ∷ m) =
      ground (arith, e.equal_iff k j, e.equal_iff i k, e.equal_iff i j, lookup-erase k j m)

  lookup_absent : (k : K) (m : List (K × V)) → contains (keys m) k ≡ false → lookup k m ≡ none
  lookup_absent k [] h = refl
  lookup_absent k ((j, v) ∷ m) h = ground (arith, lookup_absent k m)

  -- Of entries with different keys each is found again.
  pub lookup-insert_all :
      (k : K) (m es : List (K × V))
      → IsDistinct (keys es)
      → lookup k (insert_all m es) ≡ first_some (lookup k es) (lookup k m)
  lookup-insert_all k m [] h = refl
  lookup-insert_all k m ((j, v) ∷ es) (new, h) = ground (
    arith,
    e.equal_iff j k,
    lookup-insert_all k (insert j v m) es h,
    lookup-insert j k v m,
    lookup_absent k es,
  )

  pub lookup-of_entries :
      (k : K) (es : List (K × V)) → IsDistinct (keys es) → lookup k (of_entries es) ≡ lookup k es
  lookup-of_entries k es h = ground (arith, lookup-insert_all k [] es h)

  pub contains-keys-insert :
      (k j : K) (v : V) (m : List (K × V))
      → contains (keys (insert k v m)) j ≡ (k == j || contains (keys m) j)
  contains-keys-insert k j v [] = refl
  contains-keys-insert k j v ((i, w) ∷ m) =
      ground (arith, e.equal_iff i k, e.equal_iff k j, contains-keys-insert k j v m)

  pub insert-IsDistinct :
      (k : K) (v : V) (m : List (K × V)) → IsDistinct (keys m) → IsDistinct (keys (insert k v m))
  insert-IsDistinct k v [] h = (refl, tt)
  insert-IsDistinct k v ((i, w) ∷ m) (new, h) = elim (Bool-cases (i == k)) [
    | inl same ↦ rw same (new, h)
    | inr other ↦ rw other (
      ground (arith, new, other, e.equal_iff i k, e.equal_iff k i, contains-keys-insert k i v m),
      insert-IsDistinct k v m h,
    )
  ]

  pub insert_all-IsDistinct :
      (es m : List (K × V)) → IsDistinct (keys m) → IsDistinct (keys (insert_all m es))
  insert_all-IsDistinct [] m h = h
  insert_all-IsDistinct ((k, v) ∷ es) m h =
      insert_all-IsDistinct es (insert k v m) (insert-IsDistinct k v m h)

  pub contains-keys-insert_all :
      (j : K) (es m : List (K × V))
      → contains (keys (insert_all m es)) j ≡ (contains (keys m) j || contains (keys es) j)
  contains-keys-insert_all j [] m = ground arith
  contains-keys-insert_all j ((k, v) ∷ es) m =
      ground (arith, contains-keys-insert_all j es (insert k v m), contains-keys-insert k j v m)
