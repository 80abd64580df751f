-- ===== src/Prelude/Lists.antt =====
-- Lists measured and indexed by native numbers, and searched by Boolean tests.
use Prim.Native.Nat.{ℕ, zero, suc, ◌+◌, ◌≤◌, ◌<◌}
use mathlib.Core.Path.{◌≡◌, refl, ap}
use mathlib.Core.Bool.{Bool, true, false, not, ◌&&◌, ◌||◌}
use mathlib.Core.Option
use mathlib.Core.Option.{Option, none, some}
use mathlib.Core.List.{List, [], ◌∷◌, ◌++◌, map}
use native.Mathlib.Omega.{arith}
use compositions.Prelude.Tests.{if◌then◌else◌, Eq, ◌==◌}

module _ {ℓ} {A : Type ℓ} where
  abbrev pub length : List A → ℕ
  length [] = 0
  length (x ∷ xs) = suc (length xs)

  abbrev pub get_elem? : List A → ℕ → Option A
  get_elem? [] i = none
  get_elem? (x ∷ xs) zero = some x
  get_elem? (x ∷ xs) (suc i) = get_elem? xs i

  -- A write out of bounds changes nothing.
  abbrev pub set : List A → ℕ → A → List A
  set [] i v = []
  set (x ∷ xs) zero v = v ∷ xs
  set (x ∷ xs) (suc i) v = x ∷ set xs i v

  abbrev pub take : ℕ → List A → List A
  take zero xs = []
  take (suc n) [] = []
  take (suc n) (x ∷ xs) = x ∷ take n xs

  abbrev pub drop : ℕ → List A → List A
  drop zero xs = xs
  drop (suc n) [] = []
  drop (suc n) (x ∷ xs) = drop n xs

  abbrev pub head? : List A → Option A
  head? [] = none
  head? (x ∷ xs) = some x

  abbrev pub is_empty : List A → Bool
  is_empty [] = true
  is_empty (x ∷ xs) = false

  -- `filter`, `some`, `every`, `find` and `findIndex` of an array.
  abbrev pub filter : (A → Bool) → List A → List A
  filter p [] = []
  filter p (x ∷ xs) = if p x then x ∷ filter p xs else filter p xs

  abbrev pub any : (A → Bool) → List A → Bool
  any p [] = false
  any p (x ∷ xs) = p x || any p xs

  abbrev pub all : (A → Bool) → List A → Bool
  all p [] = true
  all p (x ∷ xs) = p x && all p xs

  abbrev pub find? : (A → Bool) → List A → Option A
  find? p [] = none
  find? p (x ∷ xs) = if p x then some x else find? p xs

  abbrev pub find_index? : (A → Bool) → List A → Option ℕ
  find_index? p [] = none
  find_index? p (x ∷ xs) = if p x then some 0 else Option.map suc (find_index? p xs)

  abbrev pub All {κ} : (A → Type κ) → List A → Type κ
  All P [] = Unit
  All P (x ∷ xs) = P x × All P xs

module _ {ℓ} {A : Type ℓ} ⦃e : Eq A⦄ where
  -- `includes` of an array, `has` of a set.
  abbrev pub contains : List A → A → Bool
  contains [] a = false
  contains (x ∷ xs) a = x == a || contains xs a

  -- How often an item occurs.
  abbrev pub count : A → List A → ℕ
  count a [] = 0
  count a (x ∷ xs) = if x == a then suc (count a xs) else count a xs

  -- No item occurs twice.
  abbrev pub IsDistinct : List A → Type ℓ
  IsDistinct [] = Unit
  IsDistinct (x ∷ xs) = (contains xs x ≡ false) × IsDistinct xs

  pub contains-append :
      (xs ys : List A) (a : A) → contains (xs ++ ys) a ≡ (contains xs a || contains ys a)
  contains-append [] ys a = refl
  contains-append (x ∷ xs) ys a = ground (arith, contains-append xs ys a)

module _ {ℓ} {A : Type ℓ} where
  pub length-append : (xs ys : List A) → length (xs ++ ys) ≡ length xs + length ys
  length-append [] ys = omega arith
  length-append (x ∷ xs) ys = omega (arith, length-append xs ys)

  pub length-map {κ} : {B : Type κ} (f : A → B) (xs : List A) → length (map f xs) ≡ length xs
  length-map f [] = refl
  length-map f (x ∷ xs) = ap suc (length-map f xs)

  pub length-filter-le : (p : A → Bool) (xs : List A) → length (filter p xs) ≤ length xs
  length-filter-le p [] = omega arith
  length-filter-le p (x ∷ xs) = ground (arith, length-filter-le p xs)

  pub any-append : (p : A → Bool) (xs ys : List A) → any p (xs ++ ys) ≡ (any p xs || any p ys)
  any-append p [] ys = refl
  any-append p (x ∷ xs) ys = ground (arith, any-append p xs ys)

  pub filter-append :
      (p : A → Bool) (xs ys : List A) → filter p (xs ++ ys) ≡ filter p xs ++ filter p ys
  filter-append p [] ys = refl
  filter-append p (x ∷ xs) ys = ground (arith, filter-append p xs ys)

  pub filter_congr :
      (p q : A → Bool) (xs : List A) → ((x : A) → p x ≡ q x) → filter p xs ≡ filter q xs
  filter_congr p q [] h = refl
  filter_congr p q (x ∷ xs) h = ground (arith, h x, filter_congr p q xs h)

  pub filter_all : (p : A → Bool) (xs : List A) → ((x : A) → p x ≡ true) → filter p xs ≡ xs
  filter_all p [] h = refl
  filter_all p (x ∷ xs) h = ground (arith, h x, filter_all p xs h)

module _ {ℓ} {A : Type ℓ} ⦃e : Eq A⦄ where
  pub count-append : (a : A) (xs ys : List A) → count a (xs ++ ys) ≡ count a xs + count a ys
  count-append a [] ys = omega arith
  count-append a (x ∷ xs) ys = ground (arith, count-append a xs ys)

  pub count_absent : (a : A) (xs : List A) → contains xs a ≡ false → count a xs ≡ 0
  count_absent a [] h = refl
  count_absent a (x ∷ xs) h = ground (arith, count_absent a xs)

  pub count-filter_ne :
      (a k : A) (xs : List A)
      → count a (filter (λ x. not (x == k)) xs) ≡ (if k == a then 0 else count a xs)
  count-filter_ne a k [] = ground arith
  count-filter_ne a k (x ∷ xs) =
      ground (arith, count-filter_ne a k xs, e.equal_iff x k, e.equal_iff x a, e.equal_iff k a)

module _ {ℓ} {A : Type ℓ} where
  pub take-append-drop : (n : ℕ) (xs : List A) → take n xs ++ drop n xs ≡ xs
  take-append-drop zero xs = refl
  take-append-drop (suc n) [] = refl
  take-append-drop (suc n) (x ∷ xs) = ap (λ ys. x ∷ ys) (take-append-drop n xs)

  pub find_index?-lt-length :
      (p : A → Bool) (xs : List A) (i : ℕ) → find_index? p xs ≡ some i → i < length xs
  find_index?-lt-length p [] i e = absurd (cc)
  find_index?-lt-length p (x ∷ xs) zero e = omega arith
  find_index?-lt-length p (x ∷ xs) (suc i) e = ground (arith, find_index?-lt-length p xs i)

  -- The item at the index that a search gives is the one that the search for the item gives.
  pub get_elem?-find_index? :
      (p : A → Bool) (xs : List A) (i : ℕ) → find_index? p xs ≡ some i → get_elem? xs i ≡ find? p xs
  get_elem?-find_index? p [] i e = absurd (cc)
  get_elem?-find_index? p (x ∷ xs) zero e = ground arith
  get_elem?-find_index? p (x ∷ xs) (suc i) e = ground (arith, get_elem?-find_index? p xs i)

module _ {ℓ} {A : Type ℓ} ⦃e : Eq A⦄ where
  pub not_contains_of_count : (a : A) (xs : List A) → count a xs ≡ 0 → contains xs a ≡ false
  not_contains_of_count a [] h = refl
  not_contains_of_count a (x ∷ xs) h = ground (arith, not_contains_of_count a xs)

  -- Where no item occurs twice, each occurs once at most.
  pub count_present : (a : A) (xs : List A) → contains xs a ≡ true → 1 ≤ count a xs
  count_present a [] h = absurd (cc)
  count_present a (x ∷ xs) h = ground (arith, h, count_present a xs)

  pub count-le-one : (a : A) (xs : List A) → IsDistinct xs → count a xs ≤ 1
  count-le-one a [] h = omega arith
  count-le-one a (x ∷ xs) (new, h) =
      ground (arith, count-le-one a xs, count_absent x xs, e.equal_iff x a)

  pub counts-IsDistinct : (xs : List A) → ((a : A) → count a xs ≤ 1) → IsDistinct xs
  counts-IsDistinct [] h = tt
  counts-IsDistinct (x ∷ xs) h = (
    not_contains_of_count x xs (ground (arith, h x, e.equal_iff x x)),
    counts-IsDistinct xs (λ a. ground (arith, h a)),
  )
