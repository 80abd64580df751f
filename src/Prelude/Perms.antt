-- ===== src/Prelude/Perms.antt =====
-- Permutations: counts, and filters that split a list.
use Prim.Native.Nat.{suc}
use mathlib.Core.Path.{◌≡◌, refl, ap, ◌∙◌}
use mathlib.Core.Logic.{∥∥₁_elim, inl, inr}
use mathlib.Core.Bool.{Bool, not}
use mathlib.Core.List.Perm
use mathlib.Core.List.{List, [], ◌∷◌, ◌++◌, Perm, Permᴰ, Perm-prop, perm_middle}
use native.Mathlib.Nat.{ℕ_set}
use native.Mathlib.Omega.{arith}
use compositions.Prelude.Tests.{Eq, Bool-cases}
use compositions.Prelude.Lists.{count, filter, length}

module _ {ℓ} {A : Type ℓ} ⦃e : Eq A⦄ where
  count-Permᴰ : (a : A) {xs ys : List A} → Permᴰ xs ys → count a xs ≡ count a ys
  count-Permᴰ a Permᴰ.nil = refl
  count-Permᴰ a (Permᴰ.cons same p) = ground (arith, same, count-Permᴰ a p)
  count-Permᴰ a (Permᴰ.swap s t) = ground (arith, s, t)
  count-Permᴰ a (Permᴰ.trans p q) = count-Permᴰ a p ∙ count-Permᴰ a q

  pub count-Perm : (a : A) {xs ys : List A} → Perm xs ys → count a xs ≡ count a ys
  count-Perm a p = ∥∥₁_elim p (ℕ_set _ _) (count-Permᴰ a)

module _ {ℓ} {A : Type ℓ} where
  -- An item that stands behind some others can be taken to the front.
  pub Perm_behind :
      (a : A) (xs ys zs : List A) → Perm (xs ++ ys) zs → Perm (xs ++ (a ∷ ys)) (a ∷ zs)
  Perm_behind a xs ys zs p = Perm.trans (perm_middle xs ys) (Perm.cons a p)

  length-Permᴰ : {xs ys : List A} → Permᴰ xs ys → length xs ≡ length ys
  length-Permᴰ Permᴰ.nil = refl
  length-Permᴰ (Permᴰ.cons same p) = ap suc (length-Permᴰ p)
  length-Permᴰ (Permᴰ.swap s t) = refl
  length-Permᴰ (Permᴰ.trans p q) = length-Permᴰ p ∙ length-Permᴰ q

  pub length-Perm : {xs ys : List A} → Perm xs ys → length xs ≡ length ys
  length-Perm p = ∥∥₁_elim p (ℕ_set _ _) length-Permᴰ

  filter-Permᴰ : (p : A → Bool) {xs ys : List A} → Permᴰ xs ys → Perm (filter p xs) (filter p ys)
  filter-Permᴰ p Permᴰ.nil = Perm.rfl
  filter-Permᴰ p (Permᴰ.cons {a} {b} same q) = rw same (elim (Bool-cases (p b)) [
    | inl holds ↦ rw holds (Perm.cons b (filter-Permᴰ p q))
    | inr fails ↦ rw fails (filter-Permᴰ p q)
  ])
  filter-Permᴰ p (Permᴰ.swap {a} {b} {a'} {b'} {l} s t) =
      rw (s, t)
        (elim (Bool-cases (p b')) [
          | inl x ↦ elim (Bool-cases (p a')) [
            | inl y ↦ rw (x, y) (Perm.swap a' b' (filter p l))
            | inr y ↦ rw (x, y) Perm.rfl
          ]
          | inr x ↦ elim (Bool-cases (p a')) [
            | inl y ↦ rw (x, y) Perm.rfl
            | inr y ↦ rw (x, y) Perm.rfl
          ]
        ])
  filter-Permᴰ p (Permᴰ.trans q r) = Perm.trans (filter-Permᴰ p q) (filter-Permᴰ p r)

  pub filter-Perm : (p : A → Bool) {xs ys : List A} → Perm xs ys → Perm (filter p xs) (filter p ys)
  filter-Perm p q = ∥∥₁_elim q Perm-prop (filter-Permᴰ p)

  pub filter-partition-perm :
      (p : A → Bool) (xs : List A) → Perm (filter (λ x. not (p x)) xs ++ filter p xs) xs
  filter-partition-perm p [] = Perm.rfl
  filter-partition-perm p (x ∷ xs) = elim (Bool-cases (p x)) [
    | inl holds ↦
        rw holds
          (Perm_behind x (filter (λ y. not (p y)) xs) (filter p xs) xs (filter-partition-perm p xs))
    | inr fails ↦ rw fails (Perm.cons x (filter-partition-perm p xs))
  ]
