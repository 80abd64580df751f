-- ===== src/Tests/Moves.antt =====
-- A function that moves an item of a list to another index, for `arrayMove` of @dnd-kit/sortable.
use compositions.Prelude.{
  ℕ, zero, suc, ◌<◌, ◌≡◌, none, some, [], ◌∷◌, List, ◌++◌, inl, inr, length, arith, get_elem?, take,
  drop, Perm, Option-cases,
}
use mathlib.Core.List.Perm

-- An item taken out at one index and put in at another.
abbrev put_at : (A : Type 0) → ℕ → A → List A → List A
put_at A n x xs = take n xs ++ (x ∷ drop n xs)

abbrev pub array_move : (A : Type 0) → List A → ℕ → ℕ → List A
array_move A xs i j = elim (get_elem? xs i) [
  | none ↦ xs
  | some x ↦ put_at A j x (take i xs ++ drop (suc i) xs)
]

split_perm :
    (A : Type 0) (xs : List A) (i : ℕ) (x : A)
    → get_elem? xs i ≡ some x
    → Perm (x ∷ (take i xs ++ drop (suc i) xs)) xs
split_perm A [] i x e = absurd (cc)
split_perm A (y ∷ xs) zero x e = let same : y ≡ x = ground arith in rw same Perm.rfl
split_perm A (y ∷ xs) (suc i) x e =
    Perm.trans (Perm.swap y x _) (Perm.cons y (split_perm A xs i x e))

put_perm : (A : Type 0) (n : ℕ) (x : A) (xs : List A) → Perm (put_at A n x xs) (x ∷ xs)
put_perm A zero x xs = Perm.rfl
put_perm A (suc n) x [] = Perm.rfl
put_perm A (suc n) x (y ∷ xs) = Perm.trans (Perm.cons y (put_perm A n x xs)) (Perm.swap x y xs)

pub array_move_perm :
    (A : Type 0) (xs : List A) (i j : ℕ)
    → i < length xs
    → j < length xs
    → Perm (array_move A xs i j) xs
array_move_perm A xs i j h k = elim (Option-cases (get_elem? xs i)) [
  | inl absent ↦ rw (absent, array_move) Perm.rfl
  | inr (x, e) ↦
      rw (e, array_move)
        (Perm.trans (put_perm A j x (take i xs ++ drop (suc i) xs)) (split_perm A xs i x e))
]
