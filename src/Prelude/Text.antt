-- ===== src/Prelude/Text.antt =====
-- Decimal numbers in a template text, and texts that end in a dash and a number.
use Prim.Native.Nat.{ℕ, zero, suc, ◌+◌, ◌-◌, ◌*◌, ◌/◌, ◌%◌, ◌<◌}
use Prim.Native.Char.{Char, code}
use Prim.Native.String.{String, [], ◌∷◌, ◌++◌}
use mathlib.Core.Path.{◌≡◌, refl, ap, ap₂, subst, sym, ◌∙◌}
use mathlib.Core.Bool.{Bool, true, ◌&&◌}
use mathlib.Core.Logic.{◌≢◌, dite, ite, if_pos, if_neg, inl, inr}
use mathlib.Core.WellFounded.{Acc, Acc-prop, WellFounded, induction}
use native.Mathlib.Decide.{dec_lt}
use native.Mathlib.Omega.{arith}
use text.Mathlib.TextLemmas.{nil-append, cons-append, head-eq_of_cons-eq, tail-eq_of_cons-eq}
use compositions.Prelude.Tests.{nat_beq, nat_beq_iff, if◌then◌else◌, Bool-cases}

abbrev digit : ℕ → Char
digit zero = "0"
digit (suc zero) = "1"
digit (suc (suc zero)) = "2"
digit (suc (suc (suc zero))) = "3"
digit (suc (suc (suc (suc zero)))) = "4"
digit (suc (suc (suc (suc (suc zero))))) = "5"
digit (suc (suc (suc (suc (suc (suc zero)))))) = "6"
digit (suc (suc (suc (suc (suc (suc (suc zero))))))) = "7"
digit (suc (suc (suc (suc (suc (suc (suc (suc zero)))))))) = "8"
digit _ = "9"

all_digits : ℕ → (ℕ → Bool) → Bool
all_digits zero p = true
all_digits (suc n) p = p n && all_digits n p

all_digits_sound : (n : ℕ) (p : ℕ → Bool) (x : ℕ) → all_digits n p ≡ true → x < n → p x ≡ true
unfolding all_digits
all_digits_sound zero p x h lt = absurd (omega arith)
all_digits_sound (suc n) p x h lt = ground (arith, all_digits_sound n p x)

digit_table : all_digits 10 (λ d. nat_beq (code (digit d)) (b'0' + d)) ≡ true
unfolding all_digits
digit_table = refl

code-digit : (d : ℕ) → d < 10 → code (digit d) ≡ b'0' + d
code-digit d h = (nat_beq_iff _ _).0 (all_digits_sound 10 _ d digit_table h)

Acc-below : (k n : ℕ) → n < k → Acc ◌<◌ n
Acc-below zero n h = absurd (omega arith)
Acc-below (suc k) n h = Acc.intro n (λ m lt. Acc-below k m (omega arith))

lt_wf : WellFounded ◌<◌
unfolding Acc-below
lt_wf = record { apply = λ n. Acc-below (suc n) n (omega arith) }

tenth_lt : {n : ℕ} → 0 < n → n / 10 < n
tenth_lt h = omega arith

abbrev last_digit : ℕ → String → String
last_digit n tail = digit (n % 10) ∷ tail

-- The digits of a positive number, before a text.
spell : String → (n : ℕ) → Acc ◌<◌ n → String
spell tail n (Acc.intro _ below) =
    dite (dec_lt 0 n)
      (λ positive. spell (last_digit n tail) (n / 10) (below (n / 10) (tenth_lt positive)))
      (λ _. tail)

unfoldable pub digits : ℕ → String → String
unfolding spell lt_wf dec_lt tenth_lt
digits n tail = spell tail n (lt_wf.apply n)

-- `${n}` for a natural number.
unfoldable pub show : ℕ → String
show n = if nat_beq n 0 then "0" else digits n ""

spell-irrelevant : (tail : String) (n : ℕ) (v w : Acc ◌<◌ n) → spell tail n v ≡ spell tail n w
spell-irrelevant tail n v w = λ j. spell tail n (Acc-prop v w j)

spell_round :
    (tail : String) (n : ℕ) (w : Acc ◌<◌ n)
    → spell tail n w ≡ ite (dec_lt 0 n) (digits (n / 10) (last_digit n tail)) tail
unfolding spell digits
spell_round tail n (Acc.intro _ below) = λ j.
    dite (dec_lt 0 n)
      (λ h.
        spell-irrelevant (last_digit n tail) (n / 10) (below (n / 10) (tenth_lt h))
          (lt_wf.apply (n / 10)) j)
      (λ _. tail)

digits_step :
    (n : ℕ) (out : String)
    → digits n out ≡ ite (dec_lt 0 n) (digits (n / 10) (digit (n % 10) ∷ out)) out
unfolding digits
digits_step n out = spell_round out n (lt_wf.apply n)

-- Reading digits back.
pub value : String → ℕ → ℕ
value [] n = n
value (c ∷ s) n = value s (n * 10 + (code c - b'0'))

value_last : (n : ℕ) (out : String) → value (digit (n % 10) ∷ out) (n / 10) ≡ value out n
unfolding value
value_last n out = ap (value out) (
    let e : code (digit (n % 10)) ≡ b'0' + n % 10 = code-digit (n % 10) (omega arith) in
    omega arith)

digit_no_dash : (d : ℕ) → d < 10 → code (digit d) ≢ b'-'
digit_no_dash d h e = let f : code (digit d) ≡ b'0' + d = code-digit d h in absurd (omega arith)

value_nil : (n : ℕ) → value "" n ≡ n
unfolding value
value_nil n = refl

value_zero : value "0" 0 ≡ 0
unfolding value
value_zero = refl

value-digits : (n : ℕ) (out : String) → value (digits n out) 0 ≡ value out n
value-digits n =
    induction lt_wf {C = λ m. (out : String) → value (digits m out) 0 ≡ value out m} n λ m ih out.
      elim (dec_lt 0 m) [
        | yes p ↦
            rw (digits_step m out, if_pos _ p)
              (ih (m / 10) (tenth_lt p) (digit (m % 10) ∷ out) ∙ value_last m out)
        | no p ↦ rw (digits_step m out, if_neg _ p) (ap (value out) (omega arith))
      ]

pub value-show : (n : ℕ) → value (show n) 0 ≡ n
unfolding show
value-show n = elim (Bool-cases (nat_beq n 0)) [
  | inl none ↦ rw none (value_zero ∙ sym ((nat_beq_iff n 0).0 none))
  | inr some ↦ rw some (value-digits n "" ∙ value_nil n)
]

pub show_inj : (n m : ℕ) → show n ≡ show m → n ≡ m
show_inj n m e = sym (value-show n) ∙ ap (λ s. value s 0) e ∙ value-show m

abbrev pub IsDashFree : String → Type 0
IsDashFree [] = Unit
IsDashFree (c ∷ s) = (code c ≢ b'-') × IsDashFree s

digits-IsDashFree : (n : ℕ) (out : String) → IsDashFree out → IsDashFree (digits n out)
digits-IsDashFree n =
    induction lt_wf {C = λ m. (out : String) → IsDashFree out → IsDashFree (digits m out)} n
      λ m ih out h. elim (dec_lt 0 m) [
        | yes p ↦
            rw (digits_step m out, if_pos _ p)
              (ih (m / 10) (tenth_lt p) (digit (m % 10) ∷ out)
                (digit_no_dash (m % 10) (omega arith), h))
        | no p ↦ rw (digits_step m out, if_neg _ p) h
      ]

pub show-IsDashFree : (n : ℕ) → IsDashFree (show n)
unfolding show
show-IsDashFree n = elim (Bool-cases (nat_beq n 0)) [
  | inl none ↦ rw none ((λ e. absurd (omega arith)), tt)
  | inr some ↦ rw some (digits-IsDashFree n "" tt)
]

dash_cons : (e : String) → "-" ++ e ≡ "-" ∷ e
dash_cons e = cons-append "-" [] e ∙ ap (λ s. "-" ∷ s) (nil-append e)

dash_inside : (s e : String) → ¬ IsDashFree (s ++ "-" ∷ e)
dash_inside [] e h = (rw nil-append at h).0 refl
dash_inside (c ∷ s) e h = dash_inside s e (rw cons-append at h).1

-- A number after a dash can be told from what stands before it.
pub dash_inj :
    (s t d e : String)
    → IsDashFree d
    → IsDashFree e
    → s ++ "-" ++ d ≡ t ++ "-" ++ e
    → (s ≡ t) × (d ≡ e)
dash_inj [] [] d e h k p =
    (refl, tail-eq_of_cons-eq (simp (nil-append, cons-append, dash_cons) at p))
dash_inj [] (c ∷ t) d e h k p =
    let q = simp (nil-append, cons-append, dash_cons) at p in
    absurd (dash_inside t e (subst IsDashFree (tail-eq_of_cons-eq q) h))
dash_inj (c ∷ s) [] d e h k p =
    let q = simp (nil-append, cons-append, dash_cons) at p in
    absurd (dash_inside s d (subst IsDashFree (sym (tail-eq_of_cons-eq q)) k))
dash_inj (b ∷ s) (c ∷ t) d e h k p =
    let q = simp cons-append at p in
    let (same, numbers) = dash_inj s t d e h k (tail-eq_of_cons-eq q) in
    (ap₂ (λ a r. a ∷ r) (head-eq_of_cons-eq q) same, numbers)
