-- ===== src/Base/Decimal.antt =====
-- Decimal digits, as `%d` and `strconv.Itoa` write them.
use mathlib.Core.Path.{◌≡◌, ap, ◌∙◌, sym}
use mathlib.Core.Logic.{inl, inr}
use mathlib.Core.List.{[], ◌∷◌}
use Prim.Native.Nat.{ℕ, zero, suc, ◌+◌, ◌-◌, ◌*◌, ◌/◌, ◌%◌, ◌<◌, ◌^◌}
use native.Mathlib.Omega.{arith}
use native.Mathlib.Nat.{pow-suc}
use gopm.Base.Tests.{◌==◌, if◌then◌else◌, Bool-cases}
use gopm.Base.Text.{Str}

-- `for n > 0 { i--; buf[i] = byte('0' + n%10); n /= 10 }`, with room for `f` digits before `acc`.
unfoldable pub digits : ℕ → ℕ → Str → Str
digits zero n acc = acc
digits (suc f) n acc =
    let more = digits f (n / 10) ((48 + n % 10) ∷ acc) in if n == 0 then acc else more

unfoldable pub decimal : ℕ → Str
decimal n = if n == 0 then 48 ∷ [] else digits (suc n) n []

-- The number that a string of digits stands for, read on from `n`.
abbrev pub value : ℕ → Str → ℕ
value n [] = n
value n (c ∷ s) = value (n * 10 + (c - 48)) s

next_digit : (n : ℕ) (acc : Str) → value (n / 10) ((48 + n % 10) ∷ acc) ≡ value n acc
next_digit n acc =
    let e : n / 10 * 10 + (48 + n % 10 - 48) ≡ n = omega arith in ap (λ (k : ℕ). value k acc) e

-- With room for all its digits, what is written reads back as the number.
pub value-digits : (f n : ℕ) (acc : Str) → n < 10 ^ f → value 0 (digits f n acc) ≡ value n acc
unfolding digits
value-digits zero n acc h = let e : 0 ≡ n = omega arith in ap (λ (k : ℕ). value k acc) e
value-digits (suc f) n acc h = elim (Bool-cases (n == 0)) [
  | inl z ↦ let e : 0 ≡ n = ground arith in rw z (ap (λ (k : ℕ). value k acc) e)
  | inr p ↦
      let b : n / 10 < 10 ^ f = omega (arith, pow-suc 10 f) in
      rw p (value-digits f (n / 10) ((48 + n % 10) ∷ acc) b ∙ next_digit n acc)
]

value-digits_suc : (f n : ℕ) (acc : Str) → n < f → value 0 (digits f n acc) ≡ value n acc
unfolding digits
value-digits_suc zero n acc h = absurd (omega arith)
value-digits_suc (suc f) n acc h = elim (Bool-cases (n == 0)) [
  | inl z ↦ let e : 0 ≡ n = ground arith in rw z (ap (λ (k : ℕ). value k acc) e)
  | inr p ↦
      let b : n / 10 < f = ground arith in
      rw p (value-digits_suc f (n / 10) ((48 + n % 10) ∷ acc) b ∙ next_digit n acc)
]

pub value-decimal : (n : ℕ) → value 0 (decimal n) ≡ n
unfolding decimal
value-decimal n = elim (Bool-cases (n == 0)) [
  | inl z ↦ rw z (ground arith)
  | inr p ↦ rw p (value-digits_suc (suc n) n [] (omega arith))
]

-- Different numbers are written differently.
pub decimal_inj : (m n : ℕ) → decimal m ≡ decimal n → m ≡ n
decimal_inj m n e = sym (value-decimal m) ∙ ap (value 0) e ∙ value-decimal n
