-- ===== src/Watcher/Itoa.antt =====
-- What `itoa` of internal/watcher/watcher.go writes.
use gopm.Base.{
  ℕ, zero, suc, ◌-◌, ◌^◌, ◌<◌, ◌≡◌, refl, sym, ap, ◌∙◌, inl, inr, [], ◌∷◌, arith, ◌==◌, Bool-cases,
  codes,
}
use gopm.Base.Int.{ℤ}
use gopm.Base.Decimal.{value, digits, value-digits}
use gopm.Watcher.{itoa}

itoa_pos : (n : ℕ) → 0 < n → itoa (ℤ.pos n) ≡ digits 20 n []
unfolding itoa
itoa_pos n h = elim (Bool-cases (n == 0)) [ inl e ↦ ground arith | inr e ↦ rw e refl ]

itoa_neg : (k : ℕ) → suc k < 2 ^ 63 → itoa (ℤ.negsuc k) ≡ b'-' ∷ digits 20 (suc k) []
unfolding itoa codes
itoa_neg k h = elim (Bool-cases (suc k == 2 ^ 63)) [ inl e ↦ ground arith | inr e ↦ rw e refl ]

-- The digits of an int64 that is not the least one: for one that is not negative they read back as
-- the number, and for a negative one they are those of its opposite after a minus sign.
pub itoa_lem :
    (n : ℕ)
    → n < 2 ^ 63
    → (value 0 (itoa (ℤ.pos n)) ≡ n) × (0 < n → itoa (ℤ.negsuc (n - 1)) ≡ b'-' ∷ itoa (ℤ.pos n))
itoa_lem zero h = (unfold itoa codes in refl, λ (p : 0 < 0). absurd (omega arith))
itoa_lem (suc k) h = (
  ap (value 0) (itoa_pos (suc k) (omega arith)) ∙ value-digits 20 (suc k) [] (omega arith),
  λ (p : 0 < suc k).
      let e : suc k - 1 ≡ k = omega arith in
      ap (λ (j : ℕ). itoa (ℤ.negsuc j)) e
      ∙ (itoa_neg k h ∙ ap (◌∷◌ b'-') (sym (itoa_pos (suc k) (omega arith)))),
)
