-- ===== src/Logger/Ring/Window.antt =====
-- The `n` entries of the storage from index `h` on, going round at the capacity.
use native.Mathlib.Nat.{mod-add-mod, mod-eq_of_lt, mod-eq-sub-mod, mod-lt}
use mathlib.Core.Path.{ap₂}
use gopm.Base.{
  ℕ, zero, suc, ◌+◌, ◌-◌, ◌%◌, ◌≤◌, ◌<◌, ◌≡◌, refl, ap, ◌∙◌, ◌≢◌, ◌⊎◌, inl, inr, List, [], ◌∷◌,
  ◌++◌, arith, length, get_or, set, drop, get_or-set_self, get_or-set_ne,
}
use native.Mathlib.Decide.{dec_lt}
use gopm.Logger.Ring.{LogEntry, zero_entry, collect}

-- A sum below twice the capacity wraps at most once.
pub mod-wrap :
    (a cap : ℕ) → a < cap + cap → ((a < cap) × (a % cap ≡ a)) ⊎ ((cap ≤ a) × (a % cap ≡ a - cap))
mod-wrap a cap h = elim (dec_lt a cap) [
  | yes p ↦ inl (p, mod-eq_of_lt p)
  | no p ↦ inr (
    omega arith,
    mod-eq-sub-mod {n = a} {m = cap} (omega arith)
        ∙ mod-eq_of_lt {n = a - cap} {m = cap} (omega arith),
  )
]

module _ (buf : List LogEntry) (cap : ℕ) where
  abbrev pub around : ℕ → ℕ → List LogEntry
  around start zero = []
  around start (suc k) = get_or buf start zero_entry ∷ around ((start + 1) % cap) k

  pub length-around : (start k : ℕ) → length (around start k) ≡ k
  length-around start zero = refl
  length-around start (suc k) = ap suc (length-around ((start + 1) % cap) k)

  -- The loop of `tail` reads a window.
  pub collect-eq-around : (start i k : ℕ) → collect buf cap start i k ≡ around ((start + i) % cap) k
  unfolding collect
  collect-eq-around start i zero = refl
  collect-eq-around start i (suc k) =
      let e : (start + (i + 1)) % cap ≡ ((start + i) % cap + 1) % cap =
        rw mod-add-mod (ap (λ (x : ℕ). x % cap) (omega arith)) in
      rw (collect-eq-around start (i + 1) k, e)

  -- Leaving out the first entries of a around starts it further on.
  pub drop-around :
      (k n h : ℕ) → h < cap → k ≤ n → drop k (around h n) ≡ around ((h + k) % cap) (n - k)
  drop-around zero n h hh hk =
      let e : h ≡ (h + 0) % cap = ground (arith, mod-wrap (h + 0) cap) in
      let e' : n ≡ n - 0 = omega arith in ap₂ around e e'
  drop-around (suc k) zero h hh hk = absurd (omega arith)
  drop-around (suc k) (suc n) h hh hk =
      let e : ((h + 1) % cap + k) % cap ≡ (h + suc k) % cap =
        rw mod-add-mod (ap (λ (x : ℕ). x % cap) (omega arith)) in
      let e' : n - k ≡ suc n - suc k = omega arith in
      drop-around k n ((h + 1) % cap) (mod-lt (h + 1) (omega arith)) (omega arith) ∙ ap₂ around e e'

-- Less than a lap from an index leads to another one.
other-index : (cap s j : ℕ) → s < cap → suc j < cap → (s + suc j) % cap ≢ s
other-index cap s j below short = ground (arith, mod-wrap (s + suc j) cap)

-- The entry that is written to the index after `k` others comes after them.
pub set-around :
    (store : List LogEntry) (cap : ℕ) (e : LogEntry) (k s : ℕ)
    → s < cap
    → k < cap
    → cap ≤ length store
    → around (set store ((s + k) % cap) e) cap s (suc k) ≡ around store cap s k ++ (e ∷ [])
set-around store cap e zero s below short fits =
    let home : (s + 0) % cap ≡ s = ground (arith, mod-wrap (s + 0) cap) in
    rw (home, get_or-set_self store s e zero_entry (omega arith))
set-around store cap e (suc j) s below short fits =
    let next = (s + 1) % cap in
    let onward : (s + suc j) % cap ≡ (next + j) % cap =
      rw mod-add-mod (ap (λ (i : ℕ). i % cap) (omega arith)) in
    let kept =
      get_or-set_ne store {i = (s + suc j) % cap} {j = s} e zero_entry
        (other-index cap s j below short) in
    let others : List LogEntry = around (set store ((s + suc j) % cap) e) cap next (suc j) in
    ap (λ (x : LogEntry). x ∷ others) kept
    ∙ ap (λ (i : ℕ). get_or store s zero_entry ∷ around (set store i e) cap next (suc j)) onward
    ∙ ap (◌∷◌ (get_or store s zero_entry))
        (set-around store cap e j next (mod-lt (s + 1) (omega arith)) (omega arith) fits)
