-- ===== src/Stats/Sampler/Shares.antt =====
-- What a share is made of.
use gopm.Base.{
  ℕ, ◌+◌, ◌^◌, ◌≤◌, ◌<◌, ◌≡◌, ◌⊎◌, Option, none, some, List, [], ◌∷◌, ◌==◌, if◌then◌else◌,
}
use gopm.Stats.Sampler.{
  CpuSample, quotient, Sampler, new, track_pid, untrack_pid, begin_round, sample_next,
}

-- The process was read with these values.
abbrev pub Taken : List (ℕ × CpuSample) → ℕ → CpuSample → Type 0
Taken [] p e = ⊥
Taken ((q, f) ∷ rs) p e = ((p ≡ q) × (e ≡ f)) ⊎ Taken rs p e

-- The readings without those of a process id.
abbrev pub forget : ℕ → List (ℕ × CpuSample) → List (ℕ × CpuSample)
forget pid [] = []
forget pid ((q, f) ∷ rs) = let rest = forget pid rs in if q == pid then rest else (q, f) ∷ rest

-- The readings of a round that come to the sampler, and times that fit in 63 bits.
abbrev pub taken_with : List ℕ → Option (ℕ × ℕ) → ℕ → List (ℕ × CpuSample) → List (ℕ × CpuSample)
taken_with (pid ∷ pids) (some (k, u)) now rs =
    (pid, record { kernel_ns = k; user_ns = u; wall_ns = now }) ∷ rs
taken_with _ _ now rs = rs

abbrev pub Small : Option (ℕ × ℕ) → Type 0
Small none = Unit
Small (some (k, u)) = (k < 2 ^ 63) × (u < 2 ^ 63)

-- The states that the operations lead to, in any order, with the readings of each process id
-- since it was last untracked.
pub data Reach : List (ℕ × CpuSample) → Sampler → Type 0 where
  at_start : Reach [] new
  tracks :
      {rs : List (ℕ × CpuSample)} {s : Sampler}
      → (pid : ℕ) → Reach rs s
      → Reach rs (track_pid pid s)
  untracks :
      {rs : List (ℕ × CpuSample)} {s : Sampler}
      → (pid : ℕ) → Reach rs s
      → Reach (forget pid rs) (untrack_pid pid s)
  begins :
      {rs : List (ℕ × CpuSample)} {s : Sampler}
      → (now : ℕ) → s.round ≡ []
      → Reach rs s
      → Reach rs (begin_round now s)
  samples :
      {rs : List (ℕ × CpuSample)} {s : Sampler}
      → (times : Option (ℕ × ℕ)) → Small times
      → Reach rs s
      → Reach (taken_with s.round times s.now rs) (sample_next s.round times s)

-- The share is of the time between two readings of the process, and of the processor time that went
-- by between them.
pub record Fair (rs : List (ℕ × CpuSample)) (p c w : ℕ) : Type 0 where
  pub first : CpuSample
  pub second : CpuSample
  pub first_taken : Taken rs p first
  pub second_taken : Taken rs p second
  pub later : first.wall_ns + w ≡ second.wall_ns
  pub lasts : 0 < w
  pub grown : (first.kernel_ns ≤ second.kernel_ns) × (first.user_ns ≤ second.user_ns)
  pub spent : first.kernel_ns + first.user_ns + c ≡ second.kernel_ns + second.user_ns

record Sound (rs : List (ℕ × CpuSample)) (s : Sampler) : Type 0 where
  sampled : (p : ℕ) (e : CpuSample) → s.cpu_samples p ≡ some e → Taken rs p e
  fair : (p c w : ℕ) → s.cpu_percent p ≡ some (quotient c w) → Fair rs p c w
