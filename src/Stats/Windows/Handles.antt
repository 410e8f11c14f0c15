-- ===== src/Stats/Windows/Handles.antt =====
-- The handles that the readers of statistics open on Windows, and the times that they read.
use gopm.Base.{
  ℕ, ◌+◌, ◌*◌, ◌/◌, ◌%◌, ◌^◌, ◌<◌, ◌≡◌, refl, ◌⊎◌, inl, inr, true, false, none, some, List, ◌∷◌,
  arith, ◌==◌, if◌then◌else◌, ==_iff, Bool-cases,
}
use gopm.Base.Int.{ℤ, is_nonpos}
use gopm.Stats.Windows.{
  Kernel, FileTime, to_ns, open_handle, open_either, close_handle, windows_rss, query_limited_info,
  windows_times, query_info, vm_read,
}

-- The two halves of a count of 100 ns.
abbrev pub file_time : ℕ → FileTime
file_time t = record { low = t % 2 ^ 32; high = t / 2 ^ 32 }

to_ns-file_time : (t : ℕ) → t * 100 < 2 ^ 64 → to_ns (file_time t) ≡ t * 100
to_ns-file_time t h = ground arith

-- What is opened: one more handle, or none.
abbrev Opens : List ℕ → List ℕ × ℕ → Type 0
Opens hs (hs', h) = ((h ≡ 0) × (hs' ≡ hs)) ⊎ ((h == 0) ≡ false × (hs' ≡ h ∷ hs))

==_refl : (n : ℕ) → (n == n) ≡ true
==_refl n = (==_iff n n).1 refl

module _ (k : Kernel) (pid : ℤ) (hs : List ℕ) where
  open_handle-Opens : (access : ℕ) → Opens hs (open_handle k access pid hs)
  open_handle-Opens access = elim (Bool-cases (k.open_process access pid == 0)) [
    | inl e ↦ inl ((==_iff (k.open_process access pid) 0).0 e, rw e refl)
    | inr e ↦ inr (e, rw e refl)
  ]

  open_either-Opens : (other : ℕ) → Opens hs (open_either k other pid hs)
  open_either-Opens other = elim (Bool-cases (k.open_process query_limited_info pid == 0)) [
    | inl e ↦ rw e (open_handle-Opens other)
    | inr e ↦ rw e (inr (e, refl))
  ]

-- What was opened is closed, whatever was read in between.
closed_again :
    {A : Type 0} (hs : List ℕ) (o : List ℕ × ℕ) (a b : A)
    → Opens hs o
    → (if◌then◌else◌ {A = List ℕ × A} (o.1 == 0) (o.0, a) (close_handle o.1 o.0, b)).0 ≡ hs
closed_again hs (hs', h) a b (inl (z, e)) = rw (z, e) refl
closed_again hs (hs', h) a b (inr (p, e)) = rw (p, e) (rw (==_refl h) refl)

-- Neither reader leaves a handle open, or closes one that it has not opened, whichever of the calls
-- of the API fail.
pub handles_kept :
    (k : Kernel) (pid : ℤ) (hs : List ℕ)
    → ((windows_rss k pid hs).0 ≡ hs) × ((windows_times k pid hs).0 ≡ hs)
unfolding windows_rss windows_times
handles_kept k pid hs = elim (Bool-cases (is_nonpos pid)) [
  | inl e ↦ rw e (refl, refl)
  | inr e ↦ rw e (
    closed_again hs (open_either k (query_info + vm_read) pid hs) 0 _
        (open_either-Opens k pid hs (query_info + vm_read)),
    closed_again hs (open_either k query_info pid hs) none _
        (open_either-Opens k pid hs query_info),
  )
]

-- The handle under the limited right, or else under the other one.
abbrev pub granted : Kernel → ℕ → ℤ → ℕ
granted k other pid =
    let h = k.open_process query_limited_info pid in if h == 0 then k.open_process other pid else h

open_either-granted :
    (k : Kernel) (other : ℕ) (pid : ℤ) (hs : List ℕ)
    → (open_either k other pid hs).1 ≡ granted k other pid
open_either-granted k other pid hs =
    elim (Bool-cases (k.open_process query_limited_info pid == 0)) [
      | inl e ↦ rw e refl
      | inr e ↦ rw e refl
    ]

-- The times of a process that can be opened under either right are given in nanoseconds, exactly for
-- less than 2 ^ 64 of them (584 years).
pub windows_times_lem :
    (k : Kernel) (pid : ℤ) (hs : List ℕ) (kernel user : ℕ)
    → is_nonpos pid ≡ false
    → (granted k query_info pid == 0) ≡ false
    → k.process_times (granted k query_info pid) ≡ some (file_time kernel, file_time user)
    → kernel * 100 < 2 ^ 64
    → user * 100 < 2 ^ 64
    → (windows_times k pid hs).1 ≡ some (kernel * 100, user * 100)
unfolding windows_times
windows_times_lem k pid hs kernel user p g t a b =
    rw
      (
        p,
        open_either-granted k query_info pid hs,
        g,
        t,
        to_ns-file_time kernel a,
        to_ns-file_time user b,
      )
      refl
