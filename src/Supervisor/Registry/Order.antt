-- ===== src/Supervisor/Registry/Order.antt =====
-- The listing of the processes.
use gopm.Base.{ℕ, ◌≤◌, inl, inr, List, [], ◌∷◌, arith, leb, leb→le, Bool-cases}
use mathlib.Core.List.{Perm}
use mathlib.Core.List.Perm
use gopm.Base.Dict.{values}
use gopm.Supervisor.Loop.{Task}
use gopm.Supervisor.Registry.{Supervisor, insert_by_id, sort_by_id, list}

-- No task of the list has a smaller id.
abbrev pub AllFrom : ℕ → List Task → Type 0
AllFrom n [] = Unit
AllFrom n (t ∷ ts) = (n ≤ t.mp.id) × AllFrom n ts

abbrev pub IsSorted : List Task → Type 0
IsSorted [] = Unit
IsSorted (t ∷ ts) = AllFrom t.mp.id ts × IsSorted ts

AllFrom-mono : (m n : ℕ) (ts : List Task) → m ≤ n → AllFrom n ts → AllFrom m ts
AllFrom-mono m n [] h a = tt
AllFrom-mono m n (t ∷ ts) h a = (omega arith, AllFrom-mono m n ts h a.1)

insert-AllFrom :
    (n : ℕ) (t : Task) (ts : List Task) → n ≤ t.mp.id → AllFrom n ts → AllFrom n (insert_by_id t ts)
unfolding insert_by_id
insert-AllFrom n t [] h a = (h, tt)
insert-AllFrom n t (u ∷ us) h a = ground (arith, insert-AllFrom n t us h a.1)

insert-IsSorted : (t : Task) (ts : List Task) → IsSorted ts → IsSorted (insert_by_id t ts)
unfolding insert_by_id
insert-IsSorted t [] s = (tt, tt)
insert-IsSorted t (u ∷ us) s = elim (Bool-cases (leb t.mp.id u.mp.id)) [
  | inl p ↦ rw p (
    (leb→le t.mp.id u.mp.id p, AllFrom-mono t.mp.id u.mp.id us (leb→le t.mp.id u.mp.id p) s.0),
    s,
  )
  | inr p ↦ rw p (insert-AllFrom u.mp.id t us (ground arith) s.0, insert-IsSorted t us s.1)
]

sort-IsSorted : (ts : List Task) → IsSorted (sort_by_id ts)
unfolding sort_by_id
sort-IsSorted [] = tt
sort-IsSorted (t ∷ ts) = insert-IsSorted t (sort_by_id ts) (sort-IsSorted ts)

insert-perm : (t : Task) (ts : List Task) → Perm (insert_by_id t ts) (t ∷ ts)
unfolding insert_by_id
insert-perm t [] = Perm.refl (t ∷ [])
insert-perm t (u ∷ us) = elim (Bool-cases (leb t.mp.id u.mp.id)) [
  | inl p ↦ rw p (Perm.refl (t ∷ u ∷ us))
  | inr p ↦ rw p (Perm.trans (Perm.cons u (insert-perm t us)) (Perm.swap t u us))
]

sort-perm : (ts : List Task) → Perm (sort_by_id ts) ts
unfolding sort_by_id
sort-perm [] = Perm.refl []
sort-perm (t ∷ ts) = Perm.trans (insert-perm t (sort_by_id ts)) (Perm.cons t (sort-perm ts))

-- A listing shows every registered process once, in the order of the ids.
pub list-IsSorted-perm : (s : Supervisor) → IsSorted (list s) × Perm (list s) (values s.procs)
unfolding list
list-IsSorted-perm s = (sort-IsSorted (values s.procs), sort-perm (values s.procs))
