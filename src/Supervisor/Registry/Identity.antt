-- ===== src/Supervisor/Registry/Identity.antt =====
-- The ids of the processes over any sequence of commands and steps.
use gopm.Base.{
  ℕ, ◌+◌, ◌<◌, ◌≡◌, sym, ap, ◌∙◌, ◌≢◌, inl, inr, none, some, List, [], ◌∷◌, arith, Bool-cases, Str,
  str_eq,
}
use gopm.Base.Dict.{lookup, insert, remove}
use gopm.Supervisor.Loop.{Task}
use gopm.Supervisor.Registry.{Supervisor}

abbrev pub id_of : Task → ℕ
id_of t = t.mp.id

abbrev pub Below : ℕ → List (Str × Task) → Type 0
Below n [] = Unit
Below n ((k, t) ∷ m) = (id_of t < n) × Below n m

-- No task of the registry has the id `i`.
abbrev pub Unused : ℕ → List (Str × Task) → Type 0
Unused i [] = Unit
Unused i ((k, t) ∷ m) = (i ≢ id_of t) × Unused i m

abbrev pub Distinct : List (Str × Task) → Type 0
Distinct [] = Unit
Distinct ((k, t) ∷ m) = Unused (id_of t) m × Distinct m

-- Every id is below the next one, and no two processes have the same.
pub record Ids (s : Supervisor) : Type 0 where
  pub below : Below s.next_id s.procs
  pub distinct : Distinct s.procs

-- A task put in the place of another with its id.
pub Below-insert_old :
    (k : Str) (v t : Task) (n : ℕ) (m : List (Str × Task))
    → lookup k m ≡ some t
    → id_of v ≡ id_of t
    → Below n m
    → Below n (insert k v m)
unfolding lookup insert
Below-insert_old k v t n [] f e b = cc
Below-insert_old k v t n ((j, w) ∷ m) f e b = ground (arith, Below-insert_old k v t n m)

pub Unused-insert_old :
    (k : Str) (v t : Task) (i : ℕ) (m : List (Str × Task))
    → lookup k m ≡ some t
    → id_of v ≡ id_of t
    → Unused i m
    → Unused i (insert k v m)
unfolding lookup insert
Unused-insert_old k v t i [] f e b = cc
Unused-insert_old k v t i ((j, w) ∷ m) f e b = ground (arith, Unused-insert_old k v t i m)

pub Distinct-insert_old :
    (k : Str) (v t : Task) (m : List (Str × Task))
    → lookup k m ≡ some t
    → id_of v ≡ id_of t
    → Distinct m
    → Distinct (insert k v m)
unfolding lookup insert
Distinct-insert_old k v t [] f e d = cc
Distinct-insert_old k v t ((j, w) ∷ m) f e d = elim (Bool-cases (str_eq j k)) [
  | inl p ↦
      let q : id_of v ≡ id_of w = e ∙ ap id_of (some_inj t w (sym (rw (p, lookup) at f))) in
      rw p (rw q d.0, d.1)
  | inr p ↦
      let f' : lookup k m ≡ some t = rw (p, lookup) at f in
      rw p (Unused-insert_old k v t (id_of w) m f' e d.0, Distinct-insert_old k v t m f' e d.1)
]
  where
    some_inj : (a b : Task) → some a ≡ some b → a ≡ b
    some_inj a b h = cc

-- A task under a name that was free.
pub Below-insert_new :
    (k : Str) (v : Task) (n : ℕ) (m : List (Str × Task))
    → id_of v < n
    → Below n m
    → Below n (insert k v m)
unfolding insert
Below-insert_new k v n [] h b = (h, tt)
Below-insert_new k v n ((j, w) ∷ m) h b = ground (arith, Below-insert_new k v n m)

Unused-insert_new :
    (k : Str) (v : Task) (i : ℕ) (m : List (Str × Task))
    → i ≢ id_of v
    → Unused i m
    → Unused i (insert k v m)
unfolding insert
Unused-insert_new k v i [] h b = (h, tt)
Unused-insert_new k v i ((j, w) ∷ m) h b = ground (arith, Unused-insert_new k v i m)

pub Unused-of-Below : (n : ℕ) (m : List (Str × Task)) → Below n m → Unused n m
Unused-of-Below n [] b = tt
Unused-of-Below n ((k, t) ∷ m) b = (omega arith, Unused-of-Below n m b.1)

pub Below-suc : (n : ℕ) (m : List (Str × Task)) → Below n m → Below (n + 1) m
Below-suc n [] b = tt
Below-suc n ((k, t) ∷ m) b = (omega arith, Below-suc n m b.1)

pub Distinct-insert_new :
    (k : Str) (v : Task) (m : List (Str × Task))
    → lookup k m ≡ none
    → Unused (id_of v) m
    → Distinct m
    → Distinct (insert k v m)
unfolding lookup insert
Distinct-insert_new k v [] f u d = (tt, tt)
Distinct-insert_new k v ((j, w) ∷ m) f u d = elim (Bool-cases (str_eq j k)) [
  | inl p ↦ absurd (not_none (rw (p, lookup) at f))
  | inr p ↦
      let f' : lookup k m ≡ none = rw (p, lookup) at f in
      rw p (
        Unused-insert_new k v (id_of w) m (λ e. u.0 (sym e)) d.0,
        Distinct-insert_new k v m f' u.1 d.1,
      )
]
  where
    not_none : some w ≡ none → ⊥
    not_none e = cc

pub Below-remove : (k : Str) (n : ℕ) (m : List (Str × Task)) → Below n m → Below n (remove k m)
unfolding remove
Below-remove k n [] b = tt
Below-remove k n ((j, w) ∷ m) b = ground (arith, Below-remove k n m)

Unused-remove : (k : Str) (i : ℕ) (m : List (Str × Task)) → Unused i m → Unused i (remove k m)
unfolding remove
Unused-remove k i [] b = tt
Unused-remove k i ((j, w) ∷ m) b = ground (arith, Unused-remove k i m)

pub Distinct-remove : (k : Str) (m : List (Str × Task)) → Distinct m → Distinct (remove k m)
unfolding remove
Distinct-remove k [] d = tt
Distinct-remove k ((j, w) ∷ m) d =
    ground (arith, Unused-remove k (id_of w) m d.0, Distinct-remove k m d.1)
