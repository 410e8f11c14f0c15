-- ===== src/Logger/Rotate/Shift.antt =====
-- What `rotate` does to the backups.
use gopm.Base.{
  ℕ, zero, suc, ◌+◌, ◌≤◌, ◌<◌, ◌≡◌, refl, ◌∙◌, ◌≢◌, inl, inr, Option, none, some, [], ◌∷◌, arith,
  if◌then◌else◌, Option-cases, Str, str_eq, str_eq_iff, true, ap, Bool,
}
use mathlib.Core.Path.{ap₂}
use native.Mathlib.Decide.{dec_lt}
use gopm.Base.Decimal.{decimal_inj}
use gopm.Base.Dict.{remove, lookup-insert, lookup-remove}
use gopm.Base.Disk.{Disk, read, rename, try_rename}
use gopm.Logger.Rotate.{backup, shift}

-- The renames of `shift` where none of them is refused.
unfoldable pub clear_shift : Str → ℕ → Disk → Disk
clear_shift path zero d = d
clear_shift path (suc k) d =
    clear_shift path k (rename (backup path (suc k)) (backup path (suc (suc k))) d)

-- No rename is refused.
abbrev pub Renames : Disk → Type 0
Renames d = (p q : Str) → d.can_rename p q ≡ true

pub try_rename-eq : (from to : Str) (d : Disk) → Renames d → try_rename from to d ≡ rename from to d
unfolding try_rename
try_rename-eq from to d r = rw (r from to) refl

can_rename-rename : (from to : Str) (d : Disk) → (rename from to d).can_rename ≡ d.can_rename
unfolding rename
can_rename-rename from to d = elim (Option-cases (read from d)) [
  | inl e ↦ rw (e, rename)
  | inr (b, e) ↦ rw (e, rename)
]

Renames-rename : (from to : Str) (d : Disk) → Renames d → Renames (rename from to d)
Renames-rename from to d r p q =
    ap (λ (f : Str → Str → Bool). f p q) (can_rename-rename from to d) ∙ r p q

pub Renames-clear_shift :
    (path : Str) (k : ℕ) (d : Disk) → Renames d → Renames (clear_shift path k d)
unfolding clear_shift
Renames-clear_shift path zero d r = r
Renames-clear_shift path (suc k) d r =
    Renames-clear_shift path k (rename (backup path (suc k)) (backup path (suc (suc k))) d)
      (Renames-rename (backup path (suc k)) (backup path (suc (suc k))) d r)

pub shift-eq : (path : Str) (k : ℕ) (d : Disk) → Renames d → shift path k d ≡ clear_shift path k d
unfolding shift clear_shift
shift-eq path zero d r = refl
shift-eq path (suc k) d r =
    ap (shift path k) (try_rename-eq (backup path (suc k)) (backup path (suc (suc k))) d r)
    ∙ shift-eq path k (rename (backup path (suc k)) (backup path (suc (suc k))) d)
        (Renames-rename (backup path (suc k)) (backup path (suc (suc k))) d r)

-- The first of two files that is there.
abbrev pub or_else {ℓ} : {A : Type ℓ} → Option A → Option A → Option A
or_else none o = o
or_else (some a) o = some a

backup_inj : (path : Str) (i j : ℕ) → backup path i ≡ backup path j → i ≡ j
unfolding backup
backup_inj [] i j e = decimal_inj i j (cc)
backup_inj (c ∷ path) i j e = backup_inj path i j (cc)

pub backup-ne : (path : Str) (i : ℕ) → path ≢ backup path i
unfolding backup
backup-ne [] i e = cc
backup-ne (c ∷ path) i e = backup-ne path i (cc)

-- What is read after a rename of one path to another.
read-rename :
    (from to p : Str) (d : Disk)
    → from ≢ to
    → read p (rename from to d) ≡ (
        if str_eq to p
        then or_else (read from d) (read to d)
        else if str_eq from p
        then none
        else read p d)
unfolding rename
read-rename from to p d ne = elim (Option-cases (read from d)) [
  | inl e ↦ rw (e, rename) (ground (arith, str_eq_iff to p, str_eq_iff from p))
  | inr (b, e) ↦
      rw (e, rename)
        (ground (
          arith,
          lookup-insert to p b (remove from d.files),
          lookup-remove from p d.files,
          str_eq_iff to p,
          str_eq_iff from p,
        ))
]

pub read-rename_other :
    (from to p : Str) (d : Disk)
    → from ≢ to
    → p ≢ from
    → p ≢ to
    → read p (rename from to d) ≡ read p d
read-rename_other from to p d ne a b =
    read-rename from to p d ne ∙ ground (arith, str_eq_iff to p, str_eq_iff from p)

pub read-rename_to :
    (from to : Str) (d : Disk)
    → from ≢ to
    → read to (rename from to d) ≡ or_else (read from d) (read to d)
read-rename_to from to d ne = read-rename from to to d ne ∙ ground (arith, str_eq_iff to to)

read-rename_from : (from to : Str) (d : Disk) → from ≢ to → read from (rename from to d) ≡ none
read-rename_from from to d ne =
    read-rename from to from d ne ∙ ground (arith, str_eq_iff to from, str_eq_iff from from)

pub backup-ne-backup : (path : Str) (i j : ℕ) → i ≢ j → backup path i ≢ backup path j
backup-ne-backup path i j h e = h (backup_inj path i j e)

module _ (path : Str) where
  -- The renames leave alone what is none of the backups 1 to k + 1.
  pub shift_other :
      (k : ℕ) (p : Str) (d : Disk)
      → ((i : ℕ) → i ≤ k + 1 → p ≢ backup path i)
      → read p (clear_shift path k d) ≡ read p d
  unfolding clear_shift
  shift_other zero p d h = refl
  shift_other (suc k) p d h =
      let d' = rename (backup path (suc k)) (backup path (suc (suc k))) d in
      shift_other k p d' (λ i le. h i (omega arith))
      ∙ read-rename_other (backup path (suc k)) (backup path (suc (suc k))) p d
          (backup-ne-backup path (suc k) (suc (suc k)) (omega arith)) (h (suc k) (omega arith))
          (h (suc (suc k)) (omega arith))

  -- The last target.
  pub shift_top :
      (k : ℕ) (d : Disk)
      → read (backup path (suc (suc k))) (clear_shift path (suc k) d)
        ≡ or_else (read (backup path (suc k)) d) (read (backup path (suc (suc k))) d)
  unfolding clear_shift
  shift_top k d =
      shift_other k (backup path (suc (suc k)))
        (rename (backup path (suc k)) (backup path (suc (suc k))) d)
        (λ i le. backup-ne-backup path (suc (suc k)) i (omega arith))
      ∙ read-rename_to (backup path (suc k)) (backup path (suc (suc k))) d
          (backup-ne-backup path (suc k) (suc (suc k)) (omega arith))

  -- The first source is gone.
  shift_first : (k : ℕ) (d : Disk) → read (backup path 1) (clear_shift path (suc k) d) ≡ none
  unfolding clear_shift
  shift_first zero d =
      read-rename_from (backup path 1) (backup path 2) d (backup-ne-backup path 1 2 (omega arith))
  shift_first (suc k) d =
      shift_first k (rename (backup path (suc (suc k))) (backup path (suc (suc (suc k)))) d)

  or_else-none : (o : Option Str) → or_else o none ≡ o
  or_else-none none = refl
  or_else-none (some b) = refl

  shift_under :
      (k : ℕ) (d : Disk)
      → read (backup path (suc (suc k))) (clear_shift path (suc (suc k)) d)
        ≡ read (backup path (suc k)) d
  shift_under k d =
      unfold clear_shift in (shift_top k (out d) ∙ ap₂ or_else (kept d) (gone d) ∙ or_else-none _)
    where
      out : Disk → Disk
      out d = rename (backup path (suc (suc k))) (backup path (suc (suc (suc k)))) d

      gone : (d : Disk) → read (backup path (suc (suc k))) (out d) ≡ none
      gone d =
          read-rename_from (backup path (suc (suc k))) (backup path (suc (suc (suc k)))) d
            (backup-ne-backup path (suc (suc k)) (suc (suc (suc k))) (omega arith))

      kept : (d : Disk) → read (backup path (suc k)) (out d) ≡ read (backup path (suc k)) d
      kept d =
          read-rename_other (backup path (suc (suc k))) (backup path (suc (suc (suc k))))
            (backup path (suc k)) d
            (backup-ne-backup path (suc (suc k)) (suc (suc (suc k))) (omega arith))
            (backup-ne-backup path (suc k) (suc (suc k)) (omega arith))
            (backup-ne-backup path (suc k) (suc (suc (suc k))) (omega arith))

  -- Every other backup takes the contents of the one before.
  pub shift_between :
      (k j : ℕ) (d : Disk)
      → 0 < j
      → j < k
      → read (backup path (suc j)) (clear_shift path k d) ≡ read (backup path j) d
  unfolding clear_shift
  shift_between zero j d h l = absurd (omega arith)
  shift_between (suc zero) j d h l = absurd (omega arith)
  shift_between (suc (suc k)) j d h l = elim (dec_lt j (suc k)) [
    | yes p ↦
        shift_between (suc k) j
          (rename (backup path (suc (suc k))) (backup path (suc (suc (suc k)))) d) h p
        ∙ before
    | no p ↦ let e : j ≡ suc k = omega arith in rw e (shift_under k d)
  ]
    where
      before :
          read
            (backup path j)
            (rename (backup path (suc (suc k))) (backup path (suc (suc (suc k)))) d)
          ≡ read (backup path j) d
      before =
          read-rename_other (backup path (suc (suc k))) (backup path (suc (suc (suc k))))
            (backup path j) d
            (backup-ne-backup path (suc (suc k)) (suc (suc (suc k))) (omega arith))
            (backup-ne-backup path j (suc (suc k)) (omega arith))
            (backup-ne-backup path j (suc (suc (suc k))) (omega arith))

  pub can_open-rename : (from to : Str) (d : Disk) → (rename from to d).can_open ≡ d.can_open
  unfolding rename
  can_open-rename from to d = elim (Option-cases (read from d)) [
    | inl e ↦ rw (e, rename)
    | inr (b, e) ↦ rw (e, rename)
  ]

  pub can_open-clear_shift : (k : ℕ) (d : Disk) → (clear_shift path k d).can_open ≡ d.can_open
  unfolding clear_shift
  can_open-clear_shift zero d = refl
  can_open-clear_shift (suc k) d =
      can_open-clear_shift k (rename (backup path (suc k)) (backup path (suc (suc k))) d)
      ∙ can_open-rename (backup path (suc k)) (backup path (suc (suc k))) d
