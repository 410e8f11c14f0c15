-- ===== src/Store/Atomic.antt =====
-- What a save leaves on the disk, however far it gets.
use gopm.Base.{
  ◌≡◌, refl, sym, ap, ◌∙◌, ◌≢◌, ◌⊎◌, inl, inr, Bool, true, false, Option, none, some, [], arith,
  if◌then◌else◌, Bool-cases, take, Str, str_eq, is_blank, str_eq_refl, eq_of_str_eq, str_eq_iff,
}
use mathlib.Core.Path.{ap₂}
use gopm.Base.Dict.{insert, lookup-insert, lookup-insert_self, lookup-remove}
use gopm.Logger.Rotate.Shift.{can_open-rename, read-rename_other, read-rename_to}
use gopm.Base.Disk.{Disk, read, create, append_to, rename, remove_file}
use gopm.Store.{
  State, Attempt, mkdir_fails, create_fails, write_fails, sync_fails, close_fails, rename_fails,
  succeeds, SaveError, mkdir_state_dir, marshal_state, create_tmp, write_tmp, fsync_tmp, close_tmp,
  rename_tmp, written, save_body, encoded, is_mkdir_fails, save, load, opened, decoded, resumed,
}

-- The temporary file is gone, and no other file but `path` has changed.
abbrev pub Tidy : Str → Str → Disk → Disk → Type 0
Tidy tmp path d d' = (read tmp d' ≡ none) × ((q : Str) → q ≢ path → read q d' ≡ read q d)

read-remove :
    (p q : Str) (d : Disk) → read q (remove_file p d) ≡ (if str_eq p q then none else read q d)
unfolding remove_file
read-remove p q d = lookup-remove p q d.files

read-written :
    (tmp q body : Str) (d : Disk)
    → read q (written tmp body d) ≡ (if str_eq tmp q then some body else read q d)
unfolding create append_to
read-written tmp q body d = rw (lookup-insert_self tmp [] d.files) (
    lookup-insert tmp q body (insert tmp [] d.files) ∙ (elim (Bool-cases (str_eq tmp q)) [
      | inl e ↦ rw e refl
      | inr e ↦ rw e (lookup-insert tmp q [] d.files ∙ rw e refl)
    ]))

-- What a save leaves: on success the new contents at `path`, on failure the old ones.
abbrev pub Left : Str → Str → Disk → Option Str → Disk × Option SaveError → Type 0
Left tmp path d body (d', e) =
    Tidy tmp path d d'
    × (((e ≡ none) × (read path d' ≡ body)) ⊎ ((e ≢ none) × (read path d' ≡ read path d)))

module _ (tmp path : Str) (d : Disk) (other : tmp ≢ path) (unused : read tmp d ≡ none) where
  untouched : (body : Option Str) (x : SaveError) → Left tmp path d body (d, some x)
  untouched body x = ((unused, λ q n. refl), inr (λ e. cc, refl))

  no_file : (q : Str) → str_eq tmp q ≡ true → none ≡ read q d
  no_file q e = sym unused ∙ ap (λ (p : Str). read p d) (eq_of_str_eq tmp q e)

  ne_of_false : (q : Str) → str_eq tmp q ≡ false → tmp ≢ q
  ne_of_false q e = ground (arith, str_eq_iff tmp q)

  restored : (part q : Str) → read q (remove_file tmp (written tmp part d)) ≡ read q d
  restored part q = read-remove tmp q (written tmp part d) ∙ (elim (Bool-cases (str_eq tmp q)) [
    | inl e ↦ rw e (no_file q e)
    | inr e ↦ rw e (read-written tmp q part d ∙ rw e refl)
  ])

  abandoned :
      (part : Str) (body : Option Str) (x : SaveError)
      → Left tmp path d body (remove_file tmp (written tmp part d), some x)
  abandoned part body x =
      ((restored part tmp ∙ unused, λ q n. restored part q), inr (λ e. cc, restored part path))

  replaced : (body : Str) → Left tmp path d (some body) (save_body succeeds tmp path body d)
  unfolding save_body
  replaced body = (
    (
      read-remove tmp tmp (rename tmp path (written tmp body d)) ∙ rw (str_eq_refl tmp) refl,
      λ q n.
          read-remove tmp q (rename tmp path (written tmp body d))
          ∙ (elim (Bool-cases (str_eq tmp q)) [
            | inl e ↦ rw e (no_file q e)
            | inr e ↦ rw e (
                read-rename_other tmp path q (written tmp body d) other
                  (λ p. ne_of_false q e (sym p)) n
                ∙ read-written tmp q body d
                ∙ rw e refl)
          ]),
    ),
    inl (
      refl,
      read-remove tmp path (rename tmp path (written tmp body d))
          ∙ rw apart (
              read-rename_to tmp path (written tmp body d) other
              ∙ rw (read-written tmp tmp body d, str_eq_refl tmp) refl),
    ),
  )
    where
      apart : str_eq tmp path ≡ false
      apart = ground (arith, str_eq_iff tmp path)

  saved : (a : Attempt) (body : Str) → Left tmp path d (some body) (save_body a tmp path body d)
  unfolding save_body
  saved mkdir_fails body = untouched (some body) mkdir_state_dir
  saved create_fails body = untouched (some body) create_tmp
  saved (write_fails k) body = abandoned (take k body) (some body) write_tmp
  saved sync_fails body = abandoned body (some body) fsync_tmp
  saved close_fails body = abandoned body (some body) close_tmp
  saved rename_fails body = abandoned body (some body) rename_tmp
  saved succeeds body = replaced body

  saved_encoded : (a : Attempt) (o : Option Str) → Left tmp path d o (encoded a tmp path d o)
  saved_encoded a none = untouched none marshal_state
  saved_encoded a (some body) = saved a body

  -- A save to a path that is not empty, by a temporary file that is new and not the path itself. It
  -- leaves no temporary file and changes no file but the one at the path; there it leaves the whole
  -- new contents if it returns no error, and what was there before if it returns one, whichever
  -- call of the operating system fails and however much was written.
  pub save-Left :
      (encode : State → Option Str) (a : Attempt) (st : State)
      → is_blank path ≡ false
      → Left tmp path d (encode st) (save encode a tmp path st d)
  unfolding save
  save-Left encode a st b = elim (Bool-cases (is_mkdir_fails a)) [
    | inl e ↦ rw (b, e) (untouched (encode st) mkdir_state_dir)
    | inr e ↦ rw (b, e) (saved_encoded a (encode st))
  ]

  kept_open : (body : Str) → (save_body succeeds tmp path body d).0.can_open path ≡ d.can_open path
  unfolding save_body remove_file create append_to
  kept_open body =
      ap (λ (f : Str → Bool). f path) (can_open-rename path tmp path (written tmp body d))

  -- A save that succeeds is read back by a load, if the path can be opened, is not empty and not
  -- that of the temporary file, which is new, and if the decoder reads the state from its encoding.
  pub load-save :
      (encode : State → Option Str) (decode : Str → Option State) (st : State) (body : Str)
      → is_blank path ≡ false
      → d.can_open path ≡ true
      → encode st ≡ some body
      → decode body ≡ some st
      → load decode path (save encode succeeds tmp path st d).0 ≡ resumed st
  unfolding save load
  load-save encode decode st body b c e codec =
      rw (b, e) (ap₂ (opened decode) (kept_open body ∙ c) stored ∙ ap decoded codec)
    where
      stored : read path (save_body succeeds tmp path body d).0 ≡ some body
      stored = elim (replaced body).1 [
        | inl p ↦ p.1
        | inr p ↦ absurd (p.0 (unfold save_body in refl))
      ]
