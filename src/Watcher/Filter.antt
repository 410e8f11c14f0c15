-- ===== src/Watcher/Filter.antt =====
-- Which changes fire.
use gopm.Base.{
  ◌≡◌, refl, ◌≢◌, ◌↔◌, ◌⊎◌, inl, inr, true, false, ◌||◌, List, [], ◌∷◌, ◌++◌, arith, Bool-cases,
  any, is_empty, Str, str_eq, has_prefix, str_eq_iff, has_prefix-append, has_prefix_iff,
}
use gopm.Watcher.{Watcher, FsEvent, separator, is_under, is_ignored, should_fire}

-- The path is not the directory and not below it.
abbrev pub Outside : Str → Str → Type 0
Outside path dir = (path ≢ dir) × ((rest : Str) → path ≢ dir ++ (separator ∷ []) ++ rest)

abbrev pub OutsideAll : Str → List Str → Type 0
OutsideAll path [] = Unit
OutsideAll path (dir ∷ dirs) = Outside path dir × OutsideAll path dirs

-- The string is in the list.
abbrev pub Among : Str → List Str → Type 0
Among s [] = ⊥
Among s (t ∷ ts) = (s ≡ t) ⊎ Among s ts

Among-iff : (s : Str) (ts : List Str) → (any (str_eq s) ts ≡ true) ↔ Among s ts
Among-iff s [] = (λ h. cc, λ h. absurd h)
Among-iff s (t ∷ ts) = ground (arith, str_eq_iff s t, Among-iff s ts)

Outside-iff : (path dir : Str) → (is_under path dir ≡ false) ↔ Outside path dir
unfolding is_under
Outside-iff path dir = (
  λ h. (
    λ e. ground (arith, str_eq_iff path dir),
    λ rest e.
        let p : has_prefix path (dir ++ (separator ∷ [])) ≡ true =
          rw e (has_prefix-append (dir ++ (separator ∷ [])) rest) in
        ground arith,
  ),
  λ h. elim (Bool-cases (has_prefix path (dir ++ (separator ∷ [])))) [
    | inl e ↦ let r = has_prefix_iff path (dir ++ (separator ∷ [])) e in absurd (h.1 r.0 r.1)
    | inr e ↦ ground (arith, str_eq_iff path dir)
  ],
)

OutsideAll-iff :
    (path : Str) (dirs : List Str) → (any (is_under path) dirs ≡ false) ↔ OutsideAll path dirs
OutsideAll-iff path [] = (λ h. tt, λ h. refl)
OutsideAll-iff path (dir ∷ dirs) = ground (arith, Outside-iff path dir, OutsideAll-iff path dirs)

is_empty_iff : (ts : List Str) → (is_empty ts ≡ true) ↔ (ts ≡ [])
is_empty_iff [] = (λ h. refl, λ h. refl)
is_empty_iff (t ∷ ts) = (λ h. cc, λ h. cc)

module _ (clean_abs : Str → Str) (ext : Str → Str) (lower : Str → Str)
    (abs_under : Str → Str → Str) where
  -- An event fires exactly if it writes, creates, removes or renames a file, the file's cleaned
  -- path is no ignored directory and not below one, and its extension in lower case is among those
  -- watched, unless none is given.
  pub should_fire_iff :
      (w : Watcher) (ev : FsEvent)
      → (should_fire clean_abs ext lower abs_under w ev ≡ true) ↔ (
          ((ev.op_write || ev.op_create || ev.op_remove || ev.op_rename) ≡ true)
          × OutsideAll (clean_abs ev.name) w.ignore_abs
          × ((w.ext_set ≡ []) ⊎ Among (lower (ext ev.name)) w.ext_set))
  unfolding should_fire is_ignored
  should_fire_iff w ev = ground (
    arith,
    OutsideAll-iff (clean_abs ev.name) w.ignore_abs,
    Among-iff (lower (ext ev.name)) w.ext_set,
    is_empty_iff w.ext_set,
  )
