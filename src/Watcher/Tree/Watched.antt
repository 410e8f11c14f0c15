-- ===== src/Watcher/Tree/Watched.antt =====
-- Which directories `addRecursive` watches.
use mathlib.Core.Path.{subst}
use gopm.Base.{
  ◌≡◌, refl, sym, ap, ◌∙◌, ◌≢◌, ◌↔◌, ◌⊎◌, inl, inr, Bool, false, Option, none, some, List, [], ◌∷◌,
  arith, Bool-cases, Option-cases, snoc, Str,
}
use gopm.Watcher.Filter.{Among}
use gopm.Watcher.Tree.{
  add_recursive, Entry, file, dir, Entries, no_more, entry, Walk, child, add_result, walk,
  walk_entries, Reached, here, below, ReachedIn, first, later,
}

Among-snoc_iff : (p : Str) (xs : List Str) (x : Str) → Among p (snoc xs x) ↔ (Among p xs ⊎ (p ≡ x))
Among-snoc_iff p [] x = ground arith
Among-snoc_iff p (y ∷ xs) x = ground (arith, Among-snoc_iff p xs x)

module _ (ignored : Str → Bool) where
  Reached-file : (path p : Str) → ¬ Reached ignored file path p
  Reached-file path p r = elim r [ ]

  ReachedIn-no_more : (path p : Str) → ¬ ReachedIn ignored no_more path p
  ReachedIn-no_more path p r = elim r [ ]

  Reached-dir_iff :
      (unread : Option Str) (es : Entries) (path p : Str)
      → Reached ignored (dir unread es) path p
        ↔ ((ignored path ≡ false) × ((p ≡ path) ⊎ ((unread ≡ none) × ReachedIn ignored es path p)))
  Reached-dir_iff unread es path p = (to, from)
    where
      to :
          {unread : Option Str} {es : Entries} {path p : Str}
          → Reached ignored (dir unread es) path p
          → (ignored path ≡ false) × ((p ≡ path) ⊎ ((unread ≡ none) × ReachedIn ignored es path p))
      to (here i) = (i, inl refl)
      to (below i r) = (i, inr (refl, r))

      from :
          {unread : Option Str} {es : Entries} {path p : Str}
          → (ignored path ≡ false) × ((p ≡ path) ⊎ ((unread ≡ none) × ReachedIn ignored es path p))
          → Reached ignored (dir unread es) path p
      from {unread} {es} {path} (i, inl e) =
          subst (λ x. Reached ignored (dir unread es) path x) (sym e) (here i)
      from {es = es} {path} {p} (i, inr (e, r)) =
          subst (λ x. Reached ignored (dir x es) path p) (sym e) (below i r)

  ReachedIn-entry_iff :
      (name : Str) (e : Entry) (es : Entries) (path p : Str)
      → ReachedIn ignored (entry name e es) path p
        ↔ (Reached ignored e (child path name) p ⊎ ReachedIn ignored es path p)
  ReachedIn-entry_iff name e es path p = (
    λ r. elim r [ first a ↦ inl a | later a ↦ inr a ],
    λ s. elim s [ inl a ↦ first a | inr a ↦ later a ],
  )

module _ (ignored : Str → Bool) (add_watch : Str → Option Str) where
  Among-add_result_iff :
      (path p : Str) (w : Walk)
      → Among p (add_result ignored add_watch path (add_watch path) w).watched
        ↔ (Among p w.watched ⊎ ((p ≡ path) × (add_watch p ≡ none)))
  Among-add_result_iff path p w = elim (Option-cases (add_watch path)) [
    | inl e ↦
        let k : p ≡ path → add_watch p ≡ none = λ q. ap add_watch q ∙ e in
        rw e (ground (arith, k, Among-snoc_iff p w.watched path))
    | inr (err, e) ↦ let k : p ≡ path → add_watch p ≢ none = λ q n. cc in rw e (ground (arith, k))
  ]

  mutual
    unfolding walk

    Among-walk_iff :
        (e : Entry) (path p : Str) (w : Walk)
        → Among p (walk ignored add_watch e path w).watched
          ↔ (Among p w.watched ⊎ (Reached ignored e path p × (add_watch p ≡ none)))
    Among-walk_iff file path p w = ground (arith, Reached-file ignored path p)
    Among-walk_iff (dir none es) path p w = elim (Bool-cases (ignored path)) [
      | inl i ↦ let c = Reached-dir_iff ignored none es path p in rw i (ground (arith, c))
      | inr i ↦
          let a = Among-add_result_iff path p w in
          let b =
            Among-walk_entries_iff es path p
              (add_result ignored add_watch path (add_watch path) w) in
          let c = Reached-dir_iff ignored none es path p in rw i (ground (arith, a, b, c))
    ]
    Among-walk_iff (dir (some err) es) path p w = elim (Bool-cases (ignored path)) [
      | inl i ↦ let c = Reached-dir_iff ignored (some err) es path p in rw i (ground (arith, c))
      | inr i ↦
          let a = Among-add_result_iff path p w in
          let c = Reached-dir_iff ignored (some err) es path p in rw i (ground (arith, a, c))
    ]

    Among-walk_entries_iff :
        (es : Entries) (path p : Str) (w : Walk)
        → Among p (walk_entries ignored add_watch es path w).watched
          ↔ (Among p w.watched ⊎ (ReachedIn ignored es path p × (add_watch p ≡ none)))
    Among-walk_entries_iff no_more path p w = ground (arith, ReachedIn-no_more ignored path p)
    Among-walk_entries_iff (entry name e es) path p w =
        let a = Among-walk_iff e (child path name) p w in
        let b = Among-walk_entries_iff es path p (walk ignored add_watch e (child path name) w) in
        ground (arith, ReachedIn-entry_iff ignored name e es path p)

  -- `addRecursive` adds to the directories watched exactly those that fsnotify accepts, of the
  -- directories at or below the root that have no ignored directory and no unreadable one on the way
  -- from it; a refusal of one does not keep out those below it.
  pub Among-add_recursive_iff :
      (e : Entry) (path p : Str) (w : Walk)
      → Among p (add_recursive ignored add_watch (some e) path w).watched
        ↔ (Among p w.watched ⊎ (Reached ignored e path p × (add_watch p ≡ none)))
  Among-add_recursive_iff e path p w = Among-walk_iff e path p w
