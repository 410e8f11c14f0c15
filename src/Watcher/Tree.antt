-- ===== src/Watcher/Tree.antt =====
-- `addRecursive` and the directories that `Start` begins with. filepath.WalkDir is what its
-- documentation says: it calls the function on a directory before it reads the entries, and once more
-- where it cannot read them.
pub mod Watched
use gopm.Base.{
  ℕ, zero, suc, ◌+◌, ◌-◌, ◌*◌, ◌/◌, ◌%◌, ◌^◌, ◌≤◌, ◌<◌, min, ◌≡◌, refl, sym, ap, ◌∙◌, ◌≢◌, ◌↔◌, ◌⊎◌,
  inl, inr, Bool, true, false, not, ◌&&◌, ◌||◌, Option, none, some, List, [], ◌∷◌, ◌++◌, map,
  append-nil, append_assoc, arith, ltb, leb, ◌==◌, if◌then◌else◌, ltb→lt, lt→ltb, leb→le, ==_iff,
  Bool-cases, Option-cases, length, get_or, set, take, drop, replicate, snoc, select, any, every,
  is_empty, last_n, length-append, length-set, get_or-set_self, get_or-set_ne, length-replicate,
  length-drop, drop_all, drop-append_left, drop-drop, drop-zero_eq, Str, codes, str_eq, is_blank,
  has_prefix, contains, str_eq_refl, eq_of_str_eq, str_eq_iff, has_prefix-append, has_prefix_iff,
}
use gopm.Watcher.{Watcher, separator, is_ignored, itoa}
use gopm.Base.Int.{ℤ}

-- What stands at a path: a file, or a directory with the text of the error where its entries cannot
-- be read, and the entries by their names.
mutual
  pub data Entry : Type 0 where
    file : Entry
    dir : Option Str → Entries → Entry

  pub data Entries : Type 0 where
    no_more : Entries
    entry : Str → Entry → Entries → Entries

-- What the calls of `addRecursive` have done: the directories that fsnotify was told to watch, and
-- the log lines, in order; `added` is the counter.
pub record Walk : Type 0 where
  pub added : ℕ
  pub watched : List Str
  pub log : List Str

abbrev pub logged : Str → Walk → Walk
logged text w = record w { log = snoc w.log text }

abbrev pub child : Str → Str → Str
child path name = path ++ (separator ∷ []) ++ name

-- `add_watch` is `fsw.Add`, with the text of its error; `ignored` is `isIgnored`.
module _ (ignored : Str → Bool) (add_watch : Str → Option Str) where
  abbrev pub add_result : Str → Option Str → Walk → Walk
  add_result path none w = record w { added = suc w.added; watched = snoc w.watched path }
  add_result path (some err) w = logged (codes "add watch " ++ path ++ codes ": " ++ err) w

  -- The walk of what stands at a path: a directory is skipped where it is ignored, and its entries
  -- where they cannot be read.
  unfoldable mutual
    pub walk : Entry → Str → Walk → Walk
    walk file path w = w
    walk (dir none entries) path w =
        let v = walk_entries entries path (add_result path (add_watch path) w) in
        if ignored path then w else v
    walk (dir (some err) entries) path w =
        let v = add_result path (add_watch path) w in
        if ignored path then w else logged (codes "walk " ++ path ++ codes ": " ++ err) v

    pub walk_entries : Entries → Str → Walk → Walk
    walk_entries no_more path w = w
    walk_entries (entry name e es) path w = walk_entries es path (walk e (child path name) w)

  -- `addRecursive`, which does nothing where nothing stands at the path; its error is always nil.
  abbrev pub add_recursive : Option Entry → Str → Walk → Walk
  add_recursive none path w = w
  add_recursive (some e) path w = walk e path w

-- A directory at or below what stands at a path, such that no directory on the way to it is ignored
-- or unreadable.
module _ (ignored : Str → Bool) where
  mutual
    pub data Reached : Entry → Str → Str → Type 0 where
      here :
          {unread : Option Str} {entries : Entries} {path : Str}
          → ignored path ≡ false
          → Reached (dir unread entries) path path
      below :
          {entries : Entries} {path p : Str}
          → ignored path ≡ false
          → ReachedIn entries path p
          → Reached (dir none entries) path p

    pub data ReachedIn : Entries → Str → Str → Type 0 where
      first :
          {name : Str} {e : Entry} {es : Entries} {path p : Str}
          → Reached e (child path name) p
          → ReachedIn (entry name e es) path p
      later :
          {name : Str} {e : Entry} {es : Entries} {path p : Str}
          → ReachedIn es path p
          → ReachedIn (entry name e es) path p
