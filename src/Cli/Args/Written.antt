-- ===== src/Cli/Args/Written.antt =====
-- The arguments of `gopm logs`, as a user writes them.
use gopm.Base.{
  ◌≡◌, refl, ◌∙◌, Bool, true, false, Option, none, some, List, [], ◌∷◌, ◌++◌, arith, Str, codes,
  str_eq, is_blank, has_prefix,
}
use gopm.Base.Int.{ℤ, is_nonpos}
use gopm.Cli.Args.{LogsArgs, parsed, used, reading, read_args, parse_logs_args, defaults}

-- What a user can ask for, in each spelling: a value stands after `=`, or in an argument of its own.
pub data Wish : Type 0 where
  json : Wish
  follow : Bool → Wish
  all : Bool → Wish
  lines_short lines_long lines_short_eq lines_long_eq : Str → Wish
  since since_eq grep grep_eq : Str → Wish
  name : Str → Wish

abbrev pub written : Wish → List Str
written json = codes "--json" ∷ []
written (follow true) = codes "-f" ∷ []
written (follow false) = codes "--follow" ∷ []
written (all true) = codes "-a" ∷ []
written (all false) = codes "--all" ∷ []
written (lines_short v) = codes "-n" ∷ v ∷ []
written (lines_long v) = codes "--lines" ∷ v ∷ []
written (lines_short_eq v) = (codes "-n=" ++ v) ∷ []
written (lines_long_eq v) = (codes "--lines=" ++ v) ∷ []
written (since v) = codes "--since" ∷ v ∷ []
written (since_eq v) = (codes "--since=" ++ v) ∷ []
written (grep v) = codes "--grep" ∷ v ∷ []
written (grep_eq v) = (codes "--grep=" ++ v) ∷ []
written (name v) = v ∷ []

abbrev pub written_all : List Wish → List Str
written_all [] = []
written_all (x ∷ xs) = written x ++ written_all xs

module _ (atoi : Str → Option ℤ) where
  -- A number that is positive.
  abbrev pub Number : Str → Type 0
  Number v = (n : ℤ) × (atoi v ≡ some n) × (is_nonpos n ≡ false)

  -- The value of a number; any other text is not among the wishes.
  abbrev pub number_or : Option ℤ → ℤ → ℤ
  number_or none d = d
  number_or (some n) d = n

  -- A number is positive; a name does not begin like a flag, and is the first.
  abbrev pub Fits : LogsArgs → Wish → Type 0
  Fits a (lines_short v) = Number v
  Fits a (lines_long v) = Number v
  Fits a (lines_short_eq v) = Number v
  Fits a (lines_long_eq v) = Number v
  Fits a (name v) = (is_blank a.name ≡ true) × (has_prefix v (codes "-") ≡ false)
  Fits a _ = Unit

  -- The settings after a wish.
  abbrev pub granted : Wish → LogsArgs → LogsArgs
  granted json a = record a { json_out = true }
  granted (follow short) a = record a { follow = true }
  granted (all short) a = record a { all = true }
  granted (lines_short v) a = record a { lines = number_or (atoi v) a.lines }
  granted (lines_long v) a = record a { lines = number_or (atoi v) a.lines }
  granted (lines_short_eq v) a = record a { lines = number_or (atoi v) a.lines }
  granted (lines_long_eq v) a = record a { lines = number_or (atoi v) a.lines }
  granted (since v) a = record a { since = v }
  granted (since_eq v) a = record a { since = v }
  granted (grep v) a = record a { grep = v }
  granted (grep_eq v) a = record a { grep = v }
  granted (name v) a = record a { name = v }

  abbrev pub granted_all : List Wish → LogsArgs → LogsArgs
  granted_all [] a = a
  granted_all (x ∷ xs) a = granted_all xs (granted x a)

  abbrev pub FitAll : LogsArgs → List Wish → Type 0
  FitAll a [] = Unit
  FitAll a (x ∷ xs) = Fits a x × FitAll (granted x a) xs

  -- A name is not taken for a flag.
  str_eq-dash : (v t : Str) → has_prefix v (codes "-") ≡ false → str_eq v (b'-' ∷ t) ≡ false
  unfolding str_eq has_prefix codes
  str_eq-dash [] t h = refl
  str_eq-dash (c ∷ s) t h = ground arith

  has_prefix-dash : (v t : Str) → has_prefix v (codes "-") ≡ false → has_prefix v (b'-' ∷ t) ≡ false
  unfolding str_eq has_prefix codes
  has_prefix-dash [] t h = refl
  has_prefix-dash (c ∷ s) t h = ground arith

  reading-name :
      (v : Str) (a : LogsArgs)
      → is_blank a.name ≡ true
      → has_prefix v (codes "-") ≡ false
      → reading atoi v a ≡ used (record a { name = v })
  unfolding reading codes
  reading-name v a b n =
      rw
        (
          str_eq-dash v (codes "-json") n,
          str_eq-dash v (codes "f") n,
          str_eq-dash v (codes "-follow") n,
          str_eq-dash v (codes "-all") n,
          str_eq-dash v (codes "a") n,
          str_eq-dash v (codes "n") n,
          str_eq-dash v (codes "-lines") n,
          str_eq-dash v (codes "-since") n,
          str_eq-dash v (codes "-grep") n,
          has_prefix-dash v (codes "n=") n,
          has_prefix-dash v (codes "-lines=") n,
          has_prefix-dash v (codes "-since=") n,
          has_prefix-dash v (codes "-grep=") n,
          n,
          b,
        )
        refl

  read_args-written :
      (x : Wish) (args : List Str) (a : LogsArgs)
      → Fits a x
      → read_args atoi (written x ++ args) a ≡ read_args atoi args (granted x a)
  unfolding read_args reading codes str_eq has_prefix
  read_args-written json args a h = refl
  read_args-written (follow true) args a h = refl
  read_args-written (follow false) args a h = refl
  read_args-written (all true) args a h = refl
  read_args-written (all false) args a h = refl
  read_args-written (lines_short v) args a (n, e, p) = rw (e, read_args, p) refl
  read_args-written (lines_long v) args a (n, e, p) = rw (e, read_args, p) refl
  read_args-written (lines_short_eq v) args a (n, e, p) = rw (e, read_args, p) refl
  read_args-written (lines_long_eq v) args a (n, e, p) = rw (e, read_args, p) refl
  read_args-written (since v) args a h = refl
  read_args-written (since_eq v) args a h = refl
  read_args-written (grep v) args a h = refl
  read_args-written (grep_eq v) args a h = refl
  read_args-written (name v) args a (b, n) = rw (reading-name v a b n, read_args) refl

  read_args-written_all :
      (xs : List Wish) (a : LogsArgs)
      → FitAll a xs
      → read_args atoi (written_all xs) a ≡ parsed (granted_all xs a)
  unfolding read_args
  read_args-written_all [] a h = refl
  read_args-written_all (x ∷ xs) a h =
      read_args-written x (written_all xs) a h.0 ∙ read_args-written_all xs (granted x a) h.1

  -- Wishes that are written out as arguments, in any order and spelling, are parsed as what they ask
  -- for, where the numbers are positive, at most one is a name, and that does not begin with a dash:
  -- a later wish replaces an earlier one of its kind, and the others are as they are by default.
  pub parse_logs_args-written :
      (xs : List Wish)
      → FitAll defaults xs
      → parse_logs_args atoi (written_all xs) ≡ parsed (granted_all xs defaults)
  parse_logs_args-written xs h = read_args-written_all xs defaults h
