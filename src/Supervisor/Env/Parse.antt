-- ===== src/Supervisor/Env/Parse.antt =====
-- What `parseEnvFile` reads of a line that gives a variable a quoted value.
use gopm.Base.{
  ℕ, suc, ◌-◌, ◌≡◌, refl, ap, ◌∙◌, Bool, true, false, ◌&&◌, ◌||◌, some, List, [], ◌∷◌, ◌++◌, arith,
  leb, ◌==◌, if◌then◌else◌, length, get_or, take, drop, snoc, length-append, Str, has_prefix,
}
use mathlib.Core.Path.{ap₂}
use gopm.Base.Dict.{insert}
use gopm.Supervisor.Exec.{index_byte}
use gopm.Supervisor.Env.{env_entry, quoted_by, unquote, put_at, parse_line}
use gopm.Supervisor.Env.Merge.{Plain}

take-length : (s t : Str) → take (length s) (s ++ t) ≡ s
take-length [] t = refl
take-length (c ∷ s) t = ap (◌∷◌ c) (take-length s t)

drop-past_entry : (k w : Str) → drop (suc (length k)) (env_entry k w) ≡ w
drop-past_entry [] w = refl
drop-past_entry (c ∷ k) w = drop-past_entry k w

get_or-snoc : (s : Str) (c : ℕ) → get_or (snoc s c) (length s) 0 ≡ c
get_or-snoc [] c = refl
get_or-snoc (d ∷ s) c = get_or-snoc s c

-- The index of the first equals sign is that after the name.
index_byte-entry : (k v : Str) → Plain k → index_byte (env_entry k v) b'=' ≡ some (length k)
unfolding index_byte
index_byte-entry [] v p = refl
index_byte-entry (c ∷ k) v p = rw (p.0, index_byte-entry k v p.1) refl

-- A value in double quotes.
abbrev pub in_quotes : Str → Str
in_quotes v = 34 ∷ snoc v 34

unquote-in_quotes : (v : Str) → unquote (in_quotes v) ≡ v
unfolding unquote
unquote-in_quotes v =
    if_true
      (leb 2 (length (in_quotes v)) && (quoted_by 34 (in_quotes v) || quoted_by 39 (in_quotes v))) _
      _ (ap₂ ◌&&◌ long (ap (λ (b : Bool). b || quoted_by 39 (in_quotes v)) ends))
    ∙ (ap (λ (n : ℕ). take n (snoc v 34)) inner ∙ take-length v (34 ∷ []))
  where
    if_true : (b : Bool) (x y : Str) → b ≡ true → (if b then x else y) ≡ x
    if_true true x y e = refl
    if_true false x y e = cc

    inner : length (in_quotes v) - 2 ≡ length v
    inner = omega (arith, length-append v (34 ∷ []))

    last : length (in_quotes v) - 1 ≡ suc (length v)
    last = omega (arith, length-append v (34 ∷ []))

    long : leb 2 (length (in_quotes v)) ≡ true
    long = ground (arith, length-append v (34 ∷ []))

    ends : quoted_by 34 (in_quotes v) ≡ true
    ends =
        ap (λ (n : ℕ). get_or (in_quotes v) n 0 == 34) last
        ∙ ap (λ (c : ℕ). c == 34) (get_or-snoc v 34)

module _ (trim : Str → Str) where
  put_at-entry :
      (k v : Str) (m : List (Str × Str))
      → Plain k
      → trim k ≡ k
      → trim (in_quotes v) ≡ in_quotes v
      → put_at trim (env_entry k (in_quotes v)) m (index_byte (env_entry k (in_quotes v)) b'=')
        ≡ insert k v m
  put_at-entry k v m p t u =
      ap (put_at trim (env_entry k (in_quotes v)) m) (index_byte-entry k (in_quotes v) p)
      ∙ ap₂ (λ (x y : Str). insert x y m) (ap trim (take-length k (b'=' ∷ in_quotes v)) ∙ t)
          (ap (λ (x : Str). unquote (trim x)) (drop-past_entry k (in_quotes v))
            ∙ ap unquote u
            ∙ unquote-in_quotes v)

  -- A line with a name, an equals sign and a value in double quotes gives the name this value,
  -- whatever is in the value, if the name is not empty, does not start with `#` and has no equals
  -- sign in it, and if neither the line, nor the name, nor the quoted value has blanks around it.
  pub parse_line-entry :
      (c : ℕ) (k v : Str) (m : List (Str × Str))
      → Plain (c ∷ k)
      → (c == b'#') ≡ false
      → trim (env_entry (c ∷ k) (in_quotes v)) ≡ env_entry (c ∷ k) (in_quotes v)
      → trim (c ∷ k) ≡ c ∷ k
      → trim (in_quotes v) ≡ in_quotes v
      → parse_line trim (env_entry (c ∷ k) (in_quotes v)) m ≡ insert (c ∷ k) v m
  unfolding parse_line has_prefix
  parse_line-entry c k v m p h l t u = rw (l, h) (put_at-entry (c ∷ k) v m p t u)
