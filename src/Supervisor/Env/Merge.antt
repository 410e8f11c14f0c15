-- ===== src/Supervisor/Env/Merge.antt =====
-- Which value a variable has in a child.
use gopm.Base.{
  ◌≡◌, ◌≢◌, ◌⊎◌, codes, is_blank, refl, sym, true, false, Option, none, some, List, [], ◌∷◌, ◌++◌,
  ◌==◌, if◌then◌else◌, Str,
}
use gopm.Base.Dict.{lookup}

abbrev pub prefer : Option Str → Option Str → Option Str
prefer none o = o
prefer (some v) o = some v

-- The value that an entry gives a variable.
unfoldable pub value_in : Str → Str → Option Str
value_in [] [] = none
value_in [] (c ∷ e) = if c == b'=' then some e else none
value_in (a ∷ k) [] = none
value_in (a ∷ k) (c ∷ e) = let rest = value_in k e in if a == c then rest else none

-- A later entry of an environment wins, as package os/exec documents.
unfoldable pub value_of : Str → List Str → Option Str
value_of k [] = none
value_of k (e ∷ es) = prefer (value_of k es) (value_in k e)

-- The name of a variable: no equals sign is in it.
abbrev pub Plain : Str → Type 0
Plain [] = Unit
Plain (c ∷ k) = ((c == b'=') ≡ false) × Plain k

-- A map from names of variables: no key is there twice.
abbrev pub Proper : List (Str × Str) → Type 0
Proper [] = Unit
Proper ((k, v) ∷ m) = Plain k × (lookup k m ≡ none) × Proper m

prefer-none : (o : Option Str) → prefer o none ≡ o
prefer-none none = refl
prefer-none (some v) = refl

prefer_assoc : (o p q : Option Str) → prefer (prefer o p) q ≡ prefer o (prefer p q)
prefer_assoc none p q = refl
prefer_assoc (some v) p q = refl

pub value_of-append :
    (k : Str) (a b : List Str) → value_of k (a ++ b) ≡ prefer (value_of k b) (value_of k a)
unfolding value_of
value_of-append k [] b = sym (prefer-none (value_of k b))
value_of-append k (e ∷ a) b =
    rw (value_of-append k a b) (prefer_assoc (value_of k b) (value_of k a) (value_in k e))

abbrev pub in_file : Str → Option (List (Str × Str)) → Option Str
in_file k none = none
in_file k (some m) = lookup k m

-- A file that could be read gave a map.
abbrev pub ProperFile : Option (List (Str × Str)) → Type 0
ProperFile none = Unit
ProperFile (some m) = Proper m

-- What package os/exec documents of a nil `Env`: the variables are those of this process, but for
-- PWD where the child has a directory of its own.
abbrev pub Inherits : (Str → List Str) → List Str → Type 0
Inherits inherit base =
    (dir j : Str)
    → (is_blank dir ≡ true) ⊎ (j ≢ codes "PWD")
    → value_of j (inherit dir) ≡ value_of j base
