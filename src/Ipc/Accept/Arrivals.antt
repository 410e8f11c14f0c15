-- ===== src/Ipc/Accept/Arrivals.antt =====
-- The connections that arrive at a server, and what holds of a step that can happen.
use gopm.Base.{
  ◌≡◌, refl, Bool, true, false, Option, none, some, List, [], ◌∷◌, ◌++◌, if◌then◌else◌, Str,
}
use gopm.Ipc.Accept.{Event, accepts}

-- The connections that are accepted.
abbrev pub arrived : Event → List Str
arrived (accepts input) = input ∷ []
arrived _ = []

abbrev pub arrivals : List Event → List Str
arrivals [] = []
arrivals (e ∷ es) = arrived e ++ arrivals es

abbrev pub Each : {A : Type 0} → (A → Type 0) → Option A → Type 0
Each P none = Unit
Each P (some x) = P x

pub Each-if :
    {A : Type 0} (P : A → Type 0) (b : Bool) (x : A)
    → (b ≡ true → P x)
    → Each P (if b then some x else none)
Each-if P true x h = h refl
Each-if P false x h = tt

pub Each-map :
    {A : Type 0} (P Q : A → Type 0) → ((x : A) → P x → Q x) → (o : Option A) → Each P o → Each Q o
Each-map P Q f none h = tt
Each-map P Q f (some x) h = f x h
