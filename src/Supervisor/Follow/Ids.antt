-- ===== src/Supervisor/Follow/Ids.antt =====
-- The numbers of the channels that a logger has.
use gopm.Base.{
  ℕ, ◌≡◌, refl, ap, ◌∙◌, ◌≢◌, inl, inr, Bool, false, Option, none, some, List, [], ◌∷◌, map, arith,
  ltb, ◌==◌, if◌then◌else◌, Bool-cases, length, snoc, any, Str, str_eq, str_eq_iff,
}
use gopm.Base.Dict.{lookup, insert, lookup-insert}
use gopm.Supervisor.Follow.Feed.{IsOf}
use gopm.Logger.Registry.{drop_chan, LogEvent, EventChan, ProcLog, offer, or_fresh, Logger}
use gopm.Supervisor.Follow.{popped, take_from}

-- The numbers of the channels in a list.
abbrev pub ids : List EventChan → List ℕ
ids chs = map (λ (ch : EventChan). ch.id) chs

abbrev pub log_ids : Option ProcLog → List ℕ
log_ids none = []
log_ids (some pl) = ids pl.subs

abbrev pub has : ℕ → List ℕ → Bool
has id ns = any (λ n. n == id) ns

pub ids-offer : (ev : LogEvent) (chs : List EventChan) → ids (map (offer ev) chs) ≡ ids chs
ids-offer ev [] = refl
ids-offer ev (ch ∷ chs) = elim (Bool-cases (ltb (length ch.queue) ch.room)) [
  | inl e ↦ rw (e, ids-offer ev chs) refl
  | inr e ↦ rw (e, ids-offer ev chs) refl
]

pub ids-take_from : (id : ℕ) (chs : List EventChan) → ids (take_from id chs).1 ≡ ids chs
unfolding take_from
ids-take_from id [] = refl
ids-take_from id (ch ∷ chs) = elim (Bool-cases (ch.id == id)) [
  | inl e ↦ rw e (ap (λ n. n ∷ ids chs) (id-popped ch ch.queue))
  | inr e ↦ rw e (ap (λ ns. ch.id ∷ ns) (ids-take_from id chs))
]
  where
    id-popped : (c : EventChan) (queue : List LogEvent) → (popped c queue).1.id ≡ c.id
    id-popped c [] = refl
    id-popped c (ev ∷ queue) = refl

-- A channel that was put at the end, and is the only one of its number, is taken out again.
pub ids-drop_chan :
    (id : ℕ) (chs : List EventChan) (ns : List ℕ)
    → ids chs ≡ snoc ns id
    → has id ns ≡ false
    → ids (drop_chan id chs) ≡ ns
unfolding drop_chan
ids-drop_chan id [] [] e h = cc
ids-drop_chan id [] (n ∷ ns) e h = cc
ids-drop_chan id (ch ∷ chs) [] e h = ground arith
ids-drop_chan id (ch ∷ chs) (n ∷ ns) e h =
    let k : ch.id ≡ n = cc in
    let l : ids chs ≡ snoc ns id = cc in
    elim (Bool-cases (n == id)) [
      | inl p ↦ let q = rw p at h in absurd cc
      | inr p ↦ rw (k, p) (ap (λ ms. n ∷ ms) (ids-drop_chan id chs ns l (rw p at h)))
    ]

-- The numbers of the channels of all logs, and of each log; each log is under its own name.
pub record Chans (all : List ℕ) (each : Str → List ℕ) (l : Logger) : Type 0 where
  pub own : (k : Str) → IsOf k (lookup k l.procs)
  pub of_all_logs : ids l.all_subs ≡ all
  pub of_each : (k : Str) → log_ids (lookup k l.procs) ≡ each k

-- The log that `ensure` gives has the channels of the one that is there.
pub ensured-ids : (c : ℕ) (m : Str) (o : Option ProcLog) → ids (or_fresh c m o).subs ≡ log_ids o
ensured-ids c m none = refl
ensured-ids c m (some pl) = refl

-- A log is put back with some channels.
pub put_back :
    (each : Str → List ℕ) (m : Str) (pl : ProcLog) (ps : List (Str × ProcLog)) (ns : List ℕ)
    → ids pl.subs ≡ ns
    → ((k : Str) → log_ids (lookup k ps) ≡ each k)
    → (k : Str) → log_ids (lookup k (insert m pl ps)) ≡ (if str_eq m k then ns else each k)
put_back each m pl ps ns e h k =
    rw (lookup-insert m k pl ps)
      (elim (Bool-cases (str_eq m k)) [ inl p ↦ rw p e | inr p ↦ rw p (h k) ])

-- It has the channels that it had.
pub put_same :
    (each : Str → List ℕ) (m : Str) (pl : ProcLog) (ps : List (Str × ProcLog))
    → ids pl.subs ≡ each m
    → ((k : Str) → log_ids (lookup k ps) ≡ each k)
    → (k : Str) → log_ids (lookup k (insert m pl ps)) ≡ each k
put_same each m pl ps e h k =
    put_back each m pl ps (each m) e h k ∙ (elim (Bool-cases (str_eq m k)) [
      | inl p ↦ rw p (ap each ((str_eq_iff m k).0 p))
      | inr p ↦ rw p refl
    ])

pub map-snoc : (chs : List EventChan) (ch : EventChan) → ids (snoc chs ch) ≡ snoc (ids chs) ch.id
map-snoc [] ch = refl
map-snoc (c ∷ chs) ch = ap (λ ns. c.id ∷ ns) (map-snoc chs ch)

pub nil-ne-snoc : (ns : List ℕ) (id : ℕ) → [] ≢ snoc ns id
nil-ne-snoc [] id e = cc
nil-ne-snoc (n ∷ ns) id e = cc

abbrev pub with_one : Str → ℕ → (Str → List ℕ) → Str → List ℕ
with_one name id each k = if str_eq name k then snoc (each name) id else each k

pub back_to :
    (each : Str → List ℕ) (name : Str) (id : ℕ) (k : Str)
    → (if str_eq name k then each name else with_one name id each k) ≡ each k
back_to each name id k = elim (Bool-cases (str_eq name k)) [
  | inl p ↦ rw p (ap each ((str_eq_iff name k).0 p))
  | inr p ↦ rw p refl
]
