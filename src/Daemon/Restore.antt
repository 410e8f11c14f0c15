-- ===== src/Daemon/Restore.antt =====
-- What a daemon that starts again takes over from the one before it.
use gopm.Base.{
  ◌≡◌, refl, sym, ap, ◌∙◌, ◌≢◌, inl, inr, true, false, Option, none, some, List, [], ◌∷◌, ◌++◌, map,
  append-nil, append_assoc, arith, Bool-cases, snoc, Str, str_eq, is_blank, str_eq_iff,
}
use mathlib.Core.List.{
  map-append, Perm, Mem, Pairwise, Nodup, mem-cons_self, mem-cons_of_mem, not-mem-nil,
  eq-or-mem_of_mem-cons,
}
use mathlib.Core.List.Perm
use mathlib.Core.Logic.Or
use mathlib.Core.HLevel.{⊥_prop}
use gopm.Base.Disk.{Disk, read}
use gopm.Base.Dict.{lookup, lookup-insert, insert, values}
use gopm.Config.{AppConfig}
use gopm.Config.Validate.{Avoids, Distinct, names}
use gopm.Store.{State, resumed, load, save, succeeds}
use gopm.Store.Atomic.{load-save}
use gopm.Supervisor.Process.{new_managed_process}
use gopm.Supervisor.Loop.{Task}
use gopm.Supervisor.Loop.Frame.{enter-Same}
use gopm.Supervisor.Registry.{Supervisor, PersistedApp, Host, new, spawn, start_app}
use gopm.Supervisor.Registry.Persistence.{configs, saved_configs, start_new}
use gopm.Supervisor.Registry.Names.{exec_all-new-Named}
use gopm.Supervisor.Registry.Runs.{Command, exec_all}
use gopm.Supervisor.Rpc.{start_apps}
use gopm.Daemon.{restore, boot}

-- A new entry goes to the end.
values-insert_new :
    (k : Str) (v : Task) (m : List (Str × Task))
    → lookup k m ≡ none
    → values (insert k v m) ≡ snoc (values m) v
unfolding lookup insert
values-insert_new k v [] h = refl
values-insert_new k v ((j, t) ∷ m) h = elim (Bool-cases (str_eq j k)) [
  | inl e ↦ absurd (some-ne-none (rw (e, lookup) at h))
  | inr e ↦ rw e (ap (◌∷◌ t) (values-insert_new k v m (rw (e, lookup) at h)))
]
  where
    some-ne-none : some t ≡ none → ⊥
    some-ne-none e = cc

-- None of the names is registered.
abbrev Absent : List Str → List (Str × Task) → Type 0
Absent [] m = Unit
Absent (n ∷ ns) m = (lookup n m ≡ none) × Absent ns m

Absent-insert :
    (k : Str) (v : Task) (ns : List Str) (m : List (Str × Task))
    → Avoids k ns
    → Absent ns m
    → Absent ns (insert k v m)
Absent-insert k v [] m a h = tt
Absent-insert k v (n ∷ ns) m a h =
    (lookup-insert k n v m ∙ ground (arith, str_eq_iff k n), Absent-insert k v ns m a.1 h.1)

abbrev fresh : Supervisor → AppConfig → Task
fresh s cfg = spawn (new_managed_process s.next_id cfg)

config-fresh : (s : Supervisor) (cfg : AppConfig) → (fresh s cfg).mp.config ≡ cfg
unfolding new_managed_process
config-fresh s cfg = (enter-Same (new_managed_process s.next_id cfg)).1

procs-start_app :
    (s : Supervisor) (cfg : AppConfig) (h : Host)
    → lookup cfg.name s.procs ≡ none
    → (start_app s cfg h).0.procs ≡ insert cfg.name (fresh s cfg) s.procs
unfolding start_app
procs-start_app s cfg h f = rw (f, start_app) refl

configs-start_app :
    (s : Supervisor) (cfg : AppConfig) (h : Host)
    → lookup cfg.name s.procs ≡ none
    → configs (values (start_app s cfg h).0.procs) ≡ snoc (configs (values s.procs)) cfg
configs-start_app s cfg h f =
    ap (λ (m : List (Str × Task)). configs (values m)) (procs-start_app s cfg h f)
    ∙ ap configs (values-insert_new cfg.name (fresh s cfg) s.procs f)
    ∙ map-append (λ (t : Task). t.mp.config) (values s.procs) (fresh s cfg ∷ [])
    ∙ ap (snoc (configs (values s.procs))) (config-fresh s cfg)

-- Starting apps with new and different names registers them after the others, in order, and saves
-- every configuration.
start_apps-configs :
    (s : Supervisor) (h : Host) (apps : List AppConfig)
    → Distinct (names apps)
    → Absent (names apps) s.procs
    → saved_configs s ≡ configs (values s.procs)
    → (configs (values (start_apps s h apps).procs) ≡ configs (values s.procs) ++ apps)
      × (saved_configs (start_apps s h apps) ≡ configs (values s.procs) ++ apps)
unfolding start_apps
start_apps-configs s h [] d a e =
    (sym (append-nil (configs (values s.procs))), e ∙ sym (append-nil (configs (values s.procs))))
start_apps-configs s h (cfg ∷ apps) d a e =
    let r = start_app s cfg h in
    let later : Absent (names apps) r.0.procs =
      rw (procs-start_app s cfg h a.0)
        (Absent-insert cfg.name (fresh s cfg) (names apps) s.procs d.0 a.1) in
    let i =
      start_apps-configs r.0 (record h { disk = r.1 }) apps d.1 later (start_new s cfg h a.0).2 in
    let joined : configs (values r.0.procs) ++ apps ≡ configs (values s.procs) ++ (cfg ∷ apps) =
      ap (λ (l : List AppConfig). l ++ apps) (configs-start_app s cfg h a.0)
      ∙ append_assoc (configs (values s.procs)) (cfg ∷ []) apps in
    (i.0 ∙ joined, i.1 ∙ joined)

abbrev apps_of : State → List AppConfig
apps_of = map (λ (a : PersistedApp). a.config)

Absent-at_start : (ns : List Str) → Absent ns new.procs
unfolding new lookup
Absent-at_start [] = tt
Absent-at_start (n ∷ ns) = (refl, Absent-at_start ns)

boot-resumed :
    (h : Host) (st : State)
    → Distinct (names (apps_of st))
    → let s = (boot h (resumed st)).sup in
      (configs (values s.procs) ≡ apps_of st) × (saved_configs s ≡ apps_of st)
unfolding boot restore new
boot-resumed h [] d = (refl, refl)
boot-resumed h (a ∷ st) d =
    let r =
      start_apps-configs new h (apps_of (a ∷ st)) d (Absent-at_start (names (apps_of (a ∷ st))))
        refl in
    r

Avoids-of : (n : Str) (ns : List Str) → ((j : Str) → Mem j ns → n ≢ j) → Avoids n ns
Avoids-of n [] h = tt
Avoids-of n (k ∷ ns) h = (h k mem-cons_self, Avoids-of n ns (λ j m. h j (mem-cons_of_mem k m)))

Avoids-Mem : (n : Str) (ns : List Str) → Avoids n ns → (j : Str) → Mem j ns → n ≢ j
Avoids-Mem n [] a j m e = not-mem-nil m
Avoids-Mem n (k ∷ ns) a j m e =
    Or.elim ⊥_prop (eq-or-mem_of_mem-cons m) (λ q. a.0 (e ∙ q)) λ q. Avoids-Mem n ns a.1 j q e

Nodup-Distinct : (ns : List Str) → Nodup ns → Distinct ns
Nodup-Distinct [] d = tt
Nodup-Distinct (n ∷ ns) (Pairwise.cons h d) = (Avoids-of n ns h, Nodup-Distinct ns d)

Distinct-Nodup : (ns : List Str) → Distinct ns → Nodup ns
Distinct-Nodup [] d = Pairwise.nil
Distinct-Nodup (n ∷ ns) (a, d) = Pairwise.cons (Avoids-Mem n ns a) (Distinct-Nodup ns d)

Distinct-perm : {ns ms : List Str} → Perm ns ms → Distinct ns → Distinct ms
Distinct-perm {ns} {ms} p d = Nodup-Distinct ms (Perm.nodup p (Distinct-Nodup ns d))

-- The daemon has run any commands, its last state was encoded and saved without an error, in any
-- order of its entries, and a daemon is started again on that disk. It registers and saves exactly
-- the configurations that were saved; if the path of the state file is not empty, can be opened and
-- is not that of the temporary file, which is new, and if the decoder reads the state from its
-- encoding.
pub boot-load-save :
    (cs : List Command) (h : Host) (tmp path : Str) (d : Disk) (encode : State → Option Str)
    (decode : Str → Option State) (st : State) (body : Str)
    → tmp ≢ path
    → read tmp d ≡ none
    → is_blank path ≡ false
    → d.can_open path ≡ true
    → Perm st (exec_all new cs).saved
    → encode st ≡ some body
    → decode body ≡ some st
    → let before = exec_all new cs in
      let after = (boot h (load decode path (save encode succeeds tmp path st d).0)).sup in
      Perm (configs (values after.procs)) (saved_configs before)
      × Perm (saved_configs after) (saved_configs before)
boot-load-save cs h tmp path d encode decode st body other unused b c p e codec =
    rw (load-save tmp path d other unused encode decode st body b c e codec) (
      let q : Perm (apps_of st) (saved_configs (exec_all new cs)) =
        Perm.map (λ (a : PersistedApp). a.config) p in
      let r = boot-resumed h st (
        Distinct-perm (Perm.symm (Perm.map (λ (a : AppConfig). a.name) q))
          (exec_all-new-Named cs).saved_once) in
      (rw r.0 q, rw r.1 q))
