-- ===== src/Supervisor/Loop/Webhook.antt =====
-- How often the crash webhook is called.
use gopm.Base.{
  ℕ, suc, ◌+◌, ◌≤◌, ◌≡◌, Bool, false, not, ◌&&◌, Option, none, some, List, [], ◌∷◌, ◌++◌,
  if◌then◌else◌,
}
use gopm.Supervisor.Loop.{
  Event, Effect, Phase, Task, Outcome, child_exit, step, crash_webhook, request_stop,
  notify_rebuild,
}
use gopm.Supervisor.Process.{ManagedProcess}
use gopm.Supervisor.Backoff.{exhausted_restarts}

abbrev pub webhooks : List Effect → ℕ
webhooks [] = 0
webhooks (crash_webhook url ∷ fs) = suc (webhooks fs)
webhooks (_ ∷ fs) = webhooks fs

-- The webhook may still be called.
abbrev pub armed : ManagedProcess → ℕ
armed mp = if mp.crash_notified then 0 else 1

-- An exit of the child that the loop answers with a restart.
abbrev pub is_retry : Task → Event → Bool
is_retry t child_exit = t.mp.config.auto_restart && not (exhausted_restarts t.mp)
is_retry t _ = false

-- What happens to a process: a step of its goroutine, which is passed over where it cannot happen, a
-- request to stop it, and the watcher's signal.
pub data Happening : Type 0 where
  own : Event → Happening
  stop_asked rebuild_asked : Happening

-- The effects of what happens.
unfoldable pub effects : Task → List Happening → List Effect
effects t [] = []
effects t (own e ∷ es) = elim (step t e) [ none ↦ effects t es | some o ↦ o.1 ++ effects o.0 es ]
effects t (stop_asked ∷ es) = effects (request_stop t) es
effects t (rebuild_asked ∷ es) = effects (notify_rebuild t) es

unfoldable pub retries : Task → List Happening → ℕ
retries t [] = 0
retries t (own e ∷ es) = elim (step t e) [
  | none ↦ retries t es
  | some o ↦ (if is_retry t e then 1 else 0) + retries o.0 es
]
retries t (stop_asked ∷ es) = retries (request_stop t) es
retries t (rebuild_asked ∷ es) = retries (notify_rebuild t) es

-- Nothing is sent and the mark stays.
abbrev Quiet : ManagedProcess → Outcome → Type 0
Quiet mp o = (webhooks o.1 ≡ 0) × (o.0.mp.crash_notified ≡ mp.crash_notified)

-- A webhook that is called uses up the mark; only a retry renews it.
abbrev Spends : Task → Event → Option Outcome → Type 0
Spends t e none = Unit
Spends t e (some o) = webhooks o.1 + armed o.0.mp ≤ armed t.mp + (if is_retry t e then 1 else 0)

abbrev task : ManagedProcess → Phase → Task
task mp p = record { mp = mp; phase = p }
