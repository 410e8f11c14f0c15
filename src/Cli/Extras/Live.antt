-- ===== src/Cli/Extras/Live.antt =====
-- The table that refreshes itself.
use gopm.Base.{ℕ, zero, suc, ◌≡◌, refl, Bool, true, false}
use gopm.Ipc.{cmd_list}
use gopm.Ipc.Client.{SendResult, answered, failed}
use gopm.Cli.Shell.{World, Shell, Run, returned, Cmd, and_then}
use gopm.Cli.Commands.{bare}
use gopm.Cli.Extras.{shown, send_list, refreshed, live_tick, ui_command}

module _ {S : Type 0} (w : World S) (Inv : S → Type 0)
    (lists : (s : S) → Inv s → Inv (w.send s (bare cmd_list)).0) where
  -- The command goes on, in a state that keeps the property.
  Goes : Run S (Unit {0}) → Type 0
  Goes r = (t : Shell S) × (r ≡ returned tt t) × Inv t.state

  shown-Goes : (r : SendResult) (h : Shell S) → Inv h.state → Goes (shown w r h)
  unfolding Goes
  shown-Goes (failed e) h i = (_, refl, i)
  shown-Goes (answered resp) h i = (_, refl, i)

  -- What goes on with a command that goes on.
  then-Goes :
      (r : Run S (Unit {0})) (k : Cmd S (Unit {0}))
      → Goes r
      → ((t : Shell S) → Inv t.state → Goes (k t))
      → Goes (and_then r (λ _. k))
  unfolding Goes
  then-Goes r k (t, e, i) rest = rw e (rest t i)

  refreshed-Goes : (up : Bool) (h : Shell S) → Inv h.state → Goes (refreshed w up h)
  refreshed-Goes false h i = unfold Goes in (_, refl, i)
  refreshed-Goes true h i =
      then-Goes (send_list w h) _ (shown-Goes _ _ (lists h.state i))
        λ t j. unfold Goes in (_, refl, j)

  ui-Goes : (ticks : ℕ) (h : Shell S) → Inv h.state → Goes (ui_command w ticks h)
  unfolding ui_command
  ui-Goes zero h i = unfold Goes in (_, refl, i)
  ui-Goes (suc ticks) h i =
      then-Goes (live_tick w h) (ui_command w ticks) (refreshed-Goes (w.ping h.state) _ i)
        λ t j. ui-Goes ticks t j

  -- The live table never gives up by itself, whatever the daemon answers and also while it cannot be
  -- reached: `cmdUI` returns after the ticks before the signal. Besides pings it sends the daemon only
  -- requests to list, so what those keep true of the daemon stays true.
  pub ui_command_lem :
      (ticks : ℕ) (h : Shell S)
      → Inv h.state
      → (t : Shell S) × (ui_command w ticks h ≡ returned tt t) × Inv t.state
  unfolding Goes
  ui_command_lem ticks h i = ui-Goes ticks h i
