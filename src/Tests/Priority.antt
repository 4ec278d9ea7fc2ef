-- ===== src/Tests/Priority.antt =====
-- Primary priority on the gateway.
use rdk_wanmanager.Common.{ℕ, zero, suc, ◌<◌, ◌≡◌, ◌≢◌, refl, true, false, ap, arith}
use rdk_wanmanager.Store.Defs.{load, store, zero_iface}
use rdk_wanmanager.Policy.Control.{policy_ctrl_init}
use rdk_wanmanager.Policy.Notions.{Keeps}
use rdk_wanmanager.Policy.Priority.Defs.{pp_start, pp_pass}
use rdk_wanmanager.Policy.Priority.Steps.{
  IsSound, pp_start-IsSound, pp_pass-IsSound, here, passed, at_most_one_active,
}
use rdk_wanmanager.Policy.Priority.Connect.{pp_pass_connects}
use rdk_wanmanager.Tests.Gateway.{gateway, gateway-IsWellFormed, home}
use rdk_wanmanager.Tests.Choice.{gateway_priority}

pub nothing_active : (k : ℕ) → k < 3 → (load gateway k).wan.active_link ≢ true
unfolding load zero_iface
nothing_active zero h = ground arith
nothing_active (suc zero) h = ground arith
nothing_active (suc (suc zero)) h = ground arith
nothing_active (suc (suc (suc k))) h = ground arith

pp_pass-IsSound_example :
    IsSound (pp_pass false (pp_start home))
    × Keeps (pp_start home).world.db (pp_pass false (pp_start home)).world.db
pp_pass-IsSound_example =
    pp_pass-IsSound false (pp_start home)
      (pp_start-IsSound home gateway-IsWellFormed nothing_active)

pub active_after_pass : (load (pp_pass true (pp_start home)).world.db 1).wan.active_link ≡ true
unfolding load store pp_start policy_ctrl_init
active_after_pass =
    ap (λ db. (load db 1).wan.active_link)
      ((pp_pass_connects (pp_start home) 1 gateway-IsWellFormed refl refl refl (omega arith)
        gateway_priority.0).2)

pub total_after_pass : 1 < (pp_pass true (pp_start home)).world.db.total
unfolding pp_start
total_after_pass = omega (
  arith,
  (pp_pass-IsSound true (pp_start home)
      (pp_start-IsSound home gateway-IsWellFormed nothing_active)).1.total,
)

at_most_one_active_example : let i : ℕ = 1 in i ≡ i
at_most_one_active_example =
    at_most_one_active home 1 1 gateway-IsWellFormed nothing_active (passed here) total_after_pass
      total_after_pass active_after_pass active_after_pass
