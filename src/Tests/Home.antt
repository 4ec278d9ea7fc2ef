-- ===== src/Tests/Home.antt =====
-- The interface `eth` of the gateway at work, and a system that answers the same to all calls.
use rdk_wanmanager.Common.{ℕ, refl, true, none, some, [], ◌∷◌, pos, arith}
use rdk_wanmanager.Dml.{WanStatus, LinkStatus, Iface}
use rdk_wanmanager.Store.Defs.{Database}
use rdk_wanmanager.Store.Lock.{IsWellFormed}
use rdk_wanmanager.Policy.Control.{SmController}
use rdk_wanmanager.Interface.Outside.{Env}
use rdk_wanmanager.Interface.Address.{status_up}
use rdk_wanmanager.Interface.Transitions.{WanState, Sm}
use rdk_wanmanager.Interface.Thread.{Thread}
use rdk_wanmanager.Tests.Gateway.{gateway, dsl, eth, lte}

abbrev pub quiet : Env
quiet = record {
  value = λ log k. status_up;
  succeeds = λ log a. true;
  broadcast = λ a m. none;
  uptime_file = λ log. none;
  addresses = λ log. [];
  dad_done = λ log i. true;
  has_route = λ log i. true;
  uptime = λ log. 60;
  health_check_pid = λ log n. 0;
  global_address = λ log n. none;
}

-- The interface is active and linked.
abbrev pub eth_linked : Iface
eth_linked = record eth {
  wan = record eth.wan { active_link = true; status = WanStatus.up; link_status = LinkStatus.up };
}

abbrev pub with_eth : Iface → Database
with_eth f = record gateway { ifaces = some (dsl ∷ f ∷ lte ∷ []) }

abbrev pub controller : ℕ → SmController
controller i = record { wan_enable = true; interface_idx = pos i; ihc_pid = 0; iface_data = none }

abbrev pub eth_thread : WanState → Iface → Thread
eth_thread s f = record {
  db = with_eth f;
  ctrl = controller 1;
  log = [];
  state = s;
  running = true;
}

abbrev pub eth_machine : Iface → Sm
eth_machine f = record { wan_enable = true; ihc_pid = 0; iface = f; log = [] }

pub with_eth-IsWellFormed : (f : Iface) → IsWellFormed (with_eth f)
with_eth-IsWellFormed f = record { backed = refl; small = omega arith; usable = refl }
