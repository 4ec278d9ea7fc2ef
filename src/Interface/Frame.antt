-- ===== src/Interface/Frame.antt =====
-- The interface state machine and what the policies read of an interface.
use rdk_wanmanager.Common.{ℕ, ◌≡◌, refl, ◌∙◌, Bool, true, ℤ, arith}
use rdk_wanmanager.Dml.{CString, IfaceType, Phy, Ppp, Iface}
use rdk_wanmanager.Interface.Outside.{Env}
use rdk_wanmanager.Interface.Status.{
  update_interface_status, clear_dhcp_data, with_ipv4_down, with_ipv6_down,
}
use rdk_wanmanager.Interface.Transitions.{
  WanState, Sm, Outcome, started_iface, wan_transition_start, with_ipv4_up, with_ipv6_up,
  wan_transition_physical_interface_down, wan_transition_wan_up, wan_transition_wan_validated,
  wan_transition_refreshing_wan, wan_transition_wan_refreshed, wan_transition_ipv4_up,
  wan_transition_ipv4_down, wan_transition_ipv6_up, wan_transition_ipv6_down,
  wan_transition_dual_stack_down, wan_transition_ipv4_over_ipv6_up,
  wan_transition_ipv4_over_ipv6_down, wan_transition_exit,
}
use rdk_wanmanager.Interface.States.{wan_process, wan_state_exit}
use rdk_wanmanager.Interface.Runs.{
  Runs, idle_configuring, idle_obtaining, idle_ipv4, idle_ipv6, idle_dual, idle_tunnel,
  idle_refreshing, idle_deconfiguring, enters_tunnel, leaves, sets_prefix, waits_for_bridge, loses,
  comes_up, validates, refreshes, is_refreshed, ipv4_comes, ipv4_goes, ipv6_comes, ipv6_goes,
  both_go, exits, ends, wan_process-Runs,
}

-- What the policies select an interface by, and what names it.
pub record Selection : Type 0 where
  pub index : ℕ
  pub instance_number : ℕ
  pub name : CString
  pub phy : Phy
  pub ppp : Ppp
  pub enable : Bool
  pub priority : ℤ
  pub type : IfaceType
  pub timeout : ℕ

abbrev pub selection : Iface → Selection
selection f = record {
  index = f.iface_idx;
  instance_number = f.instance_number;
  name = f.name;
  phy = f.phy;
  ppp = f.ppp;
  enable = f.wan.enable;
  priority = f.wan.priority;
  type = f.wan.type;
  timeout = f.wan.selection_timeout;
}

-- From `f` to `g` nothing changes that the policies select by, and `Wan.ActiveLink` is not set.
abbrev pub LeavesSelection : Iface → Iface → Type 0
LeavesSelection f g =
    (selection g ≡ selection f) × (g.wan.active_link ≡ true → f.wan.active_link ≡ true)

pub LeavesSelection-trans :
    (f g h : Iface) → LeavesSelection f g → LeavesSelection g h → LeavesSelection f h
LeavesSelection-trans f g h (p, a) (q, b) = (q ∙ p, λ e. a (b e))

module _ (env : Env) (health_check : Bool) (t : WanState) (s : Sm) where
  Runs-LeavesSelection :
      (o : Outcome) → Runs env health_check t s o → LeavesSelection s.iface o.sm.iface
  unfolding wan_transition_physical_interface_down wan_transition_wan_up
      wan_transition_wan_validated wan_transition_refreshing_wan wan_transition_wan_refreshed
      wan_transition_ipv4_up wan_transition_ipv4_down wan_transition_ipv6_up
      wan_transition_ipv6_down wan_transition_dual_stack_down wan_transition_ipv4_over_ipv6_up
      wan_transition_ipv4_over_ipv6_down wan_transition_exit wan_state_exit clear_dhcp_data
      update_interface_status with_ipv4_down with_ipv6_down with_ipv4_up with_ipv6_up
  Runs-LeavesSelection o (idle_configuring e) = rw e (refl, λ e. e)
  Runs-LeavesSelection o (idle_obtaining _ e) = rw e (refl, λ e. e)
  Runs-LeavesSelection o (idle_ipv4 p e) = rw e (refl, λ e. e)
  Runs-LeavesSelection o (idle_ipv6 p e) = rw e (refl, λ e. e)
  Runs-LeavesSelection o (idle_dual p q e) = rw e (refl, λ e. e)
  Runs-LeavesSelection o (idle_tunnel p e) = rw e (refl, λ e. e)
  Runs-LeavesSelection o (idle_refreshing e) = rw e (refl, λ e. e)
  Runs-LeavesSelection o (idle_deconfiguring p e) = rw e (refl, λ e. e)
  Runs-LeavesSelection o (enters_tunnel h e) = rw e (refl, λ e. e)
  Runs-LeavesSelection o (leaves p e) = rw e (refl, λ e. e)
  Runs-LeavesSelection o (sets_prefix p e) = rw e (refl, λ e. e)
  Runs-LeavesSelection o (waits_for_bridge log p e) = rw e (refl, λ e. e)
  Runs-LeavesSelection o (loses h e) = rw e (refl, λ e. e)
  Runs-LeavesSelection o (comes_up e) = rw e (refl, λ e. e)
  Runs-LeavesSelection o (validates e) = rw e (refl, λ e. e)
  Runs-LeavesSelection o (refreshes e) = rw e (refl, λ e. e)
  Runs-LeavesSelection o (is_refreshed e) = rw e (refl, λ e. e)
  Runs-LeavesSelection o (ipv4_comes e) = rw e (refl, λ e. e)
  Runs-LeavesSelection o (ipv4_goes e) = rw e (refl, λ e. e)
  Runs-LeavesSelection o (ipv6_comes log e) = rw e (refl, λ e. e)
  Runs-LeavesSelection o (ipv6_goes e) = rw e (refl, λ e. e)
  Runs-LeavesSelection o (both_go e) = rw e (refl, λ e. e)
  Runs-LeavesSelection o (exits p h e) = rw e (refl, λ e. ground arith)
  Runs-LeavesSelection o (ends p e) = rw e (refl, λ e. e)

-- A pass of the `switch` changes nothing that the policies select the interface by: its index, its
-- names, its link, its PPP settings, and whether and with which priority, type and timeout it may
-- be a WAN; and it never sets `Wan.ActiveLink`.
pub wan_process-LeavesSelection :
    (env : Env) (health_check : Bool) (t : WanState) (s : Sm)
    → LeavesSelection s.iface (wan_process env health_check t s).sm.iface
wan_process-LeavesSelection env b t s =
    Runs-LeavesSelection env b t s (wan_process env b t s) (wan_process-Runs env b t s)

pub start-LeavesSelection : (s : Sm) → LeavesSelection s.iface (wan_transition_start s).sm.iface
unfolding wan_transition_start started_iface
start-LeavesSelection s = (refl, λ e. e)
