-- ===== src/Dhcp/Frame.antt =====
-- The DHCP events and the parts of an interface.
use rdk_wanmanager.Common.{
  ◌≡◌, refl, ◌∙◌, sym, ap, Bool, true, false, Option, none, some, if◌then◌else◌, ◌&&◌, not, ◌==◌,
}
use rdk_wanmanager.Dml.{CString, Iface, Dhcpv4Msg, Dhcpv6Msg, str_eq, is_empty, has_byte, is_add}
use rdk_wanmanager.Store.Defs.{zero_iface}
use rdk_wanmanager.Interface.Outside.{Env}
use rdk_wanmanager.Interface.Address.{slash}
use rdk_wanmanager.Interface.Status.{Held, update_interface_status, with_ipv4_down, with_ipv6_down}
use rdk_wanmanager.Interface.Frame.{selection, LeavesSelection}
use rdk_wanmanager.Dhcp.Event4.{
  ipv4_assigned, with_ipv4_data, handle_ipv4_msg, handle_ipv4_of, handle_dhcpv4_event_data,
}
use rdk_wanmanager.Dhcp.Event6.{
  Progress, take_address, make_global_address, add_prefix, remove_prefix, take_prefix, take_names,
  found_address, find_address, connect_ipv6, ipv6_expired, handle_ipv6_msg, handle_ipv6_of,
  handle_dhcpv6_event_data,
}

-- The interface without what the events write to.
abbrev pub without_ip : Iface → Iface
without_ip f = record f { ip = zero_iface.ip; map = zero_iface.map }

-- Both interfaces agree on the rest.
abbrev pub Apart : Iface → Iface → Type 0
Apart f g = without_ip g ≡ without_ip f

either :
    (b : Bool) (f : Iface) (x y : Held)
    → Apart f x.iface
    → Apart f y.iface
    → Apart f (if b then x else y).iface
either true f x y p q = p
either false f x y p q = q

going :
    (b : Bool) (f : Iface) (x y : Progress)
    → Apart f x.held.iface
    → Apart f y.held.iface
    → Apart f (if b then x else y).held.iface
going true f x y p q = p
going false f x y p q = q

handle_ipv4_msg-Apart :
    (env : Env) (msg : Dhcpv4Msg) (h : Held) → Apart h.iface (handle_ipv4_msg env msg h).iface
unfolding handle_ipv4_msg ipv4_assigned with_ipv4_data update_interface_status with_ipv4_down
handle_ipv4_msg-Apart env msg h =
    either msg.address_assigned h.iface _ _ refl (either msg.is_expired h.iface _ _ refl refl)

handle_ipv4_of-Apart :
    (env : Env) (m : Option Dhcpv4Msg) (h : Held) → Apart h.iface (handle_ipv4_of env m h).iface
unfolding handle_ipv4_of
handle_ipv4_of-Apart env none h = refl
handle_ipv4_of-Apart env (some msg) h = handle_ipv4_msg-Apart env msg h

pub take_address-Apart : (p : Progress) → Apart p.held.iface (take_address p).held.iface
unfolding take_address
take_address-Apart p =
    going p.msg.addr_assigned p.held.iface _ _
      (going (is_add p.msg.addr_cmd) p.held.iface _ _ refl refl) refl

pub take_prefix-Apart : (p : Progress) → Apart p.held.iface (take_prefix p).held.iface
unfolding take_prefix add_prefix remove_prefix make_global_address update_interface_status
    with_ipv6_down
take_prefix-Apart p =
    going (p.msg.prefix_assigned && not (is_empty p.msg.site_prefix)) p.held.iface _ _
      (going
        (is_add p.msg.prefix_cmd
          && not (p.msg.prefix_pltime == 0)
          && not (p.msg.prefix_vltime == 0))
        p.held.iface _ _ (going (has_byte slash p.msg.site_prefix) p.held.iface _ _ refl refl)
        (going (str_eq p.held.iface.ip.ipv6_data.site_prefix p.msg.site_prefix) p.held.iface _ _
          refl refl))
      refl

found_address-Apart :
    (p : Progress) (a : Option CString) → Apart p.held.iface (found_address p a).held.iface
unfolding found_address
found_address-Apart p none = refl
found_address-Apart p (some a) = refl

find_address-Apart : (env : Env) (p : Progress) → Apart p.held.iface (find_address env p).held.iface
unfolding find_address
find_address-Apart env p =
    going p.msg.addr_assigned p.held.iface _ _ refl
      (found_address-Apart _ (env.global_address p.held.log p.held.iface.wan.name))

connect_ipv6-Apart : (p : Progress) → Apart p.held.iface (connect_ipv6 p).iface
unfolding connect_ipv6
connect_ipv6-Apart p = either p.connected p.held.iface _ _ refl refl

handle_ipv6_msg-Apart :
    (env : Env) (msg : Dhcpv6Msg) (h : Held) → Apart h.iface (handle_ipv6_msg env msg h).iface
unfolding handle_ipv6_msg ipv6_expired take_names update_interface_status with_ipv6_down
handle_ipv6_msg-Apart env msg h =
    let p0 : Progress = record { held = h; msg = msg; connected = false } in
    let p1 : Progress = take_address p0 in
    let p2 : Progress = take_prefix p1 in
    let p3 : Progress = take_names p2 in
    either msg.is_expired h.iface _ _ refl (
      connect_ipv6-Apart (find_address env p3)
      ∙ find_address-Apart env p3
      ∙ take_prefix-Apart p1
      ∙ take_address-Apart p0)

handle_ipv6_of-Apart :
    (env : Env) (m : Option Dhcpv6Msg) (h : Held) → Apart h.iface (handle_ipv6_of env m h).iface
unfolding handle_ipv6_of
handle_ipv6_of-Apart env none h = refl
handle_ipv6_of-Apart env (some msg) h = handle_ipv6_msg-Apart env msg h

-- The two DHCP events write to the `IP` and `MAP` data of an interface only.
pub handle_events-Apart :
    (env : Env) (h : Held)
    → Apart h.iface (handle_dhcpv4_event_data env h).iface
      × Apart h.iface (handle_dhcpv6_event_data env h).iface
unfolding handle_dhcpv4_event_data handle_dhcpv6_event_data
handle_events-Apart env h = (
  handle_ipv4_of-Apart env h.iface.ip.ipc_ipv4_data h,
  handle_ipv6_of-Apart env h.iface.ip.ipc_ipv6_data h,
)

pub Apart-selection : (f g : Iface) → Apart f g → LeavesSelection f g
Apart-selection f g p = (ap selection p, λ e. sym (ap (λ f. f.wan.active_link) p) ∙ e)
