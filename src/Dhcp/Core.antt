-- ===== src/Dhcp/Core.antt =====
-- The steps of the DHCPv6 event, on the part of its progress that decides on the IPv6 status and on the
-- stored prefix.
use rdk_wanmanager.Common.{
  ◌≡◌, refl, ap, ◌∙◌, Bool, true, false, not, ◌&&◌, ◌||◌, ◌==◌, Option, none, some, [],
  if◌then◌else◌, arith,
}
use rdk_wanmanager.Dml.{CString, str_eq, is_empty, has_byte, is_add, IpState, Iface, Dhcpv6Msg}
use rdk_wanmanager.Interface.Outside.{Log, Env}
use rdk_wanmanager.Interface.Address.{slash}
use rdk_wanmanager.Interface.Status.{Held, update_interface_status, with_ipv6_down}
use rdk_wanmanager.Dhcp.Event6.{
  Progress, take_address, make_global_address, add_prefix, remove_prefix, take_prefix,
  found_address, find_address, connect_ipv6, ipv6_msg_info,
}

-- The message brings a prefix: its command is to add it, and neither lifetime is 0.
abbrev pub is_valid_prefix : Dhcpv6Msg → Bool
is_valid_prefix msg =
    is_add msg.prefix_cmd && not (msg.prefix_pltime == 0) && not (msg.prefix_vltime == 0)

abbrev pub has_prefix : Dhcpv6Msg → Bool
has_prefix msg = msg.prefix_assigned && not (is_empty msg.site_prefix)

-- The interface gets something: the address or the prefix of the message, or, if the message has no
-- address, one that the interface already has.
abbrev pub brings : Dhcpv6Msg → Bool → Bool
brings msg found =
    (msg.addr_assigned && is_add msg.addr_cmd)
    || (has_prefix msg && is_valid_prefix msg)
    || (not msg.addr_assigned && found)

-- The interface loses its prefix.
abbrev pub removes : Dhcpv6Msg → Iface → Bool
removes msg f =
    has_prefix msg && not (is_valid_prefix msg) && str_eq f.ip.ipv6_data.site_prefix msg.site_prefix

abbrev pub is_found : Option CString → Bool
is_found none = false
is_found (some a) = true

-- What the rest of the function goes by.
pub record Core : Type 0 where
  pub connected : Bool
  pub status : IpState
  pub site : CString
  pub name : CString
  pub addr_assigned : Bool
  pub msg_site : CString

abbrev pub core : Progress → Core
core p = record {
  connected = p.connected;
  status = p.held.iface.ip.ipv6_status;
  site = p.held.iface.ip.ipv6_data.site_prefix;
  name = p.held.iface.wan.name;
  addr_assigned = p.msg.addr_assigned;
  msg_site = p.msg.site_prefix;
}

core_if : (b : Bool) (x y : Progress) → core (if b then x else y) ≡ (if b then core x else core y)
core_if true x y = refl
core_if false x y = refl

same_if : (b : Bool) (c : Core) → (if b then c else c) ≡ c
same_if true c = refl
same_if false c = refl

if_of : (b : Bool) (u v x y : Core) → u ≡ x → v ≡ y → (if b then u else v) ≡ (if b then x else y)
if_of true u v x y p q = p
if_of false u v x y p q = q

abbrev pub joined : Core → Core
joined c = record c { connected = true }

abbrev pub lost : Core → Core
lost c = record c { status = IpState.down; site = [] }

pub core-take_address :
    (p : Progress)
    → core (take_address p) ≡ (
        if p.msg.addr_assigned
        then (if is_add p.msg.addr_cmd then joined (core p) else core p)
        else core p)
unfolding take_address
core-take_address p =
    core_if p.msg.addr_assigned _ _
    ∙ if_of p.msg.addr_assigned _ _ _ _ (core_if (is_add p.msg.addr_cmd) _ _) refl

core-add_prefix : (p : Progress) → core (add_prefix p) ≡ joined (core p)
unfolding add_prefix make_global_address
core-add_prefix p =
    core_if (has_byte slash p.msg.site_prefix) _ _ ∙ same_if (has_byte slash p.msg.site_prefix) _

core-remove_prefix :
    (p : Progress)
    → core (remove_prefix p) ≡ (
        if str_eq p.held.iface.ip.ipv6_data.site_prefix p.msg.site_prefix
        then lost (core p)
        else core p)
unfolding remove_prefix update_interface_status with_ipv6_down
core-remove_prefix p = core_if (str_eq p.held.iface.ip.ipv6_data.site_prefix p.msg.site_prefix) _ _

pub core-take_prefix :
    (p : Progress)
    → core (take_prefix p) ≡ (
        if has_prefix p.msg
        then (if is_valid_prefix p.msg
            then joined (core p)
            else (if str_eq p.held.iface.ip.ipv6_data.site_prefix p.msg.site_prefix
                then lost (core p)
                else core p))
        else core p)
unfolding take_prefix
core-take_prefix p =
    core_if (has_prefix p.msg) _ _
    ∙ if_of (has_prefix p.msg) _ _ _ _
        (core_if (is_valid_prefix p.msg) _ _
          ∙ if_of (is_valid_prefix p.msg) _ _ _ _ (core-add_prefix p) (core-remove_prefix p))
        refl

core-found_address :
    (p : Progress) (a : Option CString)
    → core (found_address p a) ≡ (if is_found a then joined (core p) else core p)
unfolding found_address
core-found_address p none = refl
core-found_address p (some a) = refl

-- The steps on what is left.
abbrev pub first : Bool → Bool → Core → Core
first aa add c = if aa then (if add then joined c else c) else c

abbrev pub second : Bool → Bool → Bool → Core → Core
second hp valid rem c = if hp then (if valid then joined c else (if rem then lost c else c)) else c

abbrev pub third : Bool → Core → Core
third found c = if c.addr_assigned then c else (if found then joined c else c)

abbrev pub status_of : Core → IpState
status_of c = if c.connected then IpState.up else c.status

abbrev pub site_of : Core → CString
site_of c = if c.connected then c.msg_site else c.site

module _ (aa add hp valid rem found : Bool) (c : Core) (e : c.connected ≡ false)
    (a : c.addr_assigned ≡ aa) where
  pub status_steps : status_of (third found (second hp valid rem (first aa add c))) ≡ (
      if (aa && add) || (hp && valid) || (not aa && found)
      then IpState.up
      else (if hp && not valid && rem then IpState.down else c.status))
  status_steps = ground arith

  pub site_steps : site_of (third found (second hp valid rem (first aa add c))) ≡ (
      if (aa && add) || (hp && valid) || (not aa && found)
      then c.msg_site
      else (if hp && not valid && rem then [] else c.site))
  site_steps = ground arith

msg_if :
    (b : Bool) (x y : Progress) (m : Dhcpv6Msg)
    → x.msg ≡ m
    → y.msg ≡ m
    → (if b then x else y).msg ≡ m
msg_if true x y m p q = p
msg_if false x y m p q = q

iface_if :
    (b : Bool) (x y : Progress) (f : Iface)
    → x.held.iface ≡ f
    → y.held.iface ≡ f
    → (if b then x else y).held.iface ≡ f
iface_if true x y f p q = p
iface_if false x y f p q = q

-- The message and the interface, as the first step leaves them.
pub take_address_msg : (p : Progress) → (take_address p).msg ≡ p.msg
unfolding take_address
take_address_msg p =
    msg_if p.msg.addr_assigned _ _ p.msg (msg_if (is_add p.msg.addr_cmd) _ _ p.msg refl refl) refl

pub take_address_iface : (p : Progress) → (take_address p).held.iface ≡ p.held.iface
unfolding take_address
take_address_iface p =
    iface_if p.msg.addr_assigned _ _ p.held.iface
      (iface_if (is_add p.msg.addr_cmd) _ _ p.held.iface refl refl) refl

through :
    {A : Type 0} (g : Held → A) (b : Bool) (x y : Held)
    → g (if b then x else y) ≡ (if b then g x else g y)
through g true x y = refl
through g false x y = refl

-- Whatever the calls are, `getifaddrs` gives the address `a`.
abbrev pub Answers : Env → CString → Option CString → Type 0
Answers env name a = (log : Log) → env.global_address log name ≡ a

pub core-find_address :
    (env : Env) (p : Progress) (a : Option CString)
    → Answers env p.held.iface.wan.name a
    → core (find_address env p) ≡ third (is_found a) (core p)
unfolding find_address
core-find_address env p a v =
    core_if p.msg.addr_assigned _ _
    ∙ if_of p.msg.addr_assigned _ _ _ _ refl (
        core-found_address _ (env.global_address p.held.log p.held.iface.wan.name)
        ∙ ap (λ a. if is_found a then joined (core p) else core p) (v p.held.log))

pub connect_ipv6_status :
    (p : Progress) → (connect_ipv6 p).iface.ip.ipv6_status ≡ status_of (core p)
unfolding connect_ipv6
connect_ipv6_status p = through (λ h. h.iface.ip.ipv6_status) p.connected _ _

pub connect_ipv6_site :
    (p : Progress) → (connect_ipv6 p).iface.ip.ipv6_data.site_prefix ≡ site_of (core p)
unfolding connect_ipv6 ipv6_msg_info
connect_ipv6_site p = through (λ h. h.iface.ip.ipv6_data.site_prefix) p.connected _ _
