-- ===== src/Tests/Gateway.antt =====
-- A gateway with three interfaces: a primary one with priority 3, a primary one with priority 1, and
-- a secondary one with priority 0.
use rdk_wanmanager.Common.{ℕ, refl, true, some, [], ◌∷◌, pos, arith}
use rdk_wanmanager.Dml.{CString, Policy, PhyStatus, IfaceType, Iface}
use rdk_wanmanager.Store.Defs.{Database, Mutex, zero_iface}
use rdk_wanmanager.Store.Lock.{IsWellFormed}
use rdk_wanmanager.Policy.Control.{World}

abbrev pub configured : ℕ → CString → IfaceType → ℕ → Iface
configured i name type priority = record zero_iface {
  iface_idx = i;
  phy = record { path = []; status = PhyStatus.up };
  wan = record zero_iface.wan { name = name; enable = true; type = type; priority = pos priority };
}

abbrev pub dsl_name : CString
dsl_name = 100 ∷ 115 ∷ 108 ∷ []

abbrev pub eth_name : CString
eth_name = 101 ∷ 116 ∷ 104 ∷ []

abbrev pub lte_name : CString
lte_name = 108 ∷ 116 ∷ 101 ∷ []

abbrev pub dsl : Iface
dsl = configured 0 dsl_name IfaceType.primary 3

abbrev pub eth : Iface
eth = configured 1 eth_name IfaceType.primary 1

abbrev pub lte : Iface
lte = configured 2 lte_name IfaceType.secondary 0

abbrev pub free : Mutex
free = record { depth = 0; is_usable = true }

abbrev pub gateway : Database
gateway = record {
  config = record { enable = true; policy = Policy.fixed_mode; idle_timeout = 0 };
  config_mutex = free;
  total = 3;
  ifaces = some (dsl ∷ eth ∷ lte ∷ []);
  iface_mutex = free;
}

abbrev pub home : World
home = record { db = gateway; trace = [] }

pub gateway-IsWellFormed : IsWellFormed gateway
gateway-IsWellFormed = record { backed = refl; small = omega arith; usable = refl }
