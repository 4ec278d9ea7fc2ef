-- ===== src/Policy/Notions.antt =====
-- The notions by which the theorems on the policies are stated.
use rdk_wanmanager.Common.{
  ℕ, suc, ◌<◌, ◌≡◌, ◌⊎◌, inl, inr, refl, true, false, Bool, List, [], ◌∷◌, ℤ, pos, minus_one,
}
use rdk_wanmanager.Dml.{Iface, WanStatus, PhyStatus, LinkStatus}
use rdk_wanmanager.Store.Defs.{Database, load}
use rdk_wanmanager.Store.Lock.{IsWellFormed}
use rdk_wanmanager.Select.Defs.{
  fixed_select, priority_select, primary_candidate, secondary_candidate,
}
use rdk_wanmanager.Select.Choice.{
  fixed_select-Selected, priority_select-Selected, priority_select_disabled,
}
use rdk_wanmanager.Select.Scan.{Selected}
use rdk_wanmanager.Policy.Control.{Effect, platform_status, start_sm}

-- The active index is -1 or that of an entry.
abbrev pub InRange : ℕ → ℤ → Type 0
InRange n idx = (idx ≡ minus_one) ⊎ ((p : ℕ) × (idx ≡ pos p) × (p < n))

-- What a pass leaves of the database: all but the entries of the table.
pub record Keeps (db db' : Database) : Type 0 where
  pub total : db'.total ≡ db.total
  pub config : db'.config ≡ db.config
  pub iface_mutex : db'.iface_mutex ≡ db.iface_mutex
  pub config_mutex : db'.config_mutex ≡ db.config_mutex

-- The number of state machines started.
abbrev pub starts : List Effect → ℕ
starts [] = 0
starts (platform_status s ∷ es) = starts es
starts (start_sm c ∷ es) = suc (starts es)

-- The interface may be connected: the WAN is enabled, its link is there or coming, and nothing runs
-- on it.
pub record IsReady (enable : Bool) (f : Iface) : Type 0 where
  pub wan_enabled : enable ≡ true
  pub has_link : (f.phy.status ≡ PhyStatus.up) ⊎ (f.phy.status ≡ PhyStatus.initializing)
  pub is_disabled : f.wan.status ≡ WanStatus.disabled
  pub link_down : f.wan.link_status ≡ LinkStatus.down

-- A selected index is in range.
pub Selected-InRange : (db : Database) → IsWellFormed db → InRange db.total (fixed_select db).1
Selected-InRange db v = elim (fixed_select-Selected db v).1 [
  | inl (e, _) ↦ inl e
  | inr (p, k, e, wins) ↦ inr (p, e, wins.in_range)
]

idx-InRange :
    (candidate : Iface → Bool) (db : Database) (idx : ℤ)
    → Selected candidate (load db) db.total idx
    → InRange db.total idx
idx-InRange candidate db idx (inl (e, _)) = inl e
idx-InRange candidate db idx (inr (p, k, e, wins)) = inr (p, e, wins.in_range)

pub priority_select-InRange :
    (wan_enable : Bool) (db : Database)
    → IsWellFormed db
    → InRange db.total (priority_select wan_enable db).1
      × InRange db.total (priority_select wan_enable db).2
priority_select-InRange true db v =
    let (_, primary, secondary) = priority_select-Selected db v in
    (idx-InRange primary_candidate db _ primary, idx-InRange secondary_candidate db _ secondary)
priority_select-InRange false db v = rw (priority_select_disabled db v) (inl refl, inl refl)
