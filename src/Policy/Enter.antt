-- ===== src/Policy/Enter.antt =====
-- The frame of a pass: what the code before and after `switch` does on a well-formed database.
use rdk_wanmanager.Common.{ℕ, ◌≤◌, ◌<◌, ◌≡◌, Bool, none, some, if◌then◌else◌, to_uint, arith}
use rdk_wanmanager.Store.Defs.{get_config_data_locked, config_data_release}
use rdk_wanmanager.Store.Lock.{
  IsWellFormed, held, get_iface_data_locked_in, get_iface_data_locked_out,
}
use rdk_wanmanager.Policy.Control.{World, Controller, update_config, lock_active, enter}

-- The value of `WanEnable` in a pass.
abbrev pub enabled : World → Controller → Bool
enabled w c = if w.db.config_mutex.is_usable then w.db.config.enable else c.wan_enable

abbrev pub held_world : World → World
held_world w = record w { db = held w.db }

-- The controller in the pass, with the active interface found at `p`.
abbrev pub entered : World → Controller → ℕ → Controller
entered w c p = record c { wan_enable = enabled w c; active_data = some p }

update_config_lem :
    (w : World) (c : Controller) → update_config w c ≡ (w, record c { wan_enable = enabled w c })
unfolding update_config get_config_data_locked config_data_release
update_config_lem w c = ground arith

-- The active interface is found, and the table stays locked.
pub enter_in :
    (w : World) (c : Controller)
    → IsWellFormed w.db
    → to_uint c.active_idx < w.db.total
    → enter w c ≡ (
      held_world w,
      record c { wan_enable = enabled w c; active_data = some (to_uint c.active_idx) },
    )
unfolding enter lock_active
enter_in w c v h =
    rw (update_config_lem w c) (rw (get_iface_data_locked_in w.db (to_uint c.active_idx) v h))

-- There is none, and the table is not locked.
pub enter_out :
    (w : World) (c : Controller)
    → IsWellFormed w.db
    → w.db.total ≤ to_uint c.active_idx
    → enter w c ≡ (w, record c { wan_enable = enabled w c; active_data = none })
unfolding enter lock_active
enter_out w c v h =
    rw (update_config_lem w c) (rw (get_iface_data_locked_out w.db (to_uint c.active_idx) v h))
