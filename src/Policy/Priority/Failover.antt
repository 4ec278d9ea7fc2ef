-- ===== src/Policy/Priority/Failover.antt =====
-- Primary priority over three passes: a primary interface is connected, is lost, and a secondary one
-- takes its place.
use rdk_wanmanager.Common.{ℕ, ◌<◌, ◌≡◌, ◌⊎◌, inr, ap, ◌∙◌, true, false, some, ◌∷◌, pos, minus_one}
use rdk_wanmanager.Dml.{is_phy_down, is_primary}
use rdk_wanmanager.Store.Defs.{Database, load}
use rdk_wanmanager.Store.Lock.{IsWellFormed}
use rdk_wanmanager.Select.Defs.{priority_select}
use rdk_wanmanager.Policy.Control.{
  Machine, set_active_link, platform_status, PlatformStatus, start_sm, iface_sm_init,
}
use rdk_wanmanager.Policy.Enter.{enabled}
use rdk_wanmanager.Policy.Priority.Defs.{PpState, pp_pass, interface_down, secondary_wan_active}
use rdk_wanmanager.Policy.Priority.Connect.{pp_pass_connects, pp_pass_gives_up}
use rdk_wanmanager.Policy.Priority.Fallback.{pp_pass_falls_back}

-- The other threads have changed the table to `db`.
abbrev pub changed : Machine PpState → Database → Machine PpState
changed m db = record m { world = record m.world { db = db } }

module _ (m : Machine PpState) (db1 db2 : Database) where
  -- A pass, the same on the table `db1` that the other threads leave then, and on `db2` after it.
  abbrev pub first_pass : Machine PpState
  first_pass = pp_pass true m

  abbrev pub second_pass : Machine PpState
  second_pass = pp_pass true (changed first_pass db1)

  abbrev pub third_pass : Machine PpState
  third_pass = pp_pass true (changed second_pass db2)

  -- The standby build, in `STATE_INTERFACE_DOWN` with no interface active and none as the secondary
  -- one, selects a primary interface `p` in a pass; before the next pass `p` is unplugged, disabled or
  -- no longer primary; and before the one after it the table has no primary interface to select, but
  -- a secondary one, `q`. Whatever else the other threads do to the table between the passes, as long
  -- as it is well-formed and has `p` and `q`: the three passes set the flag of `p`, clear it, and set
  -- that of `q`, and change nothing else in the table; they start two state machines, on `p` and
  -- then on `q`, and report connecting, disconnected and connecting; and at the end `q` is the active
  -- interface, in `STATE_SECONDARY_WAN_ACTIVE`.
  pub failover :
      (p q : ℕ)
      → IsWellFormed m.world.db
      → m.state ≡ interface_down
      → m.ctrl.active_idx ≡ minus_one
      → m.ctrl.secondary_idx ≡ minus_one
      → p < m.world.db.total
      → (priority_select (enabled m.world m.ctrl) m.world.db).1 ≡ pos p
      → IsWellFormed db1
      → p < db1.total
      → (is_phy_down (load db1 p).phy.status ≡ true)
        ⊎ ((is_primary (load db1 p).wan.type ≡ false) ⊎ ((load db1 p).wan.enable ≡ false))
      → IsWellFormed db2
      → q < db2.total
      → (priority_select (enabled (changed second_pass db2).world second_pass.ctrl) db2).1
        ≡ minus_one
      → (priority_select (enabled (changed second_pass db2).world second_pass.ctrl) db2).2 ≡ pos q
      → (first_pass.world.db ≡ (set_active_link m.world p true).db)
        × (second_pass.world.db ≡ (set_active_link (changed first_pass db1).world p false).db)
        × (third_pass.world.db ≡ (set_active_link (changed second_pass db2).world q true).db)
        × (third_pass.world.trace
            ≡ start_sm (some (iface_sm_init (load db2 q).iface_idx))
              ∷ platform_status PlatformStatus.connecting
              ∷ platform_status PlatformStatus.disconnected
              ∷ start_sm (some (iface_sm_init (load m.world.db p).iface_idx))
              ∷ platform_status PlatformStatus.connecting
              ∷ m.world.trace)
        × (third_pass.state ≡ secondary_wan_active)
        × (third_pass.ctrl.active_idx ≡ pos q)
  failover p q v s i j h e v1 h1 lost v2 h2 none_primary second =
      let (s1, i1, d1, t1) = pp_pass_connects m p v s i j h e in
      let (s2, i2, d2, t2) =
        pp_pass_gives_up true (changed first_pass db1) p v1 s1 i1 h1 (inr lost) in
      let (s3, i3, d3, t3) =
        pp_pass_falls_back (changed second_pass db2) q v2 s2 i2 h2 none_primary second in
      (
        d1,
        d2,
        d3,
        t3
            ∙ ap
                (λ t.
                  start_sm (some (iface_sm_init (load db2 q).iface_idx))
                  ∷ platform_status PlatformStatus.connecting
                  ∷ t)
                (t2 ∙ ap (λ t. platform_status PlatformStatus.disconnected ∷ t) t1),
        s3,
        i3,
      )
