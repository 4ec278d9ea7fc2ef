-- ===== src/Select/Defs.antt =====
-- The selection of an interface, source/WanManager/wanmgr_policy_fm_impl.c and
-- wanmgr_policy_pp_impl.c; wanmgr_policy_fmob_impl.c and wanmgr_policy_ppob_impl.c repeat the two
-- functions. The loops walk through the table by locking and releasing each entry.
use rdk_wanmanager.Common.{
  ℕ, zero, suc, ◌+◌, ◌-◌, Bool, ◌&&◌, ◌||◌, not, Option, none, some, if◌then◌else◌, ℤ, pos,
  minus_one, ltb_ℤ, is_nonneg, to_int, u32_mod,
}
use rdk_wanmanager.Dml.{Iface, is_primary, is_phy_up, is_phy_initializing}
use rdk_wanmanager.Store.Defs.{
  Database, load, get_iface_ctrl_locked, iface_ctrl_release, get_iface_data_locked,
  iface_data_release,
}

-- `DML_WAN_IFACE_PRIORITY_MAX`.
abbrev pub priority_max : ℕ
priority_max = 255

-- The best interface so far: its index, or -1, and its priority.
pub record Best : Type 0 where
  pub idx : ℤ
  pub priority : ℤ

abbrev pub no_best : Best
no_best = record { idx = minus_one; priority = pos priority_max }

-- The two nested tests on `Wan.Priority`, and the assignments under them.
unfoldable pub consider : ℤ → ℕ → Best → Best
consider priority i best =
    if ltb_ℤ priority best.priority
    then (if is_nonneg priority then record { idx = to_int i; priority = priority } else best)
    else best

-- `uiTotalIfaces`, which stays (UINT)-1 if the table cannot be locked.
read_total : Database → Option Database → Database × ℕ
read_total db none = (db, u32_mod - 1)
read_total db (some held) = (iface_ctrl_release held, held.total)

unfoldable pub total_ifaces : Database → Database × ℕ
unfolding read_total
total_ifaces db = read_total db (get_iface_ctrl_locked db)

-- Fixed mode: `Wan.Enable` and the type decide.
abbrev pub fixed_candidate : Iface → Bool
fixed_candidate f = f.wan.enable && is_primary f.wan.type

abbrev pub consider_if : (Iface → Bool) → Iface → ℕ → Best → Best
consider_if candidate f i best = if candidate f then consider f.wan.priority i best else best

unfoldable pub fixed_entry : Best → ℕ → Database × Option ℕ → Database × Best
fixed_entry best i (db, none) = (db, best)
fixed_entry best i (db, some p) =
    (iface_data_release db, consider_if fixed_candidate (load db p) i best)

unfoldable pub fixed_loop : ℕ → ℕ → Database × Best → Database × Best
unfolding fixed_entry
fixed_loop zero i s = s
fixed_loop (suc rounds) i (db, best) =
    fixed_loop rounds (i + 1) (fixed_entry best i (get_iface_data_locked db i))

-- `WanMgr_Policy_FM_SelectWANActive` of the fixed mode. The loop over no entry does nothing, so
-- the test `uiTotalIfaces > 0` needs no case of its own.
fixed_from : Database × ℕ → Database × ℤ
fixed_from (db, total) = let (db', best) = fixed_loop total 0 (db, no_best) in (db', best.idx)

unfoldable pub fixed_select : Database → Database × ℤ
unfolding fixed_from total_ifaces
fixed_select db = fixed_from (total_ifaces db)

-- Primary priority: an enabled interface with a physical link, primary or not.
abbrev pub has_phy : Iface → Bool
has_phy f = f.wan.enable && (is_phy_up f.phy.status || is_phy_initializing f.phy.status)

abbrev pub primary_candidate : Iface → Bool
primary_candidate f = has_phy f && is_primary f.wan.type

abbrev pub secondary_candidate : Iface → Bool
secondary_candidate f = has_phy f && not (is_primary f.wan.type)

-- `iSelPrimaryInterface` and `iSelSecondaryInterface` with their priorities.
pub record Pair : Type 0 where
  pub primary : Best
  pub secondary : Best

unfoldable pub consider_pair : Iface → ℕ → Pair → Pair
consider_pair f i s =
    if has_phy f
    then (if is_primary f.wan.type
        then record s { primary = consider f.wan.priority i s.primary }
        else record s { secondary = consider f.wan.priority i s.secondary })
    else s

unfoldable pub pair_entry : Pair → ℕ → Database × Option ℕ → Database × Pair
pair_entry s i (db, none) = (db, s)
pair_entry s i (db, some p) = (iface_data_release db, consider_pair (load db p) i s)

unfoldable pub pair_loop : ℕ → ℕ → Database × Pair → Database × Pair
unfolding pair_entry
pair_loop zero i s = s
pair_loop (suc rounds) i (db, s) =
    pair_loop rounds (i + 1) (pair_entry s i (get_iface_data_locked db i))

abbrev no_pair : Pair
no_pair = record { primary = no_best; secondary = no_best }

pair_from : Bool → Database × ℕ → Database × Pair
pair_from wan_enable (db, total) =
    let found = pair_loop total 0 (db, no_pair) in if wan_enable then found else (db, no_pair)

-- `WanMgr_Policy_FM_SelectWANActive` of the primary priority policies; the results are
-- `*pPrimaryInterface` and `*pSecondaryInterface`.
unfoldable pub priority_select : Bool → Database → Database × ℤ × ℤ
unfolding pair_from total_ifaces
priority_select wan_enable db =
    let (db', s) = pair_from wan_enable (total_ifaces db) in (db', s.primary.idx, s.secondary.idx)
