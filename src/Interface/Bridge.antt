-- ===== src/Interface/Bridge.antt =====
-- The LAN bridge: the wait for its address, and the prefix that it is given.
use rdk_wanmanager.Common.{ℕ, zero, suc, ◌+◌, Bool, false, ◌||◌}

-- Some round from `i` on, of `rounds`, has the answer yes.
unfoldable pub any_round : (ℕ → Bool) → ℕ → ℕ → Bool
any_round f zero i = false
any_round f (suc rounds) i = f i || any_round f rounds (i + 1)
