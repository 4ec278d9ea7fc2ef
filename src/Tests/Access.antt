-- ===== src/Tests/Access.antt =====
-- The data model on the gateway.
use rdk_wanmanager.Common.{
  ℕ, zero, suc, ◌<◌, ◌≡◌, ◌≢◌, refl, true, some, none, if◌then◌else◌, pos, arith,
}
use rdk_wanmanager.Dml.{IfaceType}
use rdk_wanmanager.Store.Defs.{load, zero_iface}
use rdk_wanmanager.DataModel.Config.{
  BoolParam, ValidationParam, set_bool, get_bool, set_validation, get_validation,
}
use rdk_wanmanager.DataModel.Numbers.{IntParam, UlongSetting, set_int, set_ulong}
use rdk_wanmanager.DataModel.RoundTrip.{index_of, read_back}
use rdk_wanmanager.DataModel.Distinct.{IsIndexed, IsDistinct, Clash, setters-IsDistinct}
use rdk_wanmanager.Tests.Gateway.{gateway, gateway-IsWellFormed}

gateway-IsIndexed : IsIndexed gateway
unfolding load zero_iface
gateway-IsIndexed zero h = refl
gateway-IsIndexed (suc zero) h = refl
gateway-IsIndexed (suc (suc zero)) h = refl
gateway-IsIndexed (suc (suc (suc k))) h = ground arith

gateway_apart : (a b : ℕ) → a < 3 → b < 3 → a ≢ b → Clash gateway a b → ⊥
unfolding load zero_iface
gateway_apart zero zero h k n c = n refl
gateway_apart zero (suc zero) h k n (p, q) = ground arith
gateway_apart zero (suc (suc zero)) h k n (p, q) = ground arith
gateway_apart (suc zero) zero h k n (p, q) = ground arith
gateway_apart (suc zero) (suc zero) h k n c = n refl
gateway_apart (suc zero) (suc (suc zero)) h k n (p, q) = ground arith
gateway_apart (suc (suc zero)) zero h k n (p, q) = ground arith
gateway_apart (suc (suc zero)) (suc zero) h k n (p, q) = ground arith
gateway_apart (suc (suc zero)) (suc (suc zero)) h k n c = n refl
gateway_apart (suc (suc (suc a))) b h k n c = ground arith
gateway_apart a (suc (suc (suc b))) h k n c = ground arith

setters-IsDistinct_example :
    IsDistinct (set_int gateway (some 1) IntParam.priority (pos 3)).0
    × IsDistinct (set_ulong gateway (some 1) (UlongSetting.type IfaceType.secondary)).0
setters-IsDistinct_example =
    setters-IsDistinct gateway 1 gateway-IsWellFormed gateway-IsIndexed (omega arith)
      (record { distinct = gateway_apart }) (pos 3) IfaceType.secondary

index_small : index_of gateway 1 < 3
unfolding load zero_iface
index_small = omega arith

read_back_example :
    let (db1, ok) = set_bool gateway (some 1) BoolParam.refresh true in
    let (db2, ok') = set_validation gateway (some 1) ValidationParam.rs_ra true in
    (get_bool db1 (some 1) BoolParam.refresh ≡ (db1, if ok then some true else none))
    × (get_validation db2 (some 1) ValidationParam.rs_ra ≡ (db2, if ok' then some true else none))
read_back_example =
    read_back gateway 1 gateway-IsWellFormed index_small BoolParam.refresh ValidationParam.rs_ra
      true
