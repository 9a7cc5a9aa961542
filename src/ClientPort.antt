-- ===== src/ClientPort.antt =====
-- adsApp/src/adsAsynPortDriver.cpp, the ADS client port of each thread: the map
-- `threadIdToAmsClientPortMap_`, its three functions and the guard `AdsClientPortGuard`.
-- `AdsPortOpenEx` and `AdsPortCloseEx` belong to AdsLib: they are the fields of `PortApi`, over a
-- state `W` of that library. A thread id is a number, and 0 is the null id of the default entry.
-- The mutex is recursive and held over each function, so a function is one step.
pub mod Laws
pub mod Owned
pub mod History
use twincat_ads.Base.Int.{ℤ, pos, negsuc, suc_ℤ, pred_ℤ, is_positive}
use twincat_ads.Base.Map.{find, insert, erase, update}
use twincat_ads.Base.{
  ℕ, ◌≡◌, Bool, true, false, ◌||◌, List, Option, none, some, AsynStatus, asyn_success, asyn_error,
  ltb, ◌==◌, if◌then◌else◌,
}

pub record AmsClientPortEntry : Type 0 where
  pub port : ℤ
  pub live_count : ℤ

abbrev pub PortMap : Type 0
PortMap = List (ℕ × AmsClientPortEntry)

pub record PortApi (W : Type 0) : Type 0 where
  pub ads_port_open_ex : W → ℤ × W
  pub ads_port_close_ex : ℤ → W → ℕ × W

abbrev pub uint16_max : ℕ
uint16_max = 65535

pub is_invalid_port_number : ℤ → Bool
is_invalid_port_number (pos n) = n == 0 || ltb uint16_max n
is_invalid_port_number (negsuc n) = true

-- `unordered_map::at` throws on a missing key: the result is `none`.
abbrev pub port_at : ℕ → PortMap → Option ℤ
port_at k m = elim (find k m) [ none ↦ none | some e ↦ some e.port ]

unfoldable pub get_ads_client_port : ℕ → PortMap → Option ℤ
get_ads_client_port t m = elim (find t m) [ some e ↦ port_at 0 m | none ↦ port_at t m ]

module _ {W : Type 0} (api : PortApi W) where
  open api use {ads_port_open_ex, ads_port_close_ex}

  unfoldable pub open_for : ℕ → PortMap → ℤ × W → ℤ × PortMap × W
  unfolding is_invalid_port_number
  open_for t m (p, w) =
      if is_invalid_port_number p
      then (pos 0, m, w)
      else (p, insert t (record { port = p; live_count = pos 1 }) m, w)

  unfoldable pub add_ads_client_port : ℕ → PortMap → W → ℤ × PortMap × W
  unfolding open_for
  add_ads_client_port t m w = elim (find t m) [
    | some e ↦ (e.port, update t (record e { live_count = suc_ℤ e.live_count }) m, w)
    | none ↦ open_for t m (ads_port_open_ex w)
  ]

  unfoldable pub close_for : ℕ → PortMap → AmsClientPortEntry → ℕ × W → AsynStatus × PortMap × W
  close_for t m e (result, w) =
      if result == 0 then (asyn_success, erase t m, w) else (asyn_error, update t e m, w)

  unfoldable pub release_entry : ℕ → PortMap → AmsClientPortEntry → W → AsynStatus × PortMap × W
  unfolding close_for
  release_entry t m e w =
      if is_positive e.live_count
      then (asyn_success, update t e m, w)
      else close_for t m e (ads_port_close_ex e.port w)

  unfoldable pub del_ads_client_port : ℕ → PortMap → W → AsynStatus × PortMap × W
  unfolding release_entry
  del_ads_client_port t m w = elim (find t m) [
    | some e ↦ release_entry t m (record e { live_count = pred_ℤ e.live_count }) w
    | none ↦ (asyn_success, m, w)
  ]
