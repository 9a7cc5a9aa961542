-- ===== src/Construct.antt =====
-- adsApp/src/adsAsynPortDriver.cpp: adsAsynPortDriverConfigure up to the constructor of the driver, and
-- the loop at the end of the constructor, which waits for the PLC. A time of AdsLib is a number.
pub mod Connected
pub mod Delay
pub mod Running
pub mod Whole
use twincat_ads.Base.Int.{ℤ, pos, negsuc}
use twincat_ads.Bulk.{is_negative}
use twincat_ads.Ads.{
  AdsApi, AdsParamInfo, AmsPortInfo, AdsTimeSource, time_base_plc, time_base_epics,
}
use twincat_ads.ClientPort.{
  PortApi, PortMap, add_ads_client_port, del_ads_client_port, get_ads_client_port,
  is_invalid_port_number,
}
use twincat_ads.Connection.{Routes, BaseConnect, connect, disconnect, ads_add_ethercat_route}
use twincat_ads.Cyclic.{ads_read_state}
use twincat_ads.EtherCat.{
  Master, Source, unresolved, configured, resolve_ethercat_master, ethercat_master_is_available,
}
use twincat_ads.NetId.{parse_ams_net_id}
use twincat_ads.PortList.{add_new_ams_port_to_list}
use twincat_ads.Symbol.{ads_release_symbolic_handle}
use twincat_ads.Notify.{ads_del_data_callback}
use twincat_ads.Transfer.Decode.{signed, half32, pattern_of}
use twincat_ads.Update.{UpdateEnv}
use text.Mathlib.Text.{◌==◌ as str_eq}
use twincat_ads.Base.{
  ℕ, zero, suc, ◌*◌, ◌%◌, ◌^◌, Bool, true, false, String, List, [], ◌∷◌, ◌++◌, Option, none, some,
  AsynStatus, asyn_success, asyn_error, failed, ltb, leb, ◌==◌, if◌then◌else◌, not, ◌&&◌, ◌||◌,
}

-- The worker threads.
pub data Worker : Type 0 where
  cyclic_worker bulk_read_worker data_callback_worker trigger_worker : Worker

-- The arguments of adsAsynPortDriverConfigure and of the constructor that the model uses.
pub record Arguments : Type 0 where
  pub ipaddr : String
  pub amsaddr : String
  pub amsport : ℕ
  pub param_table_size : ℤ
  pub default_sample_time_ms : ℤ
  pub max_delay_time_ms : ℤ
  pub ads_timeout_ms : ℤ
  pub default_time_source : AdsTimeSource
  pub ethercat_master_override : Option String

-- A time in milliseconds, or this one where it is negative.
unfoldable pub time_or : ℤ → ℕ → ℤ
time_or time default = if is_negative time then pos default else time

unfoldable pub time_source_of : ℤ → AdsTimeSource
time_source_of (pos zero) = time_base_plc
time_source_of _ = time_base_epics

-- adsAsynPortDriverConfigure up to the constructor: the constructor's arguments, unless one of the texts
-- is missing or the port's name is empty or asks for help. `source` is the number of the time source.
unfoldable pub configured_arguments :
    Option String → Option String → Option String → ℤ → Arguments → Option Arguments
unfolding time_or time_source_of
configured_arguments (some name) (some ip) (some ams) source a =
    if str_eq name "" || str_eq name "-h"
    then none
    else some (record a {
      ipaddr = ip;
      amsaddr = ams;
      default_sample_time_ms = time_or a.default_sample_time_ms 100;
      max_delay_time_ms = time_or a.max_delay_time_ms 500;
      ads_timeout_ms = time_or a.ads_timeout_ms 2000;
      default_time_source = time_source_of source;
    })
configured_arguments _ _ _ source a = none

-- bulk_delay_us, of type `int`.
unfoldable pub bulk_delay : ℤ → ℤ
bulk_delay (negsuc n) = pos 1000000
bulk_delay (pos n) = if ltb n 1000 then pos 1000000 else signed half32 (n * 1000 % 2 ^ 32)

-- What a turn of the loop at the end of the constructor does: another turn follows, or it returns.
pub data ConnectTurn (W : Type 0) : Type 0 where
  again : Master → Routes → W → ConnectTurn W
  established : Master → Routes → W → ConnectTurn W

module _ {W : Type 0} (api : AdsApi W) (base : BaseConnect W) (update : UpdateEnv)
    (remote_net_id : List ℕ) (ipaddr : String) (client timeout ams_port : ℕ) where
  -- The PLC runs.
  unfoldable pub run_found : Master → Routes → W → ConnectTurn W
  unfolding resolve_ethercat_master ads_add_ethercat_route
  run_found m r w =
      let (_, found, asked) = resolve_ethercat_master api remote_net_id client m w in
      let (m', w') = if m.resolved then (m, w) else (found, asked) in
      let (_, r', w'') =
        if ethercat_master_is_available m'
        then ads_add_ethercat_route api remote_net_id ipaddr m' r w'
        else (asyn_success, r, w') in
      established m' r' w''

  unfoldable pub read_answered : Master → Routes → AsynStatus × ℕ × W → ConnectTurn W
  unfolding run_found disconnect
  read_answered m r (status, state, w) =
      if failed status
      then (let (_, r', w') = disconnect api remote_net_id ipaddr base r w in again m r' w')
      else if state == api.state_run
      then run_found m r w
      else again m r w

  unfoldable pub connect_answered : Master → AsynStatus × Routes × W → ConnectTurn W
  unfolding read_answered ads_read_state
  connect_answered m (status, r, w) =
      if failed status
      then again m r w
      else read_answered m r (ads_read_state api remote_net_id client update ams_port w)

  unfoldable pub connect_turn : Master → Routes → W → ConnectTurn W
  unfolding connect connect_answered
  connect_turn m r w =
      connect_answered m (connect api remote_net_id ipaddr base client timeout m r w)

  -- Each turn uses one of `n`; none where the loop has not ended.
  unfoldable pub connect_until : ℕ → Master → Routes → W → Option (Master × Routes × W)
  unfolding connect_turn
  connect_until zero m r w = none
  connect_until (suc n) m r w = elim (connect_turn m r w) [
    | again m' r' w' ↦ connect_until n m' r' w'
    | established m' r' w' ↦ some (m', r', w')
  ]
