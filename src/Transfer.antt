-- ===== src/Transfer.antt =====
-- adsApp/src/adsAsynPortDriver.cpp: adsWriteParam and adsReadParam, the synchronous write and read
-- of one parameter.
pub mod Laws
pub mod Decode
pub mod Value
pub mod Write
use twincat_ads.Ads.{AmsAddr, AdsParamInfo, AdsApi}
use twincat_ads.Notify.{resolve_access, access_group, access_offset}
use twincat_ads.EtherCat.{Master, check_ethercat_master_for_param, ads_target_net_id_for_param}
use twincat_ads.Base.{
  ℕ, Bool, true, false, List, [], AsynStatus, asyn_success, asyn_error, failed, ◌==◌, if◌then◌else◌,
  not, ◌||◌,
}

-- What adsReadParam leaves in `*error`, and the data it read.
pub record Reading : Type 0 where
  pub error : ℕ
  pub bytes : List ℕ

module _ {W : Type 0} (api : AdsApi W) (remote_net_id : List ℕ) (client : ℕ) where
  open api use {read_bytes, write_bytes}

  -- The address is computed before the symbol is resolved, which does not change the ams port.
  unfoldable pub server : Master → AdsParamInfo → AmsAddr
  server m p = record {
    net_id = ads_target_net_id_for_param api remote_net_id client p m;
    port = p.ams_port;
  }

  unfoldable pub written : ℕ × W → AsynStatus × W
  written (status, w) = (if status == 0 then asyn_success else asyn_error, w)

  -- The PLC's size counts, not `bytesToWrite`, which is not used.
  unfoldable pub write_resolved :
      AmsAddr → List ℕ → AsynStatus × AdsParamInfo × W → AsynStatus × AdsParamInfo × W
  unfolding written
  write_resolved addr binary_buffer (status, p, w) =
      if failed status
      then (asyn_error, p, w)
      else let (st, w') = written (
          write_bytes client addr (access_group api remote_net_id client p)
            (access_offset api remote_net_id client p) p.plc_size binary_buffer w) in
        (st, p, w')

  unfoldable pub write_checked :
      AdsParamInfo → List ℕ → Bool × Master × W → AsynStatus × AdsParamInfo × Master × W
  write_checked p binary_buffer (allowed, m, w) =
      if not allowed
      then (asyn_error, p, m, w)
      else let (st, p', w') =
          write_resolved (server m p) binary_buffer (resolve_access api remote_net_id client p w) in
        (st, p', m, w')

  unfoldable pub ads_write_param :
      Bool → AdsParamInfo → List ℕ → Master → W → AsynStatus × AdsParamInfo × Master × W
  ads_write_param stop_threads p binary_buffer m w =
      if stop_threads
      then (asyn_error, p, m, w)
      else write_checked p binary_buffer
          (check_ethercat_master_for_param api remote_net_id client p m w)

  unfoldable pub received :
      AdsParamInfo → ℕ × List ℕ × ℕ × W → AsynStatus × AdsParamInfo × Reading × W
  received p (error, bytes, bytes_read, w) =
      if not (error == 0) || not (bytes_read == p.plc_size)
      then (asyn_error, p, record { error = error; bytes = [] }, w)
      else (
        asyn_success,
        record p { plc_time_stamp_raw = 0; first_read_done = true },
        record { error = error; bytes = bytes },
        w,
      )

  unfoldable pub read_resolved :
      AmsAddr → AsynStatus × AdsParamInfo × W → AsynStatus × AdsParamInfo × Reading × W
  unfolding received
  read_resolved addr (status, p, w) =
      if failed status
      then (asyn_error, p, record { error = 0; bytes = [] }, w)
      else received p (
          read_bytes client addr (access_group api remote_net_id client p)
            (access_offset api remote_net_id client p) p.plc_size w)

  unfoldable pub read_checked :
      AdsParamInfo → Bool × Master × W → AsynStatus × AdsParamInfo × Reading × Master × W
  read_checked p (allowed, m, w) =
      if not allowed
      then (asyn_error, p, record { error = 0; bytes = [] }, m, w)
      else let (st, p', r, w') =
          read_resolved (server m p) (resolve_access api remote_net_id client p w) in
        (st, p', r, m, w')

  -- Up to the update of the asyn parameter (`ads_read_and_update_param` of Transfer/Value).
  unfoldable pub ads_read_param :
      Bool → AdsParamInfo → Master → W → AsynStatus × AdsParamInfo × Reading × Master × W
  ads_read_param stop_threads p m w =
      if stop_threads
      then (asyn_error, p, record { error = 0; bytes = [] }, m, w)
      else read_checked p (check_ethercat_master_for_param api remote_net_id client p m w)
