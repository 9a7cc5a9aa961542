-- ===== src/Notify.antt =====
-- adsApp/src/adsAsynPortDriver.cpp, notifications: the data callback of a parameter
-- (adsAddDataCallback, adsDelDataCallback) and the symbol version callback of an ams port
-- (adsAddSymbolsChangedCallback, adsDelSymbolsChangedCallback).
use mathlib.Core.Option.{get_or}
use twincat_ads.Ads.{AmsAddr, AdsParamInfo, AmsPortInfo, AdsApi}
use twincat_ads.Symbol.{no_handle, ads_get_sym_info_by_name, ads_get_sym_handle_by_name}
use twincat_ads.Base.{
  ℕ, Bool, true, false, List, Option, AsynStatus, asyn_success, asyn_error, failed, ◌==◌,
  if◌then◌else◌,
}

-- The driver's default times as 100 ns ticks, and its own ADS port.
pub record NotifyConfig : Type 0 where
  pub ads_port : ℕ
  pub default_max_delay_ticks : ℕ
  pub default_sample_ticks : ℕ

module _ {W : Type 0} (api : AdsApi W) (remote_net_id : List ℕ) (client : ℕ) where
  open api use {sym_valbyhnd, sym_version, add_notification, del_notification}

  abbrev pub addr : ℕ → AmsAddr
  addr ams_port = record { net_id = remote_net_id; port = ams_port }

  unfoldable pub ensure_handle : AsynStatus × AdsParamInfo × W → AsynStatus × AdsParamInfo × W
  ensure_handle (status, p, w) =
      if failed status
      then (asyn_error, p, w)
      else if p.symbolic_handle_valid
      then (asyn_success, p, w)
      else ads_get_sym_handle_by_name api remote_net_id client p w

  -- Symbolic access: the symbol's description and its handle are fetched if they are missing.
  unfoldable pub resolve_symbolic : AdsParamInfo → W → AsynStatus × AdsParamInfo × W
  unfolding ensure_handle
  resolve_symbolic p w = ensure_handle (
      if p.plc_abs_adr_valid
      then (asyn_success, p, w)
      else ads_get_sym_info_by_name api remote_net_id client p w)

  -- The checks before an access, and the index group and offset: the address of an .ADR. command,
  -- or the handle.
  unfoldable pub resolve_access : AdsParamInfo → W → AsynStatus × AdsParamInfo × W
  unfolding resolve_symbolic
  resolve_access p w =
      if p.is_adr_command
      then (if p.plc_abs_adr_valid then asyn_success else asyn_error, p, w)
      else resolve_symbolic p w

  abbrev pub access_group : AdsParamInfo → ℕ
  access_group p = if p.is_adr_command then p.plc_abs_adr_group else sym_valbyhnd

  abbrev pub access_offset : AdsParamInfo → ℕ
  access_offset p = if p.is_adr_command then p.plc_abs_adr_offset else p.h_symbolic_handle

  unfoldable pub store_notification :
      AdsParamInfo → ℕ × Option ℕ × W → AsynStatus × AdsParamInfo × W
  store_notification p (status, h, w) =
      if status == 0
      then (
        asyn_success,
        record p { h_callback_notify = get_or h 0; callback_notify_valid = true },
        w,
      )
      else (asyn_error, p, w)

  -- The request goes out on the driver's own port `adsPort_`, not on the caller's.
  unfoldable pub request_notification :
      NotifyConfig → AsynStatus × AdsParamInfo × W → AsynStatus × AdsParamInfo × W
  unfolding store_notification
  request_notification c (status, p, w) =
      if failed status
      then (asyn_error, p, w)
      else store_notification p (
          add_notification c.ads_port (addr p.ams_port) (access_group p) (access_offset p)
            (record {
              cb_length = p.plc_size;
              n_max_delay = p.max_delay_ticks;
              n_cycle_time = p.sample_ticks;
            })
            p.param_index w)

  unfoldable pub ads_add_data_callback :
      NotifyConfig → AdsParamInfo → W → AsynStatus × AdsParamInfo × W
  ads_add_data_callback c p w =
      request_notification c (resolve_access (record p { callback_notify_valid = false }) w)

  unfoldable pub deleted : AdsParamInfo → ℕ × W → AsynStatus × AdsParamInfo × W
  deleted p (status, w) = (
    if status == 0 then asyn_success else asyn_error,
    record p { callback_notify_valid = false; h_callback_notify = no_handle },
    w,
  )

  -- `blockErrorMsg` decides on a message only.
  unfoldable pub ads_del_data_callback : AdsParamInfo → Bool → W → AsynStatus × AdsParamInfo × W
  unfolding deleted
  ads_del_data_callback p block_error_msg w =
      deleted p (del_notification client (addr p.ams_port) p.h_callback_notify w)

  unfoldable pub store_version_callback :
      AmsPortInfo → ℕ × Option ℕ × W → AsynStatus × AmsPortInfo × W
  store_version_callback port (status, h, w) =
      if status == 0
      then (
        asyn_success,
        record port {
          h_callback_notify = get_or h 0;
          callback_notify_valid = true;
          refresh_needed = false;
        },
        w,
      )
      else (asyn_error, port, w)

  unfoldable pub ads_add_symbols_changed_callback :
      NotifyConfig → AmsPortInfo → W → AsynStatus × AmsPortInfo × W
  unfolding store_version_callback
  ads_add_symbols_changed_callback c port w = store_version_callback port (
      add_notification client (addr port.ams_port) sym_version 0
        (record {
          cb_length = 1;
          n_max_delay = c.default_max_delay_ticks;
          n_cycle_time = c.default_sample_ticks;
        })
        port.ams_port w)

  unfoldable pub version_callback_deleted : AmsPortInfo → ℕ × W → AsynStatus × AmsPortInfo × W
  version_callback_deleted port (status, w) = (
    if status == 0 then asyn_success else asyn_error,
    record port { callback_notify_valid = false; h_callback_notify = no_handle },
    w,
  )

  unfoldable pub ads_del_symbols_changed_callback : AmsPortInfo → W → AsynStatus × AmsPortInfo × W
  unfolding version_callback_deleted
  ads_del_symbols_changed_callback port w =
      version_callback_deleted port
        (del_notification client (addr port.ams_port) port.h_callback_notify w)
