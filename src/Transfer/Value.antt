-- ===== src/Transfer/Value.antt =====
-- adsApp/src/adsAsynPortDriver.cpp: refreshParamTime and adsUpdateParameter, the update of a
-- parameter's asyn value from the bytes of its PLC variable, and the last part of adsReadParam.
use mathlib.Core.Option.{get_or}
use twincat_ads.TimeStamp.{windows_to_epics_time_stamp}
use twincat_ads.Ads.{AdsParamInfo, AdsApi, AdsTimeSource, time_base_plc, time_base_epics}
use twincat_ads.Asyn.{AsynApi, AlarmCodes, set_alarm_param}
use twincat_ads.EtherCat.{Master}
use twincat_ads.Transfer.{Reading, ads_read_param}
use twincat_ads.Base.{
  ℕ, Bool, true, false, List, [], ◌∷◌, ◌++◌, Option, none, some, AsynStatus, asyn_success,
  asyn_error, failed, ◌==◌, if◌then◌else◌, take, drop, length, not, ◌||◌,
}
use twincat_ads.Transfer.Decode.{
  Floats, Posting, set_integer, set_integer64, set_double, queue_array, posting,
}

abbrev pub epics_time : AdsTimeSource → Bool
epics_time time_base_epics = true
epics_time time_base_plc = false

-- memcpy to the start of a buffer.
abbrev pub overlay : List ℕ → List ℕ → List ℕ
overlay new old = new ++ drop (length new) old

-- `Queue` is arrayParamsToCallCallbacksFor_, by parameter index.
abbrev pub Queue : Type 0
Queue = List ℕ

module _ {F W : Type 0} (fl : Floats F) (asyn : AsynApi F W) (alarms : AlarmCodes)
    (posix_at_epics : ℕ) where
  open asyn use {
    set_integer_param, set_integer64_param, set_double_param, update_time_stamp, set_time_stamp,
    get_time_stamp,
  }

  unfoldable pub time_stamped : AdsParamInfo → AsynStatus × W → AsynStatus × AdsParamInfo × W
  time_stamped p (status, w) =
      if failed status
      then (asyn_error, p, w)
      else let (st, ts) = get_time_stamp w in
        if failed st
        then (asyn_error, p, w)
        else (asyn_success, record p { epics_timestamp = ts }, w)

  unfoldable pub refresh_param_time : AdsParamInfo → W → AsynStatus × AdsParamInfo × W
  unfolding time_stamped
  refresh_param_time p w =
      let (rc, ts) =
        windows_to_epics_time_stamp posix_at_epics p.plc_time_stamp_raw (some p.plc_time_stamp) in
      let p' = record p { plc_time_stamp = get_or ts p.plc_time_stamp } in
      if not (rc == 0)
      then (asyn_error, p', w)
      else time_stamped p' (
          if epics_time p.time_base || p.plc_time_stamp_raw == 0
          then update_time_stamp w
          else set_time_stamp p'.plc_time_stamp w)

  unfoldable pub post : Posting F → ℕ → Queue → W → AsynStatus × Queue × W
  post (set_integer z) i q w = let (st, w') = set_integer_param i z w in (st, q, w')
  post (set_integer64 z) i q w = let (st, w') = set_integer64_param i z w in (st, q, w')
  post (set_double d) i q w = let (st, w') = set_double_param i d w in (st, q, w')
  post queue_array i q w = (asyn_success, q ++ i ∷ [], w)

  unfoldable pub posted :
      AdsParamInfo → AsynStatus × Queue × W → AsynStatus × AdsParamInfo × Queue × W
  posted p (status, q, w) =
      if failed status
      then (status, p, q, w)
      else let (st, p', w') = set_alarm_param asyn alarms.no_alarm alarms.no_alarm p w in
        (st, p', q, w')

  unfoldable pub update_value :
      List ℕ → Queue → AdsParamInfo → W → Option (Posting F) → AsynStatus × AdsParamInfo × Queue × W
  unfolding posted
  update_value bytes q p w none = (asyn_error, p, q, w)
  update_value bytes q p w (some x) = posted p (post x p.param_index q w)

  -- The copy into the array buffer takes `lastCallbackSize` bytes, not `dataSize`, which is not used.
  unfoldable pub copied : List ℕ → AdsParamInfo → AsynStatus × AdsParamInfo
  copied bytes p =
      if p.plc_data_is_array
      then elim p.array_data_buffer [
        | none ↦ (asyn_error, p)
        | some size ↦ (
          asyn_success,
          record p { array_data = overlay (take p.last_callback_size bytes) p.array_data },
        )
      ]
      else (asyn_success, p)

  unfoldable pub update_timed :
      List ℕ → Queue → AsynStatus × AdsParamInfo × W → AsynStatus × AdsParamInfo × Queue × W
  unfolding copied
  update_timed bytes q (status, p, w) =
      if failed status
      then (asyn_error, p, q, w)
      else let (st, p') = copied bytes p in
        if failed st
        then (asyn_error, p, q, w)
        else update_value bytes q p' w (posting fl p'.plc_data_type p'.asyn_type bytes)

  unfoldable pub ads_update_parameter :
      List ℕ → Queue → AdsParamInfo → W → AsynStatus × AdsParamInfo × Queue × W
  ads_update_parameter bytes q p w = update_timed bytes q (refresh_param_time p w)

  -- adsReadParam as a whole.
  module _ (api : AdsApi W) (remote_net_id : List ℕ) (client : ℕ) where
    unfoldable pub ads_read_and_update_param :
        Bool
        → Bool
        → AdsParamInfo
        → Queue
        → Master
        → W
        → AsynStatus × AdsParamInfo × Reading × Queue × Master × W
    ads_read_and_update_param stop_threads update_asyn_par p q m w =
        let (status, p', r, m', w') = ads_read_param api remote_net_id client stop_threads p m w in
        if failed status || not update_asyn_par
        then (status, p', r, q, m', w')
        else let (st, p'', q', w'') = ads_update_parameter r.bytes q p' w' in
          (st, p'', r, q', m', w'')
