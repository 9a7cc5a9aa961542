-- ===== src/Reads.antt =====
-- adsApp/src/adsAsynPortDriver.cpp: readInt32, readFloat64 and readInt64, a read from EPICS, which
-- asks the PLC. `none` as the value says that `*value` was left as it was; the ADS client port is an
-- argument.
pub mod Failure
use twincat_ads.Base.Int.{ℤ}
use twincat_ads.Ads.{AdsApi, AdsParamInfo}
use twincat_ads.Asyn.{AsynApi, AlarmCodes, set_alarm_param}
use twincat_ads.EtherCat.{Master}
use twincat_ads.Transfer.{Reading}
use twincat_ads.Transfer.Decode.{Floats}
use twincat_ads.Transfer.Value.{Queue, ads_read_and_update_param}
use twincat_ads.Base.{
  ℕ, Bool, true, false, List, Option, none, some, AsynStatus, asyn_success, asyn_error, failed,
  ◌==◌, if◌then◌else◌, get_elem?, set,
}

-- What a read of a `V` leaves: the status, the value, and the state.
abbrev pub ReadOf : Type 0 → Type 0 → Type 0
ReadOf V W = AsynStatus × Option V × AdsParamInfo × Queue × Master × W

module _ {F W : Type 0} (fl : Floats F) (asyn : AsynApi F W) (alarms : AlarmCodes)
    (posix_at_epics : ℕ) (api : AdsApi W) (remote_net_id : List ℕ) (client : ℕ)
    (stop_threads : Bool) where
  open asyn use {base_read_int32, base_read_int64, base_read_float64}
  open alarms use {no_alarm, read_alarm, invalid_alarm}

  module _ {V : Type 0} (base : ℕ → W → AsynStatus × V × W) where
    -- `return setAlarmParam(...)`.
    unfoldable pub read_failed : AdsParamInfo → Queue → Master → W → ReadOf V W
    read_failed p q m w =
        let (st, p', w') = set_alarm_param asyn read_alarm invalid_alarm p w in
        (st, none, p', q, m, w')

    unfoldable pub read_succeeded : AdsParamInfo → Queue → Master → W → ReadOf V W
    read_succeeded p q m w =
        let (_, p', w') =
          if p.alarm_status == read_alarm
          then set_alarm_param asyn no_alarm no_alarm p w
          else (asyn_success, p, w) in
        let (st, v, w'') = base p.param_index w' in (st, some v, p', q, m, w'')

    unfoldable pub after_read :
        AsynStatus × AdsParamInfo × Reading × Queue × Master × W → ReadOf V W
    unfolding read_failed read_succeeded
    after_read (status, p, r, q, m, w) =
        if failed status then read_failed p q m w else read_succeeded p q m w

    unfoldable pub read_param : AdsParamInfo → Queue → Master → W → ReadOf V W
    unfolding after_read
    read_param p q m w = after_read (
        ads_read_and_update_param fl asyn alarms posix_at_epics api remote_net_id client
          stop_threads true p q m w)

    -- The parameter that the asynUser names; `none` is an access to an entry that is not in use.
    unfoldable pub read_unchecked :
        ℕ
        → List AdsParamInfo
        → Queue
        → Master
        → W
        → Option (AsynStatus × Option V × List AdsParamInfo × Queue × Master × W)
    unfolding read_param
    read_unchecked i params q m w = elim (get_elem? params i) [
      | none ↦ none
      | some p ↦
          let (st, v, p', q', m', w') = read_param p q m w in
          some (st, v, set params i p', q', m', w')
    ]

    -- With the check of the index.
    unfoldable pub read_bounded :
        ℕ
        → List AdsParamInfo
        → Queue
        → Master
        → W
        → AsynStatus × Option V × List AdsParamInfo × Queue × Master × W
    unfolding read_param
    read_bounded i params q m w = elim (get_elem? params i) [
      | none ↦ (asyn_error, none, params, q, m, w)
      | some p ↦
          let (st, v, p', q', m', w') = read_param p q m w in (st, v, set params i p', q', m', w')
    ]

  unfoldable pub read_int32 :
      ℕ
      → List AdsParamInfo
      → Queue
      → Master
      → W
      → Option (AsynStatus × Option ℤ × List AdsParamInfo × Queue × Master × W)
  unfolding read_unchecked
  read_int32 i params q m w = read_unchecked base_read_int32 i params q m w

  unfoldable pub read_float64 :
      ℕ
      → List AdsParamInfo
      → Queue
      → Master
      → W
      → Option (AsynStatus × Option F × List AdsParamInfo × Queue × Master × W)
  unfolding read_unchecked
  read_float64 i params q m w = read_unchecked base_read_float64 i params q m w

  unfoldable pub read_int64 :
      ℕ
      → List AdsParamInfo
      → Queue
      → Master
      → W
      → AsynStatus × Option ℤ × List AdsParamInfo × Queue × Master × W
  unfolding read_bounded
  read_int64 i params q m w = read_bounded base_read_int64 i params q m w
