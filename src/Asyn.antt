-- ===== src/Asyn.antt =====
-- What the driver uses of asynPortDriver's parameter library, which is not part of the repository,
-- as functions over the state `W`, and adsApp/src/adsAsynPortDriver.cpp, setAlarmParam and
-- setAlarmPort. A parameter is named by its index; alarms and severities are EPICS' numbers.
pub mod Laws
use twincat_ads.Base.Int.{ℤ}
use twincat_ads.TimeStamp.{EpicsTimeStamp}
use twincat_ads.Ads.{AdsParamInfo}
use twincat_ads.Base.{
  ℕ, List, [], ◌∷◌, AsynStatus, asyn_success, asyn_error, failed, ◌==◌, if◌then◌else◌,
}

-- `F` is EPICS' double.
pub record AsynApi (F W : Type 0) : Type 0 where
  pub set_integer_param : ℕ → ℤ → W → AsynStatus × W
  pub set_integer64_param : ℕ → ℤ → W → AsynStatus × W
  pub set_double_param : ℕ → F → W → AsynStatus × W
  pub get_param_alarm_status : ℕ → W → AsynStatus × ℕ
  pub set_param_alarm_status : ℕ → ℕ → W → AsynStatus × W
  pub get_param_alarm_severity : ℕ → W → AsynStatus × ℕ
  pub set_param_alarm_severity : ℕ → ℕ → W → AsynStatus × W
  pub update_time_stamp : W → AsynStatus × W
  pub set_time_stamp : EpicsTimeStamp → W → AsynStatus × W
  pub get_time_stamp : W → AsynStatus × EpicsTimeStamp
  -- asynPortDriver::writeInt32 and writeInt64.
  pub base_write_int32 : ℕ → ℤ → W → AsynStatus × W
  pub base_write_int64 : ℕ → ℤ → W → AsynStatus × W
  -- asynPortDriver::writeFloat64, readInt32, readInt64 and readFloat64.
  pub base_write_float64 : ℕ → F → W → AsynStatus × W
  pub base_read_int32 : ℕ → W → AsynStatus × ℤ × W
  pub base_read_int64 : ℕ → W → AsynStatus × ℤ × W
  pub base_read_float64 : ℕ → W → AsynStatus × F × W
  -- callParamCallbacks, and doCallbacksXxxArray with the buffer, the number of elements and the index.
  pub call_param_callbacks : W → W
  pub do_callbacks_int8_array : List ℕ → ℕ → ℕ → W → AsynStatus × W
  pub do_callbacks_int16_array : List ℕ → ℕ → ℕ → W → AsynStatus × W
  pub do_callbacks_int32_array : List ℕ → ℕ → ℕ → W → AsynStatus × W
  pub do_callbacks_int64_array : List ℕ → ℕ → ℕ → W → AsynStatus × W
  pub do_callbacks_float32_array : List ℕ → ℕ → ℕ → W → AsynStatus × W
  pub do_callbacks_float64_array : List ℕ → ℕ → ℕ → W → AsynStatus × W

-- NO_ALARM, READ_ALARM, WRITE_ALARM and INVALID_ALARM of EPICS' alarm.h.
pub record AlarmCodes : Type 0 where
  pub no_alarm : ℕ
  pub read_alarm : ℕ
  pub write_alarm : ℕ
  pub invalid_alarm : ℕ

module _ {F W : Type 0} (asyn : AsynApi F W) where
  open asyn use {
    get_param_alarm_status, set_param_alarm_status, get_param_alarm_severity,
    set_param_alarm_severity,
  }

  unfoldable pub alarm_stored : ℕ → AdsParamInfo → AsynStatus × W → AsynStatus × AdsParamInfo × W
  alarm_stored alarm p (status, w) =
      if failed status
      then (asyn_error, p, w)
      else (asyn_success, record p { alarm_status = alarm }, w)

  -- The first half of setAlarmParam.
  unfoldable pub set_alarm_status : ℕ → AdsParamInfo → W → AsynStatus × AdsParamInfo × W
  unfolding alarm_stored
  set_alarm_status alarm p w =
      let (status, old) = get_param_alarm_status p.param_index w in
      if failed status
      then (asyn_error, p, w)
      else if old == alarm
      then (asyn_success, p, w)
      else alarm_stored alarm p (set_param_alarm_status p.param_index alarm w)

  unfoldable pub severity_stored : ℕ → AdsParamInfo → AsynStatus × W → AsynStatus × AdsParamInfo × W
  severity_stored severity p (status, w) =
      if failed status
      then (asyn_error, p, w)
      else (asyn_success, record p { alarm_severity = severity }, w)

  -- The second half.
  unfoldable pub set_alarm_severity :
      ℕ → AsynStatus × AdsParamInfo × W → AsynStatus × AdsParamInfo × W
  unfolding severity_stored
  set_alarm_severity severity (done, p, w) =
      if failed done
      then (asyn_error, p, w)
      else let (status, old) = get_param_alarm_severity p.param_index w in
        if failed status
        then (asyn_error, p, w)
        else if old == severity
        then (asyn_success, p, w)
        else severity_stored severity p (set_param_alarm_severity p.param_index severity w)

  unfoldable pub set_alarm_param : ℕ → ℕ → AdsParamInfo → W → AsynStatus × AdsParamInfo × W
  unfolding set_alarm_status set_alarm_severity
  set_alarm_param alarm severity p w = set_alarm_severity severity (set_alarm_status alarm p w)

  -- The parameters from the first failure on stay as they were.
  unfoldable pub set_alarm_port :
      ℕ → ℕ → ℕ → List AdsParamInfo → W → AsynStatus × List AdsParamInfo × W
  set_alarm_port ams_port alarm severity [] w = (asyn_success, [], w)
  set_alarm_port ams_port alarm severity (p ∷ ps) w =
      let (status, p', w') =
        if p.ams_port == ams_port
        then set_alarm_param alarm severity p w
        else (asyn_success, p, w) in
      let (rest, ps', w'') = set_alarm_port ams_port alarm severity ps w' in
      if failed status then (asyn_error, p' ∷ ps, w') else (rest, p' ∷ ps', w'')
