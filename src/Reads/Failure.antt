-- ===== src/Reads/Failure.antt =====
-- adsApp/src/adsAsynPortDriver.cpp, readInt32, readFloat64 and readInt64: reads that fail.
use twincat_ads.Ads.{AdsApi, AdsParamInfo}
use twincat_ads.Asyn.{AsynApi, AlarmCodes}
use twincat_ads.EtherCat.{Master}
use twincat_ads.Transfer.Decode.{Floats}
use twincat_ads.Transfer.Value.{Queue, ads_read_and_update_param}
use twincat_ads.Transfer.Write.Alarm.{IsAlarmStore, IsMirrored, set_alarm_param-IsMirrored}
use twincat_ads.Reads.{read_failed, after_read, read_param}
use twincat_ads.Base.{ℕ, ◌≡◌, refl, Bool, true, List, none, AsynStatus, asyn_success, failed}

module _ {F W V : Type 0} (fl : Floats F) (asyn : AsynApi F W) (alarms : AlarmCodes)
    (posix_at_epics : ℕ) (api : AdsApi W) (remote_net_id : List ℕ) (client : ℕ)
    (stop_threads : Bool) (base : ℕ → W → AsynStatus × V × W) where
  -- Where asyn stores alarms as it promises, a read from EPICS that adsReadParam fails, and whose
  -- parameter's alarm agrees with asyn's, reports success and leaves the value as it was; the
  -- parameter's alarm is READ_ALARM with severity INVALID_ALARM, in the driver and in asyn.
  pub read_param_failure :
      IsAlarmStore asyn
      → (p : AdsParamInfo) (q : Queue) (m : Master) (w : W)
      → (let (status, p', _, _, _, w') =
            ads_read_and_update_param fl asyn alarms posix_at_epics api remote_net_id client
              stop_threads true p q m w in
          (failed status ≡ true) × IsMirrored asyn p' w')
      → let (status, value, p', _, _, w') =
          read_param fl asyn alarms posix_at_epics api remote_net_id client stop_threads base p q m
            w in
        (status ≡ asyn_success)
        × (value ≡ none)
        × IsMirrored asyn p' w'
        × (p'.alarm_status ≡ alarms.read_alarm)
        × (p'.alarm_severity ≡ alarms.invalid_alarm)
  unfolding read_param after_read read_failed
  read_param_failure laws p q m w (bad, mirrored) =
      let (status, p', r, q', m', w') =
        ads_read_and_update_param fl asyn alarms posix_at_epics api remote_net_id client
          stop_threads true p q m w in
      let (ok, agrees, alarm, severity) =
        set_alarm_param-IsMirrored asyn laws alarms.read_alarm alarms.invalid_alarm p' w'
          mirrored in
      rw bad (ok, refl, agrees, alarm, severity)
