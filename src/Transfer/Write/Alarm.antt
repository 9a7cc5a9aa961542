-- ===== src/Transfer/Write/Alarm.antt =====
-- adsApp/src/adsAsynPortDriver.cpp, setAlarmParam and writeInt32: the alarm state of a parameter,
-- which the driver keeps beside the one of asyn's parameter library, and writes that a guard
-- refuses.
use twincat_ads.Base.Int.{ℤ, pos}
use twincat_ads.Ads.{AdsParamInfo, AdsApi}
use twincat_ads.Asyn.{
  AsynApi, AlarmCodes, set_alarm_param, set_alarm_status, set_alarm_severity, alarm_stored,
  severity_stored,
}
use twincat_ads.EtherCat.{
  EthercatDeviceState, state_code, Master, is_ethercat_state_param, is_valid_ethercat_state_request,
  adsigrp_ecat_slave_state,
}
use twincat_ads.EtherCat.Resolve.{is_valid_ethercat_state_request_iff}
use twincat_ads.Transfer.Decode.{Floats}
use twincat_ads.Transfer.Write.{write_int32_param, return_alarm}
use twincat_ads.Base.{
  ℕ, ◌≡◌, ◌≢◌, refl, ◌∙◌, inl, inr, Bool, true, List, asyn_success, ◌==◌, ◌&&◌, ==_iff, Bool-cases,
  arith,
}

and_parts : (a b : Bool) → (a && b) ≡ true → (a ≡ true) × (b ≡ true)
and_parts a b h = ground arith

-- What asyn's parameter library promises for alarms: a parameter's status and severity are stored
-- apart from each other and read back as they were last set.
pub record IsAlarmStore {F W : Type 0} (asyn : AsynApi F W) : Type 0 where
  pub status-set :
      (i a : ℕ) (w : W)
      → let r = asyn.set_param_alarm_status i a w in
        (r.0 ≡ asyn_success)
        × (asyn.get_param_alarm_status i r.1 ≡ (asyn_success, a))
        × (asyn.get_param_alarm_severity i r.1 ≡ asyn.get_param_alarm_severity i w)
  pub severity-set :
      (i a : ℕ) (w : W)
      → let r = asyn.set_param_alarm_severity i a w in
        (r.0 ≡ asyn_success)
        × (asyn.get_param_alarm_severity i r.1 ≡ (asyn_success, a))
        × (asyn.get_param_alarm_status i r.1 ≡ asyn.get_param_alarm_status i w)

module _ {F W : Type 0} (asyn : AsynApi F W) where
  -- The driver's copy agrees with asyn.
  abbrev pub IsMirrored : AdsParamInfo → W → Type 0
  IsMirrored p w =
      (asyn.get_param_alarm_status p.param_index w ≡ (asyn_success, p.alarm_status))
      × (asyn.get_param_alarm_severity p.param_index w ≡ (asyn_success, p.alarm_severity))

  status_lem :
      IsAlarmStore asyn
      → (alarm : ℕ) (p : AdsParamInfo) (w : W) → IsMirrored p w
      → let r = set_alarm_status asyn alarm p w in
        (r.0 ≡ asyn_success) × IsMirrored r.1 r.2 × (r.1.alarm_status ≡ alarm)
  unfolding set_alarm_status alarm_stored
  status_lem laws alarm p w m =
      let l = laws.status-set p.param_index alarm w in
      elim (Bool-cases (p.alarm_status == alarm)) [
        | inl e ↦ rw (m.0, e) (refl, m, (==_iff p.alarm_status alarm).0 e)
        | inr e ↦ rw (m.0, e, l.0) (refl, (l.1, l.2 ∙ m.1), refl)
      ]

  severity_lem :
      IsAlarmStore asyn
      → (severity : ℕ) (p : AdsParamInfo) (w : W) → IsMirrored p w
      → let r = set_alarm_severity asyn severity (asyn_success, p, w) in
        (r.0 ≡ asyn_success)
        × IsMirrored r.1 r.2
        × (r.1.alarm_severity ≡ severity)
        × (r.1.alarm_status ≡ p.alarm_status)
  unfolding set_alarm_severity severity_stored
  severity_lem laws severity p w m =
      let l = laws.severity-set p.param_index severity w in
      elim (Bool-cases (p.alarm_severity == severity)) [
        | inl e ↦ rw (m.1, e) (refl, m, (==_iff p.alarm_severity severity).0 e, refl)
        | inr e ↦ rw (m.1, e, l.0) (refl, (l.2 ∙ m.0, l.1), refl, refl)
      ]

  -- Where asyn stores alarms as it promises and the driver's copy agrees with it, setting a
  -- parameter's alarm succeeds, and afterwards the copy still agrees and both hold the alarm status and
  -- the severity that were asked for.
  pub set_alarm_param-IsMirrored :
      IsAlarmStore asyn
      → (alarm severity : ℕ) (p : AdsParamInfo) (w : W) → IsMirrored p w
      → let r = set_alarm_param asyn alarm severity p w in
        (r.0 ≡ asyn_success)
        × IsMirrored r.1 r.2
        × (r.1.alarm_status ≡ alarm)
        × (r.1.alarm_severity ≡ severity)
  unfolding set_alarm_param
  set_alarm_param-IsMirrored laws alarm severity p w m =
      let (st, q, w1) = set_alarm_status asyn alarm p w in
      let a = status_lem laws alarm p w m in
      let b = severity_lem laws severity q w1 a.1 in rw a.0 (b.0, b.1, b.3 ∙ a.2, b.2)

module _ {F W : Type 0} (asyn : AsynApi F W) (alarms : AlarmCodes) (api : AdsApi W)
    (remote_net_id : List ℕ) (client : ℕ) (fl : Floats F) where
  -- A number that is not the code of a device state, written to an EtherCAT state parameter, asks
  -- nothing of the PLC: the parameter's write alarm is set, and the result is the status of that.
  pub write_int32-guards_state :
      (stop_threads : Bool) (value : ℤ) (p : AdsParamInfo) (m : Master) (w : W)
      → is_ethercat_state_param p ≡ true
      → ((s : EthercatDeviceState) → value ≢ pos (state_code s))
      → write_int32_param asyn alarms api remote_net_id client fl stop_threads value p m w
        ≡ return_alarm asyn alarms api remote_net_id client alarms.write_alarm alarms.invalid_alarm
            p m w
  unfolding write_int32_param
  write_int32-guards_state stop_threads value p m w e n =
      let parts = and_parts p.is_adr_command (p.plc_abs_adr_group == adsigrp_ecat_slave_state) e in
      elim (Bool-cases
        (is_valid_ethercat_state_request p.plc_abs_adr_group p.plc_size p.plc_data_type value)) [
          | inl ok ↦
              elim ((is_valid_ethercat_state_request_iff p.plc_abs_adr_group p.plc_size
                  p.plc_data_type value).0
                ok) [
                  | inl g ↦
                      absurd (g ((==_iff p.plc_abs_adr_group adsigrp_ecat_slave_state).0 (parts.1)))
                  | inr (_, _, v) ↦ absurd (n v.0 v.1)
                ]
          | inr v ↦ rw (v, parts.0) refl
        ]
