-- ===== src/Asyn/Laws.antt =====
-- adsApp/src/adsAsynPortDriver.cpp, setAlarmParam: what it leaves alone.
use twincat_ads.Ads.{AdsParamInfo}
use twincat_ads.Asyn.{
  AsynApi, alarm_stored, set_alarm_status, severity_stored, set_alarm_severity, set_alarm_param,
}
use twincat_ads.Base.{ℕ, AsynStatus, failed, if-intro, ◌==◌}

-- `q` is `p` up to the alarm.
pub data AlarmOnly (p : AdsParamInfo) : AdsParamInfo → Type 0 where
  alarm_of :
      (status severity : ℕ)
      → AlarmOnly p (record p { alarm_status = status; alarm_severity = severity })

module _ {F W : Type 0} (asyn : AsynApi F W) (p : AdsParamInfo) where
  abbrev After : AsynStatus × AdsParamInfo × W → Type 0
  After r = AlarmOnly p r.1

  status_stored-After :
      (alarm : ℕ) (q : AdsParamInfo) (r : AsynStatus × W)
      → AlarmOnly p q
      → After (alarm_stored asyn alarm q r)
  unfolding alarm_stored
  status_stored-After alarm q r (alarm_of a s) =
      if-intro After (failed r.0) (λ _. alarm_of a s) (λ _. alarm_of alarm s)

  status-After :
      (alarm : ℕ) (q : AdsParamInfo) (w : W)
      → AlarmOnly p q
      → After (set_alarm_status asyn alarm q w)
  unfolding set_alarm_status
  status-After alarm q w h =
      let (status, old) = asyn.get_param_alarm_status q.param_index w in
      if-intro After (failed status) (λ _. h)
        (λ _.
          if-intro After (old == alarm) (λ _. h)
            (λ _.
              status_stored-After alarm q (asyn.set_param_alarm_status q.param_index alarm w) h))

  severity_stored-After :
      (severity : ℕ) (q : AdsParamInfo) (r : AsynStatus × W)
      → AlarmOnly p q
      → After (severity_stored asyn severity q r)
  unfolding severity_stored
  severity_stored-After severity q r (alarm_of a s) =
      if-intro After (failed r.0) (λ _. alarm_of a s) (λ _. alarm_of a severity)

  severity-After :
      (severity : ℕ) (done : AsynStatus) (q : AdsParamInfo) (w : W)
      → AlarmOnly p q
      → After (set_alarm_severity asyn severity (done, q, w))
  unfolding set_alarm_severity
  severity-After severity done q w h =
      let (status, old) = asyn.get_param_alarm_severity q.param_index w in
      let answer = asyn.set_param_alarm_severity q.param_index severity w in
      if-intro After (failed done) (λ _. h)
        (λ _.
          if-intro After (failed status) (λ _. h)
            (λ _.
              if-intro After (old == severity) (λ _. h)
                (λ _. severity_stored-After severity q answer h)))

  -- An alarm changes nothing else of its parameter.
  pub set_alarm_param-AlarmOnly :
      (alarm severity : ℕ) (w : W) → After (set_alarm_param asyn alarm severity p w)
  unfolding set_alarm_param
  set_alarm_param-AlarmOnly alarm severity w =
      let (status, q, w') = set_alarm_status asyn alarm p w in
      severity-After severity status q w'
        (status-After alarm p w (alarm_of p.alarm_status p.alarm_severity))
