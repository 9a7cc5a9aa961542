-- ===== src/Cyclic/Lost.antt =====
-- adsApp/src/adsAsynPortDriver.cpp, cyclicThread, invalidateParams and setAlarmPort: the turn of the
-- first loop that finds the connection of its port gone.
use mathlib.Core.Option.{get_or}
use twincat_ads.Ads.{AdsApi, AdsParamInfo, AmsPortInfo}
use twincat_ads.Asyn.{AsynApi, AlarmCodes, set_alarm_param, set_alarm_port}
use twincat_ads.Asyn.Laws.{AlarmOnly, alarm_of, set_alarm_param-AlarmOnly}
use twincat_ads.Update.{UpdateEnv}
use twincat_ads.Update.Invalidate.{marked, tail_marked}
use twincat_ads.Update.Refresh.{Driver, concerns, invalidate_params}
use twincat_ads.Cyclic.{
  Settings, with_port, is_running, ads_read_state, refreshed, marked_lost, lost, gained, followed,
  check_port, noted,
}
use twincat_ads.Base.{
  ℕ, zero, suc, ◌≡◌, refl, ap, ◌∙◌, true, false, List, [], ◌∷◌, some, AsynStatus, asyn_success,
  failed, get_elem?, set, get_elem?-set, if-intro, if◌then◌else◌, ◌==◌, arith,
}

-- A parameter that is due for a refresh stays so while its alarm is set.
module _ {F W : Type 0} (asyn : AsynApi F W) where
  abbrev IsDue : AdsParamInfo → Type 0
  IsDue p = p.refresh_needed ≡ true

  abbrev DueAfter : AsynStatus × AdsParamInfo × W → Type 0
  DueAfter r = IsDue r.1

  IsDue-only : {p q : AdsParamInfo} → AlarmOnly p q → IsDue p → IsDue q
  IsDue-only (alarm_of a s) h = h

  param-IsDue :
      (alarm severity : ℕ) (p : AdsParamInfo) (w : W)
      → IsDue p
      → DueAfter (set_alarm_param asyn alarm severity p w)
  param-IsDue alarm severity p w h =
      IsDue-only (set_alarm_param-AlarmOnly asyn p alarm severity w) h

  -- The element at `i` is due.
  abbrev DueAt : ℕ → List AdsParamInfo → Type 0
  DueAt i ps = (q : AdsParamInfo) × (get_elem? ps i ≡ some q) × IsDue q

  port-IsDue :
      (ams_port alarm severity : ℕ) (ps : List AdsParamInfo) (w : W) (i : ℕ)
      → DueAt i ps
      → DueAt i (set_alarm_port asyn ams_port alarm severity ps w).1
  unfolding set_alarm_port
  port-IsDue ams_port alarm severity [] w i at = at
  port-IsDue ams_port alarm severity (p ∷ ps) w zero (q, e, h) =
      let same : p ≡ q = ap (λ o. get_or o p) e in
      let r : AsynStatus × AdsParamInfo × W =
        if p.ams_port == ams_port
        then set_alarm_param asyn alarm severity p w
        else (asyn_success, p, w) in
      let after : DueAfter r =
        if-intro DueAfter (p.ams_port == ams_port) (λ _. param-IsDue alarm severity p w (rw same h))
          (λ _. rw same h) in
      if-intro (λ (a : AsynStatus × List AdsParamInfo × W). DueAt 0 a.1) (failed r.0)
        (λ _. (r.1, refl, after)) (λ _. (r.1, refl, after))
  port-IsDue ams_port alarm severity (p ∷ ps) w (suc i) (q, e, h) =
      let r : AsynStatus × AdsParamInfo × W =
        if p.ams_port == ams_port
        then set_alarm_param asyn alarm severity p w
        else (asyn_success, p, w) in
      if-intro (λ (a : AsynStatus × List AdsParamInfo × W). DueAt (suc i) a.1) (failed r.0)
        (λ _. (q, e, h)) (λ _. port-IsDue ams_port alarm severity ps r.2 i (q, e, h))

refused : (port p : ℕ) → p ≡ port → (concerns port p ≡ true)
refused port p e = ground (arith, e)

module _ {F W : Type 0} (api : AdsApi W) (remote_net_id : List ℕ) (client : ℕ) (env : UpdateEnv)
    (asyn : AsynApi F W) (alarms : AlarmCodes) (settings : Settings) where
  -- What a turn that finds the connection of `port` gone leaves of the driver.
  pub record IsLost (i ams_port : ℕ) (d e : Driver) : Type 0 where
    pub port_due : (q : AmsPortInfo) × (get_elem? e.ports i ≡ some q) × (q.refresh_needed ≡ true)
    pub no_bulk : e.bulk_ok ≡ false
    pub params_due :
        (k : ℕ) (p : AdsParamInfo)
        → get_elem? d.params (suc k) ≡ some p
        → p.ams_port ≡ ams_port
        → DueAt asyn (suc k) e.params

  IsDue-marked :
      (port : ℕ) (ps : List AdsParamInfo) (k : ℕ) (p : AdsParamInfo)
      → get_elem? ps (suc k) ≡ some p
      → p.ams_port ≡ port
      → IsDue asyn (marked port p)
  IsDue-marked port ps k p e same = rw (refused port p.ams_port same) refl

  found_port :
      (i : ℕ) (f : AmsPortInfo → AmsPortInfo) (d : Driver) (p : AmsPortInfo)
      → get_elem? d.ports i ≡ some p
      → with_port i f d ≡ record d { ports = set d.ports i (f p) }
  unfolding with_port
  found_port i f d p e = rw (with_port, e) refl

  marked_lost-IsLost :
      (i : ℕ) (now p : AmsPortInfo) (d : Driver) (w : W)
      → get_elem? d.ports i ≡ some p
      → IsLost i now.ams_port d
          (marked_lost api remote_net_id client env asyn alarms settings i now d w).0
  unfolding marked_lost invalidate_params
  marked_lost-IsLost i now p d w e =
      let d' = (invalidate_params d now.ams_port).1 in
      rw (found_port i (λ q. record q { refresh_needed = true }) d' p e) (record {
        port_due = (
          record p { refresh_needed = true },
          get_elem?-set d.ports i (record p { refresh_needed = true }) p e,
          refl,
        );
        no_bulk = refl;
        params_due = λ k q at same.
            port-IsDue asyn now.ams_port settings.comm_alarm alarms.invalid_alarm d'.params w
              (suc k)
              (
                marked now.ams_port q,
                tail_marked now.ams_port d.params k q at,
                IsDue-marked now.ams_port d.params k q at same,
              );
      })

  followed_lost :
      (i : ℕ) (now : AmsPortInfo) (d : Driver) (w : W)
      → now.connected ≡ false
      → now.connected_old ≡ true
      → followed api remote_net_id client env asyn alarms settings i now d w
        ≡ marked_lost api remote_net_id client env asyn alarms settings i now
            (with_port i (λ _. now) d)
            w
  unfolding followed refreshed lost gained
  followed_lost i now d w off on = rw (off, on) refl

  -- A turn of the first loop whose port was connected, and whose reading does not find it running, marks
  -- the port and all its parameters but the driver's first for a refresh, and stops bulk reads.
  pub check_port-IsLost :
      (i : ℕ) (d : Driver) (w : W) (port : AmsPortInfo)
      → get_elem? d.ports i ≡ some port
      → port.connected ≡ true
      → (let (status, state, _) = ads_read_state api remote_net_id client env port.ams_port w in
          is_running api remote_net_id client env status state ≡ false)
      → IsLost i port.ams_port d
          (check_port api remote_net_id client env asyn alarms settings i d w).1
  unfolding check_port noted
  check_port-IsLost i d w port e on off =
      let (status, state, v) = ads_read_state api remote_net_id client env port.ams_port w in
      let now = noted api remote_net_id client env status state port in
      let d' = with_port i (λ _. now) d in
      let here : get_elem? d'.ports i ≡ some now =
        ap (λ c. get_elem? c.ports i) (found_port i (λ _. now) d port e)
        ∙ get_elem?-set d.ports i now port e in
      let kept : d'.params ≡ d.params = ap (λ c. c.params) (found_port i (λ _. now) d port e) in
      let done = marked_lost-IsLost i now now d' v here in
      rw (check_port, e, followed_lost i now d v off on)
        (record {
          port_due = done.port_due;
          no_bulk = done.no_bulk;
          params_due =
              λ k p at same. done.params_due k p (ap (λ ps. get_elem? ps (suc k)) kept ∙ at) same;
        })
