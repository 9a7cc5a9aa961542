-- ===== src/Cyclic/Pass.antt =====
-- adsApp/src/adsAsynPortDriver.cpp, cyclicThread: what one turn of the first loop leaves of its port
-- and of the port's parameters.
use mathlib.Core.Option.{get_or}
use twincat_ads.Ads.{AdsApi, AdsVersion, AmsPortInfo}
use twincat_ads.Asyn.{AsynApi, AlarmCodes}
use twincat_ads.Notify.{
  addr, ads_add_symbols_changed_callback, store_version_callback, ads_del_symbols_changed_callback,
  version_callback_deleted,
}
use twincat_ads.Update.{UpdateEnv}
use twincat_ads.Update.Refresh.{
  Driver, refresh_params, refresh_connected, invalidate_params, refresh_ports, refresh_port,
  renew_version_callback,
}
use twincat_ads.Cyclic.{
  Settings, with_port, is_running, ads_read_state, ads_read_version, version_answered, refreshed,
  marked_lost, lost, version_read, gained, followed, check_port, noted,
}
use twincat_ads.Base.{
  ℕ, zero, suc, ◌≡◌, refl, ap, Bool, true, not, ◌&&◌, List, [], ◌∷◌, String, Option, some,
  AsynStatus, asyn_success, failed, get_elem?, set, get_elem?-set, if-intro, if◌then◌else◌, ◌==◌,
  arith,
}

-- What a reading of its state leaves of a port; a refresh may renew the rest.
pub record IsNoted (old : AmsPortInfo) (running : Bool) (state : ℕ) (q : AmsPortInfo) : Type 0 where
  pub same_port : q.ams_port ≡ old.ams_port
  pub now : q.connected ≡ running
  pub before : q.connected_old ≡ old.connected
  pub allowed : q.params_ok ≡ running
  pub state_now : q.ads_state ≡ state
  pub state_before : q.ads_state_old ≡ old.ads_state

-- The element at `i` is so.
abbrev At : {A : Type 0} → ℕ → (A → Type 0) → List A → Type 0
At {A} i P xs = (q : A) × (get_elem? xs i ≡ some q) × P q

set-At :
    {A : Type 0} (P : A → Type 0) (xs : List A) (i : ℕ) (u v : A)
    → get_elem? xs i ≡ some u
    → P v
    → At i P (set xs i v)
set-At P xs i u v e p = (v, get_elem?-set xs i v u e, p)

module _ (old : AmsPortInfo) (running : Bool) (state : ℕ) where
  abbrev Noted : AmsPortInfo → Type 0
  Noted = IsNoted old running state

  -- What a refresh, an invalidation and a reading of the version change does not matter.
  renewed :
      (p : AmsPortInfo) (h : ℕ) (valid due : Bool) (v : AdsVersion) (name : String)
      → Noted p
      → Noted (record p {
        h_callback_notify = h;
        callback_notify_valid = valid;
        refresh_needed = due;
        version = v;
        dev_name = name;
      })
  renewed p h valid due v name n = record {
    same_port = n.same_port;
    now = n.now;
    before = n.before;
    allowed = n.allowed;
    state_now = n.state_now;
    state_before = n.state_before;
  }

  module _ {W : Type 0} (api : AdsApi W) (remote_net_id : List ℕ) (client : ℕ)
      (env : UpdateEnv) where
    stored-Noted :
        (p : AmsPortInfo) (r : ℕ × Option ℕ × W)
        → Noted p
        → Noted (store_version_callback api remote_net_id client p r).1
    unfolding store_version_callback
    stored-Noted p r n =
        if-intro (λ (q : AsynStatus × AmsPortInfo × W). Noted q.1) (r.0 == 0)
          (λ _. renewed p _ _ _ _ _ n) (λ _. n)

    add_callback-Noted :
        (p : AmsPortInfo) (w : W)
        → Noted p
        → Noted (ads_add_symbols_changed_callback api remote_net_id client env.notify p w).1
    unfolding ads_add_symbols_changed_callback
    add_callback-Noted p w n =
        let answer =
          api.add_notification client (addr api remote_net_id client p.ams_port) api.sym_version 0
            (record {
              cb_length = 1;
              n_max_delay = env.notify.default_max_delay_ticks;
              n_cycle_time = env.notify.default_sample_ticks;
            })
            p.ams_port w in
        stored-Noted p answer n

    refresh_port-Noted :
        (ams_port : ℕ) (p : AmsPortInfo) (w : W)
        → Noted p
        → Noted (refresh_port api remote_net_id client env ams_port p w).0
    unfolding refresh_port renew_version_callback ads_del_symbols_changed_callback
        version_callback_deleted
    refresh_port-Noted ams_port p w n =
        if-intro (λ (r : AmsPortInfo × W). Noted r.0) (p.ams_port == ams_port && p.refresh_needed)
          (λ _.
            let ready =
              if-intro (λ (r : AsynStatus × AmsPortInfo × W). Noted r.1) p.callback_notify_valid
                {x = ads_del_symbols_changed_callback api remote_net_id client p w}
                {y = (asyn_success, p, w)} (λ _. renewed p _ _ _ _ _ n) (λ _. n) in
            add_callback-Noted _ _ ready)
          (λ _. n)

    refresh_ports-Noted :
        (ams_port i : ℕ) (ports : List AmsPortInfo) (w : W)
        → At i Noted ports
        → At i Noted (refresh_ports api remote_net_id client env ams_port ports w).0
    unfolding refresh_ports
    refresh_ports-Noted ams_port i [] w (q, e, n) = absurd (ground (arith, e))
    refresh_ports-Noted ams_port zero (x ∷ xs) w (q, e, n) =
        let same : x ≡ q = ap (λ o. get_or o x) e in
        (_, refl, refresh_port-Noted ams_port x w (rw same n))
    refresh_ports-Noted ams_port (suc i) (x ∷ xs) w at =
        let (x', w') = refresh_port api remote_net_id client env ams_port x w in
        refresh_ports-Noted ams_port i xs w' at

    with_port-Noted :
        (i : ℕ) (f : AmsPortInfo → AmsPortInfo) (d : Driver) (p : AmsPortInfo)
        → get_elem? d.ports i ≡ some p
        → Noted (f p)
        → At i Noted (with_port i f d).ports
    unfolding with_port
    with_port-Noted i f d p e n = rw (with_port, e) (set-At Noted d.ports i p (f p) e n)

    refreshed-Noted :
        (i : ℕ) (port : AmsPortInfo) (d : Driver) (w : W)
        → At i Noted d.ports
        → At i Noted (refreshed api remote_net_id client env port d w).0.ports
    unfolding refreshed refresh_params refresh_connected
    refreshed-Noted i port d w at =
        if-intro (λ (q : Driver × W). At i Noted q.0.ports) (port.connected && port.refresh_needed)
          (λ _.
            if-intro (λ (q : Driver × W). At i Noted q.0.ports) d.connected_ads
              (λ _. refresh_ports-Noted port.ams_port i d.ports _ at) (λ _. at))
          (λ _. at)

    module _ {F : Type 0} (asyn : AsynApi F W) (alarms : AlarmCodes) (settings : Settings) where
      lost-Noted :
          (i : ℕ) (port : AmsPortInfo) (d : Driver) (w : W)
          → At i Noted d.ports
          → At i Noted
              (lost api remote_net_id client env asyn alarms settings i port (d, w)).0.ports
      unfolding lost marked_lost invalidate_params
      lost-Noted i port d w (p, e, n) =
          if-intro (λ (q : Driver × W). At i Noted q.0.ports)
            (port.connected_old && not port.connected)
            (λ _.
              with_port-Noted i (λ q. record q { refresh_needed = true })
                (invalidate_params d port.ams_port).1 p e (renewed p _ _ _ _ _ n))
            (λ _. (p, e, n))

      version-Noted :
          (p : AmsPortInfo) (r : ℕ × String × AdsVersion × W)
          → Noted p
          → Noted (version_answered api remote_net_id client env p r).0
      unfolding version_answered
      version-Noted p r n =
          if-intro (λ (q : AmsPortInfo × W). Noted q.0) (not (r.0 == 0)) (λ _. n)
            (λ _. renewed p _ _ _ _ _ n)

      gained-Noted :
          (i : ℕ) (port : AmsPortInfo) (d : Driver) (w : W)
          → At i Noted d.ports
          → At i Noted
              (gained api remote_net_id client env asyn alarms settings i port (d, w)).0.ports
      unfolding gained version_read ads_read_version
      gained-Noted i port d w (p, e, n) =
          let answer = ads_read_version api remote_net_id client env p w in
          let read : At i Noted
              (version_read api remote_net_id client env asyn alarms settings i d w).0.ports =
            rw (version_read, e)
              (with_port-Noted i (λ _. answer.0) d p e
                (version-Noted p
                  (api.read_device_info client (addr api remote_net_id client p.ams_port) w) n)) in
          if-intro (λ (q : Driver × W). At i Noted q.0.ports)
            (not port.connected_old && port.connected) (λ _. read) (λ _. (p, e, n))

      turn-Noted :
          (i : ℕ) (port : AmsPortInfo) (d : Driver) (w : W)
          → At i Noted d.ports
          → At i Noted
              (gained api remote_net_id client env asyn alarms settings i port (
                lost api remote_net_id client env asyn alarms settings i port
                  (refreshed api remote_net_id client env port d w))).0.ports
      turn-Noted i port d w at =
          let (d', w') = refreshed api remote_net_id client env port d w in
          let (d'', w'') = lost api remote_net_id client env asyn alarms settings i port (d', w') in
          gained-Noted i port d'' w'' (lost-Noted i port d' w' (refreshed-Noted i port d w at))

module _ {F W : Type 0} (api : AdsApi W) (remote_net_id : List ℕ) (client : ℕ) (env : UpdateEnv)
    (asyn : AsynApi F W) (alarms : AlarmCodes) (settings : Settings) where
  -- After a turn of the first loop the port still stands at its place, with the connection and the
  -- state that the reading gave and those from before; parameters of the port may be used exactly
  -- while it is connected. A reading that failed leaves the state ADSSTATE_INVALID and no connection.
  pub check_port-IsNoted :
      (i : ℕ) (d : Driver) (w : W) (port : AmsPortInfo)
      → get_elem? d.ports i ≡ some port
      → let (status, state, _) = ads_read_state api remote_net_id client env port.ams_port w in
        let (found, d', _) = check_port api remote_net_id client env asyn alarms settings i d w in
        (found ≡ (not (failed status) && state == api.state_run))
        × ((q : AmsPortInfo) × (get_elem? d'.ports i ≡ some q)
            × IsNoted port found (if failed status then api.state_invalid else state) q)
  unfolding check_port followed noted
  check_port-IsNoted i d w port e =
      let (status, state, v) = ads_read_state api remote_net_id client env port.ams_port w in
      let now = noted api remote_net_id client env status state port in
      let running = is_running api remote_net_id client env status state in
      let known = if failed status then api.state_invalid else state in
      let first : At i (IsNoted port running known) (with_port i (λ _. now) d).ports =
        with_port-Noted port running known api remote_net_id client env i (λ _. now) d port e
          (record {
            same_port = refl;
            now = refl;
            before = refl;
            allowed = refl;
            state_now = refl;
            state_before = refl;
          }) in
      rw (check_port, e)
        (
          refl,
          turn-Noted port running known api remote_net_id client env asyn alarms settings i now
              (with_port i (λ _. now) d) v first,
        )
