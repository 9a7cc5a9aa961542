-- ===== src/Cyclic/Kept.antt =====
-- adsApp/src/adsAsynPortDriver.cpp, cyclicThread: the two loops over the ports, and the flag
-- connectedAds_.
use twincat_ads.Ads.{AdsApi, AmsPortInfo}
use twincat_ads.Asyn.{AsynApi, AlarmCodes}
use twincat_ads.Connection.{BaseConnect}
use twincat_ads.Transfer.Decode.{Floats}
use twincat_ads.Transfer.Value.{Queue}
use twincat_ads.Update.{UpdateEnv}
use twincat_ads.Update.Refresh.{Driver, refresh_params, refresh_connected, invalidate_params}
use twincat_ads.Cyclic.{
  Settings, is_state_source, with_port, with_param, ads_read_state, refreshed, marked_lost, lost,
  version_read, gained, followed, check_port, check_ports, state_posted, report_port, report_ports,
  noted,
}
use twincat_ads.Base.{
  ℕ, zero, suc, ◌≡◌, refl, ◌∙◌, inl, inr, true, not, ◌&&◌, List, [], ◌∷◌, get_elem?, Option-cases,
  if-intro, ◌==◌,
}

-- The two drivers agree on connectedAds_.
abbrev pub Kept : Driver → Driver → Type 0
Kept d e = e.connected_ads ≡ d.connected_ads

port-Kept : (i : ℕ) (f : AmsPortInfo → AmsPortInfo) (d : Driver) → Kept d (with_port i f d)
unfolding with_port
port-Kept i f d = elim (Option-cases (get_elem? d.ports i)) [
  | inl e ↦ rw (with_port, e) refl
  | inr (p, e) ↦ rw (with_port, e) refl
]

module _ {F W : Type 0} (api : AdsApi W) (remote_net_id : List ℕ) (client : ℕ) (env : UpdateEnv)
    (asyn : AsynApi F W) (alarms : AlarmCodes) (settings : Settings) where
  refresh-Kept :
      (port : AmsPortInfo) (d : Driver) (w : W)
      → Kept d (refreshed api remote_net_id client env port d w).0
  unfolding refreshed refresh_params refresh_connected
  refresh-Kept port d w =
      if-intro (λ (q : Driver × W). Kept d q.0) (port.connected && port.refresh_needed)
        (λ _. if-intro (λ (q : Driver × W). Kept d q.0) d.connected_ads (λ _. refl) (λ _. refl))
        (λ _. refl)

  lost-Kept :
      (i : ℕ) (port : AmsPortInfo) (d : Driver) (w : W)
      → Kept d (lost api remote_net_id client env asyn alarms settings i port (d, w)).0
  unfolding lost marked_lost invalidate_params
  lost-Kept i port d w =
      if-intro (λ (q : Driver × W). Kept d q.0) (port.connected_old && not port.connected)
        (λ _.
          port-Kept i (λ p. record p { refresh_needed = true })
            (invalidate_params d port.ams_port).1)
        (λ _. refl)

  gained-Kept :
      (i : ℕ) (port : AmsPortInfo) (d : Driver) (w : W)
      → Kept d (gained api remote_net_id client env asyn alarms settings i port (d, w)).0
  unfolding gained version_read
  gained-Kept i port d w =
      if-intro (λ (q : Driver × W). Kept d q.0) (not port.connected_old && port.connected)
        (λ _. elim (Option-cases (get_elem? d.ports i)) [
          | inl e ↦ rw (version_read, e) refl
          | inr (p, e) ↦ rw (version_read, e) (port-Kept i _ d)
        ])
        (λ _. refl)

  check_port-Kept :
      (i : ℕ) (d : Driver) (w : W)
      → Kept d (check_port api remote_net_id client env asyn alarms settings i d w).1
  unfolding check_port followed
  check_port-Kept i d w = elim (Option-cases (get_elem? d.ports i)) [
    | inl e ↦ rw (check_port, e) refl
    | inr (port, e) ↦
        let (status, state, v) = ads_read_state api remote_net_id client env port.ams_port w in
        let now = noted api remote_net_id client env status state port in
        let d1 = with_port i (λ _. now) d in
        let (d2, w2) = refreshed api remote_net_id client env now d1 v in
        let (d3, w3) = lost api remote_net_id client env asyn alarms settings i now (d2, w2) in
        rw (check_port, e)
          (gained-Kept i now d3 w3
            ∙ lost-Kept i now d2 w2
            ∙ refresh-Kept now d1 v
            ∙ port-Kept i (λ _. now) d)
  ]

  pub check_ports-Kept :
      (n i : ℕ) (d : Driver) (w : W)
      → Kept d (check_ports api remote_net_id client env asyn alarms settings n i d w).1
  unfolding check_ports
  check_ports-Kept zero i d w = refl
  check_ports-Kept (suc n) i d w =
      let (ok, d', w') = check_port api remote_net_id client env asyn alarms settings i d w in
      check_ports-Kept n (suc i) d' w' ∙ check_port-Kept i d w

  module _ (fl : Floats F) (posix_at_epics : ℕ) (base : BaseConnect W) where
    report_port-Kept :
        (port : AmsPortInfo) (d : Driver) (q : Queue) (w : W)
        → Kept d
            (report_port api remote_net_id client env asyn alarms settings fl posix_at_epics port d
              q w).0
    unfolding report_port state_posted with_param
    report_port-Kept port d q w = elim (Option-cases port.param_info) [
      | inl e ↦ rw (report_port, e) refl
      | inr (k, e) ↦ elim (Option-cases (get_elem? d.params k)) [
        | inl e' ↦ rw (report_port, e, e') refl
        | inr (p, e') ↦
            rw (report_port, e, e')
              (if-intro (λ (r : Driver × Queue × W). Kept d r.0)
                (not (port.ads_state_old == port.ads_state))
                (λ _.
                  if-intro (λ (r : Driver × Queue × W). Kept d r.0) (is_state_source p.data_source)
                    (λ _. refl) (λ _. refl))
                (λ _. refl))
      ]
    ]

    pub report_ports-Kept :
        (ports : List AmsPortInfo) (d : Driver) (q : Queue) (w : W)
        → Kept d
            (report_ports api remote_net_id client env asyn alarms settings fl posix_at_epics ports
              d q w).0
    unfolding report_ports
    report_ports-Kept [] d q w = refl
    report_ports-Kept (port ∷ ports) d q w =
        let (d', q', w') =
          report_port api remote_net_id client env asyn alarms settings fl posix_at_epics port d q
            w in
        report_ports-Kept ports d' q' w' ∙ report_port-Kept port d q w
