-- ===== src/Construct/Connected.antt =====
-- adsApp/src/adsAsynPortDriver.cpp, the loop of the constructor: what is so when it has ended.
use twincat_ads.Ads.{AdsApi}
use twincat_ads.Connection.{
  Routes, BaseConnect, connect, ads_connect, ads_connected, ethercat_routed, base_connected,
  ads_add_ethercat_route, ethercat_route_answered,
}
use twincat_ads.Construct.{
  ConnectTurn, again, established, run_found, read_answered, connect_answered, connect_turn,
  connect_until,
}
use twincat_ads.Cyclic.{ads_read_state}
use twincat_ads.EtherCat.{
  Master, resolve_ethercat_master, after_device_count, after_device_ids, after_net_id, use_derived,
  use_none, use_discovered, ethercat_master_is_available,
}
use twincat_ads.Update.{UpdateEnv}
use twincat_ads.Base.{
  ℕ, zero, suc, true, false, String, List, Option, none, some, AsynStatus, asyn_success, asyn_error,
  asyn_timeout, failed, ◌==◌, if◌then◌else◌, ◌≡◌, ◌∙◌, if-intro, arith,
}

success : (status : AsynStatus) → failed status ≡ false → status ≡ asyn_success
success status ok = ground (arith, ok)

module _ {W : Type 0} (api : AdsApi W) (base : BaseConnect W) (update : UpdateEnv)
    (remote_net_id : List ℕ) (ipaddr : String) (client timeout ams_port : ℕ) where
  -- The driver has connected, knows of its EtherCAT master, and has read the state of a running PLC.
  pub record IsConnected (m : Master) (r : Routes) : Type 0 where
    pub up : r.connected_ads ≡ true
    pub resolved : m.resolved ≡ true
    pub last_seen : W
    pub answered :
        (ads_read_state api remote_net_id client update ams_port last_seen).0 ≡ asyn_success
    pub runs : (ads_read_state api remote_net_id client update ams_port last_seen).1 ≡ api.state_run

  resolve-resolved :
      (m : Master) (w : W)
      → (resolve_ethercat_master api remote_net_id client m w).1.resolved ≡ true
  unfolding resolve_ethercat_master after_device_count after_device_ids after_net_id use_derived
      use_none use_discovered
  resolve-resolved m w = ground arith

  route-keeps :
      (m : Master) (r : Routes) (w : W)
      → (ads_add_ethercat_route api remote_net_id ipaddr m r w).1.connected_ads ≡ r.connected_ads
  unfolding ads_add_ethercat_route ethercat_route_answered
  route-keeps m r w = ground arith

  base_connected-up :
      (r : Routes) (status : AsynStatus) (w : W)
      → failed (base_connected api remote_net_id ipaddr base r (status, w)).0 ≡ false
      → (base_connected api remote_net_id ipaddr base r (status, w)).1.connected_ads ≡ true
  unfolding base_connected
  base_connected-up r status w ok = ground (arith, ok)

  routed-up :
      (status : AsynStatus) (r : Routes) (w : W)
      → failed (ethercat_routed api remote_net_id ipaddr base (status, r, w)).0 ≡ false
      → (ethercat_routed api remote_net_id ipaddr base (status, r, w)).1.connected_ads ≡ true
  unfolding ethercat_routed
  routed-up asyn_success r w ok =
      let (status, w') = base.base_connect w in base_connected-up r status w' ok
  routed-up asyn_error r w ok = absurd (ground (arith, ok))
  routed-up asyn_timeout r w ok = absurd (ground (arith, ok))

  ads_connected-up :
      (m : Master) (status : AsynStatus) (r : Routes) (w : W)
      → failed (ads_connected api remote_net_id ipaddr base m (status, r, w)).0 ≡ false
      → (ads_connected api remote_net_id ipaddr base m (status, r, w)).1.connected_ads ≡ true
  unfolding ads_connected
  ads_connected-up m asyn_success r w ok =
      let x =
        if ethercat_master_is_available m
        then ads_add_ethercat_route api remote_net_id ipaddr m r w
        else (asyn_success, r, w) in
      routed-up x.0 x.1 x.2 ok
  ads_connected-up m asyn_error r w ok = absurd (ground (arith, ok))
  ads_connected-up m asyn_timeout r w ok = absurd (ground (arith, ok))

  -- What a turn of the loop has brought about, if it is the last.
  abbrev Last : ConnectTurn W → Type 0
  Last (again m r w) = Unit
  Last (established m r w) = IsConnected m r

  run_found-Last :
      (m : Master) (r : Routes) (last_seen w : W)
      → r.connected_ads ≡ true
      → (ads_read_state api remote_net_id client update ams_port last_seen).0 ≡ asyn_success
      → (ads_read_state api remote_net_id client update ams_port last_seen).1 ≡ api.state_run
      → Last (run_found api base update remote_net_id ipaddr client timeout ams_port m r w)
  unfolding run_found
  run_found-Last m r last_seen w up answered runs =
      let (_, found, asked) = resolve_ethercat_master api remote_net_id client m w in
      let (m', w') = if m.resolved then (m, w) else (found, asked) in
      record {
        up =
            if-intro (λ (x : AsynStatus × Routes × W). x.1.connected_ads ≡ true)
              (ethercat_master_is_available m') (λ _. route-keeps m' r w' ∙ up) (λ _. up);
        resolved =
            if-intro (λ (x : Master × W). x.0.resolved ≡ true) m.resolved (λ h. h)
              (λ _. resolve-resolved m w);
        last_seen = last_seen;
        answered = answered;
        runs = runs;
      }

  read_answered-Last :
      (m : Master) (r : Routes) (last_seen : W)
      → r.connected_ads ≡ true
      → Last (
          read_answered api base update remote_net_id ipaddr client timeout ams_port m r
            (ads_read_state api remote_net_id client update ams_port last_seen))
  unfolding read_answered
  read_answered-Last m r last_seen up =
      let (status, state, w) = ads_read_state api remote_net_id client update ams_port last_seen in
      if-intro Last (failed status) (λ _. tt)
        (λ ok.
          if-intro Last (state == api.state_run)
            (λ runs. run_found-Last m r last_seen w up (success status ok) (ground (arith, runs)))
            (λ _. tt))

  turn-Last :
      (m : Master) (r : Routes) (w : W)
      → Last (connect_turn api base update remote_net_id ipaddr client timeout ams_port m r w)
  unfolding connect_turn connect_answered connect
  turn-Last m r w =
      let x = ads_connect api remote_net_id ipaddr client timeout m r w in
      let (status, r', w') = ads_connected api remote_net_id ipaddr base m x in
      if-intro Last (failed status) (λ _. tt)
        (λ ok. read_answered-Last m r' w' (ads_connected-up m x.0 x.1 x.2 ok))

  abbrev pub Until : Option (Master × Routes × W) → Type 0
  Until none = Unit
  Until (some (m, r, w)) = IsConnected m r

  turned-Until :
      (n : ℕ) (t : ConnectTurn W)
      → ((m : Master) (r : Routes) (w : W)
          → Until
              (connect_until api base update remote_net_id ipaddr client timeout ams_port n m r w))
      → Last t
      → Until (elim t [
        | again m r w ↦
            connect_until api base update remote_net_id ipaddr client timeout ams_port n m r w
        | established m r w ↦ some (m, r, w)
      ])
  turned-Until n (again m r w) rest last = rest m r w
  turned-Until n (established m r w) rest last = last

  pub connect_until-Until :
      (n : ℕ) (m : Master) (r : Routes) (w : W)
      → Until (connect_until api base update remote_net_id ipaddr client timeout ams_port n m r w)
  unfolding connect_until
  connect_until-Until zero m r w = tt
  connect_until-Until (suc n) m r w =
      turned-Until n
        (connect_turn api base update remote_net_id ipaddr client timeout ams_port m r w)
        (connect_until-Until n) (turn-Last m r w)
