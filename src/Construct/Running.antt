-- ===== src/Construct/Running.antt =====
-- adsApp/src/adsAsynPortDriver.cpp, the constructor of the driver: that its loop ends when the PLC runs.
use twincat_ads.Ads.{AmsAddr, AdsApi}
use twincat_ads.Connection.{
  Routes, BaseConnect, connect, ads_connect, ads_add_route, route_answered, route_tried,
  timeout_updated, timeout_set, ads_connected, ethercat_routed, base_connected,
  ads_add_ethercat_route, ethercat_route_answered, same_net_id,
}
use twincat_ads.Construct.{
  ConnectTurn, established, run_found, read_answered, connect_answered, connect_turn, connect_until,
}
use twincat_ads.Cyclic.{ads_read_state, state_answered}
use twincat_ads.EtherCat.{Master, ethercat_master_is_available}
use twincat_ads.Notify.{addr}
use twincat_ads.Update.{UpdateEnv}
use twincat_ads.Base.{
  ℕ, suc, true, false, String, List, some, AsynStatus, asyn_success, failed, ◌==◌, if◌then◌else◌,
  not, ◌||◌, ◌≡◌, refl, if-intro, arith,
}

-- While `Up` holds, AdsLib and asyn accept what connect asks for, the PLC answers that it runs, and `Up`
-- holds afterwards.
pub record IsUp {W : Type 0} (api : AdsApi W) (base : BaseConnect W) (Up : W → Type 0)
    : Type 0 where
  pub added :
      (n : List ℕ) (ip : String) (w : W)
      → Up w
      → ((api.add_route n ip w).0 ≡ 0) × Up (api.add_route n ip w).1
  pub got : (c : ℕ) (w : W) → Up w → ((api.get_timeout c w).0 ≡ 0) × Up (api.get_timeout c w).1
  pub set_timeout :
      (c t : ℕ) (w : W) → Up w → ((api.set_timeout c t w).0 ≡ 0) × Up (api.set_timeout c t w).1
  pub connected :
      (w : W) → Up w → (failed (base.base_connect w).0 ≡ false) × Up (base.base_connect w).1
  pub runs :
      (c : ℕ) (to : AmsAddr) (w : W)
      → Up w
      → ((api.read_state c to w).0 ≡ 0) × ((api.read_state c to w).1 ≡ api.state_run)

module _ {W : Type 0} (api : AdsApi W) (base : BaseConnect W) (Up : W → Type 0)
    (up : IsUp api base Up) (update : UpdateEnv) (remote_net_id : List ℕ) (ipaddr : String)
    (client timeout ams_port : ℕ) where
  -- A step that succeeded.
  abbrev Goes : AsynStatus × Routes × W → Type 0
  Goes (status, r, w) = (failed status ≡ false) × Up w

  routed-Up :
      (m : Master) (r : Routes) (w : W)
      → Up w
      → Up
          (if r.route_added
            then (r, w)
            else route_tried api remote_net_id ipaddr m
                (ads_add_route api remote_net_id ipaddr r w)).1
  unfolding ads_add_route route_answered route_tried
  routed-Up m r w h =
      let (ok, h') = up.added remote_net_id ipaddr w h in
      if-intro (λ (x : Routes × W). Up x.1) r.route_added (λ _. h) (λ _. rw ok h')

  connect-Goes :
      (m : Master) (r : Routes) (w : W)
      → Up w
      → Goes (ads_connect api remote_net_id ipaddr client timeout m r w)
  unfolding ads_connect timeout_updated timeout_set
  connect-Goes m r w h =
      let w' =
        (if r.route_added
          then (r, w)
          else route_tried api remote_net_id ipaddr m
              (ads_add_route api remote_net_id ipaddr r w)).1 in
      let (got, h') = up.got client w' (routed-Up m r w h) in
      let (set, h'') = up.set_timeout client timeout (api.get_timeout client w').1 h' in
      rw (got, set) (refl, h'')

  ethercat-Goes :
      (m : Master) (r : Routes) (w : W)
      → Up w
      → Goes (ads_add_ethercat_route api remote_net_id ipaddr m r w)
  unfolding ads_add_ethercat_route ethercat_route_answered
  ethercat-Goes m r w h =
      let (ok, h') = up.added m.net_id ipaddr w h in
      if-intro Goes
        (not (ethercat_master_is_available m)
          || same_net_id m.net_id remote_net_id
          || r.ethercat_route_added)
        (λ _. (refl, h))
        (λ _.
          if-intro Goes ((api.add_route m.net_id ipaddr w).0 == api.device_exists) (λ _. (refl, h'))
            (λ _. rw ok (refl, h')))

  base-Goes :
      (status : AsynStatus) (r : Routes) (w : W)
      → Goes (status, r, w)
      → Goes (ethercat_routed api remote_net_id ipaddr base (status, r, w))
  unfolding ethercat_routed base_connected
  base-Goes status r w (ok, h) = let (done, h') = up.connected w h in rw (ok, done) (refl, h')

  connected-Goes :
      (m : Master) (status : AsynStatus) (r : Routes) (w : W)
      → Goes (status, r, w)
      → Goes (ads_connected api remote_net_id ipaddr base m (status, r, w))
  unfolding ads_connected
  connected-Goes m status r w (ok, h) =
      let x =
        if ethercat_master_is_available m
        then ads_add_ethercat_route api remote_net_id ipaddr m r w
        else (asyn_success, r, w) in
      let going : Goes x =
        if-intro Goes (ethercat_master_is_available m) (λ _. ethercat-Goes m r w h)
          (λ _. (refl, h)) in
      rw ok (base-Goes x.0 x.1 x.2 going)

  abbrev Ended : ConnectTurn W → Type 0
  Ended t = (m : Master) × (r : Routes) × (w : W) × (t ≡ established m r w)

  run_found-Ended :
      (m : Master) (r : Routes) (w : W)
      → Ended (run_found api base update remote_net_id ipaddr client timeout ams_port m r w)
  unfolding run_found
  run_found-Ended m r w = (_, _, _, refl)

  answered-Ended :
      (m : Master) (status : AsynStatus) (r : Routes) (w : W)
      → Goes (status, r, w)
      → Ended (
          connect_answered api base update remote_net_id ipaddr client timeout ams_port m
            (status, r, w))
  unfolding connect_answered read_answered ads_read_state state_answered
  answered-Ended m status r w (ok, h) =
      let (fine, runs) = up.runs client (addr api remote_net_id client ams_port) w h in
      let state : ((api.read_state client (addr api remote_net_id client ams_port) w).1
            == api.state_run)
          ≡ true =
        ground (arith, runs) in
      rw (ok, fine, state)
        (run_found-Ended m r (api.read_state client (addr api remote_net_id client ams_port) w).2)

  turn-Ended :
      (m : Master) (r : Routes) (w : W)
      → Up w
      → Ended (connect_turn api base update remote_net_id ipaddr client timeout ams_port m r w)
  unfolding connect_turn connect
  turn-Ended m r w h =
      let x = ads_connect api remote_net_id ipaddr client timeout m r w in
      let y = ads_connected api remote_net_id ipaddr base m x in
      answered-Ended m y.0 y.1 y.2 (connected-Goes m x.0 x.1 x.2 (connect-Goes m r w h))

  -- From any state of the driver in which AdsLib and asyn accept what connect asks for and the PLC
  -- answers that it runs, the loop of the constructor ends with its next turn.
  pub connect_until-ends :
      (n : ℕ) (m : Master) (r : Routes) (w : W)
      → Up w
      → (x : Master × Routes × W) × (connect_until api base update remote_net_id ipaddr client
            timeout ams_port
            (suc n)
            m
            r
            w
          ≡ some x)
  unfolding connect_until
  connect_until-ends n m r w h =
      let (m', r', w', e) = turn-Ended m r w h in ((m', r', w'), rw (connect_until, e) refl)
