-- ===== src/Connection/Laws.antt =====
-- adsApp/src/adsAsynPortDriver.cpp, the routes of the connection: what the driver's flags say of the
-- routes in AdsLib.
use twincat_ads.Ads.{AdsApi}
use twincat_ads.EtherCat.{Master, ethercat_master_is_available}
use twincat_ads.Base.{
  ℕ, ◌≡◌, ◌≢◌, refl, sym, inl, inr, Bool, true, false, List, [], ◌∷◌, String, AsynStatus,
  asyn_success, asyn_error, asyn_timeout, failed, ◌==◌, Bool-cases, if-intro, arith, ◌||◌, not,
}
use twincat_ads.Connection.{
  Routes, BaseConnect, same_net_id, route_answered, ads_add_route, ethercat_route_answered,
  ads_add_ethercat_route, remote_route_deleted, ethercat_route_deleted, ads_del_route,
  ads_disconnect, route_tried, timeout_set, timeout_updated, ads_connect, base_connected,
  ethercat_routed, ads_connected, connect, disconnect,
}

pub same_net_id_refl : (n : List ℕ) → same_net_id n n ≡ true
unfolding same_net_id
same_net_id_refl [] = refl
same_net_id_refl (x ∷ xs) = ground (arith, same_net_id_refl xs)

differs : (k n : List ℕ) → same_net_id k n ≡ false → k ≢ n
differs k n h e = ground (arith, h, same_net_id_refl k, e)

-- The routing table of AdsLib: `has n w` says that `w` has a route to the net id `n`. What AdsAddRoute
-- and AdsDelRoute do to it, and that the timeouts and asyn's connect do not touch it.
pub record IsRouter {W : Type 0} (api : AdsApi W) (base : BaseConnect W) (has : List ℕ → W → Bool)
    : Type 0 where
  pub added :
      (n : List ℕ) (ip : String) (w : W)
      → (api.add_route n ip w).0 ≡ 0
      → has n (api.add_route n ip w).1 ≡ true
  pub add_kept :
      (n : List ℕ) (ip : String) (w : W) (k : List ℕ)
      → has k w ≡ true
      → has k (api.add_route n ip w).1 ≡ true
  pub del_kept :
      (n : List ℕ) (w : W) (k : List ℕ) → k ≢ n → has k w ≡ true → has k (api.del_route n w) ≡ true
  pub get_kept :
      (client : ℕ) (w : W) (k : List ℕ) → has k w ≡ true → has k (api.get_timeout client w).1 ≡ true
  pub set_kept :
      (client timeout : ℕ) (w : W) (k : List ℕ)
      → has k w ≡ true
      → has k (api.set_timeout client timeout w).1 ≡ true
  pub connect_kept : (w : W) (k : List ℕ) → has k w ≡ true → has k (base.base_connect w).1 ≡ true
  pub disconnect_kept :
      (w : W) (k : List ℕ) → has k w ≡ true → has k (base.base_disconnect w).1 ≡ true

module _ {W : Type 0} (api : AdsApi W) (base : BaseConnect W) (has : List ℕ → W → Bool)
    (router : IsRouter api base has) (remote_net_id : List ℕ) (ipaddr : String) (m : Master) where
  open router use {added, add_kept, del_kept, get_kept, set_kept, connect_kept, disconnect_kept}

  -- A flag is set only while AdsLib has its route.
  pub record IsRouted (r : Routes) (w : W) : Type 0 where
    pub remote : r.route_added ≡ true → has remote_net_id w ≡ true
    pub ethercat : r.ethercat_route_added ≡ true → has m.net_id w ≡ true
    pub apart : r.ethercat_route_added ≡ true → same_net_id m.net_id remote_net_id ≡ false

  -- A step of the world that keeps the routes.
  world_step :
      (r : Routes) (w v : W)
      → ((k : List ℕ) → has k w ≡ true → has k v ≡ true)
      → IsRouted r w
      → IsRouted r v
  world_step r w v keeps i = record {
    remote = λ e. keeps remote_net_id (i.remote e);
    ethercat = λ e. keeps m.net_id (i.ethercat e);
    apart = i.apart;
  }

  add_route-IsRouted :
      (r : Routes) (w : W)
      → IsRouted r w
      → let (_, r', w') = ads_add_route api remote_net_id ipaddr r w in IsRouted r' w'
  unfolding ads_add_route route_answered
  add_route-IsRouted r w i =
      let kept =
        world_step r w (api.add_route remote_net_id ipaddr w).1
          (λ k. add_kept remote_net_id ipaddr w k) i in
      elim (Bool-cases ((api.add_route remote_net_id ipaddr w).0 == 0)) [
        | inl ok ↦ rw ok (record {
          remote = λ _. added remote_net_id ipaddr w (ground (arith, ok));
          ethercat = kept.ethercat;
          apart = kept.apart;
        })
        | inr bad ↦ rw bad kept
      ]

  add_ethercat_route-IsRouted :
      (r : Routes) (w : W)
      → IsRouted r w
      → let (_, r', w') = ads_add_ethercat_route api remote_net_id ipaddr m r w in IsRouted r' w'
  unfolding ads_add_ethercat_route ethercat_route_answered
  add_ethercat_route-IsRouted r w i =
      let kept =
        world_step r w (api.add_route m.net_id ipaddr w).1 (λ k. add_kept m.net_id ipaddr w k) i in
      elim (Bool-cases (
        not (ethercat_master_is_available m)
        || same_net_id m.net_id remote_net_id
        || r.ethercat_route_added)) [
          | inl skip ↦ rw skip i
          | inr asks ↦
              let status = (api.add_route m.net_id ipaddr w).0 in
              elim (Bool-cases (status == api.device_exists)) [
                | inl exists ↦ rw (asks, exists) kept
                | inr new ↦ elim (Bool-cases (status == 0)) [
                  | inl ok ↦
                      rw (asks, new, ok)
                        (record {
                          remote = kept.remote;
                          ethercat = λ _. added m.net_id ipaddr w (ground (arith, ok));
                          apart = λ _. ground (arith, asks);
                        })
                  | inr bad ↦ rw (asks, new, bad) kept
                ]
              ]
        ]

  remote_deleted-IsRouted :
      (force : Bool) (r : Routes) (w : W)
      → IsRouted r w
      → let (r', w') = remote_route_deleted api remote_net_id ipaddr force r w in IsRouted r' w'
  unfolding remote_route_deleted
  remote_deleted-IsRouted force r w i = elim (Bool-cases (r.route_added || force)) [
    | inl up ↦ rw up (record {
      remote = λ e. absurd (ground (arith, e));
      ethercat = λ e.
          del_kept remote_net_id w m.net_id (differs m.net_id remote_net_id (i.apart e))
            (i.ethercat e);
      apart = i.apart;
    })
    | inr down ↦ rw down i
  ]

  ethercat_deleted-IsRouted :
      (r : Routes) (w : W)
      → IsRouted r w
      → let (r', w') = ethercat_route_deleted api remote_net_id ipaddr m r w in IsRouted r' w'
  unfolding ethercat_route_deleted
  ethercat_deleted-IsRouted r w i =
      if-intro (λ (q : Routes × W). IsRouted q.0 q.1) r.ethercat_route_added
        (λ up. record {
          remote = λ e.
              del_kept m.net_id w remote_net_id
                (λ same. differs m.net_id remote_net_id (i.apart up) (sym same)) (i.remote e);
          ethercat = λ e. absurd (ground (arith, e));
          apart = λ e. absurd (ground (arith, e));
        })
        (λ down. i)

  del_route-IsRouted :
      (force : Bool) (r : Routes) (w : W)
      → IsRouted r w
      → let (_, r', w') = ads_del_route api remote_net_id ipaddr force m r w in IsRouted r' w'
  unfolding ads_del_route
  del_route-IsRouted force r w i =
      let (r', w') = remote_route_deleted api remote_net_id ipaddr force r w in
      ethercat_deleted-IsRouted r' w' (remote_deleted-IsRouted force r w i)

  tried-IsRouted :
      (status : AsynStatus) (r : Routes) (w : W)
      → IsRouted r w
      → let (r', w') = route_tried api remote_net_id ipaddr m (status, r, w) in IsRouted r' w'
  unfolding route_tried
  tried-IsRouted asyn_success r w i = i
  tried-IsRouted asyn_error r w i = del_route-IsRouted true r w i
  tried-IsRouted asyn_timeout r w i = del_route-IsRouted true r w i

  timeout-IsRouted :
      (client timeout : ℕ) (r : Routes) (w : W)
      → IsRouted r w
      → let (_, r', w') =
          timeout_updated api remote_net_id ipaddr client timeout r (api.get_timeout client w) in
        IsRouted r' w'
  unfolding timeout_updated timeout_set
  timeout-IsRouted client timeout r w i =
      let got = world_step r w (api.get_timeout client w).1 (λ k. get_kept client w k) i in
      let set =
        world_step r (api.get_timeout client w).1
          (api.set_timeout client timeout (api.get_timeout client w).1).1
          (λ k. set_kept client timeout (api.get_timeout client w).1 k) got in
      elim (Bool-cases ((api.get_timeout client w).0 == 0)) [
        | inl ok ↦ rw ok set
        | inr bad ↦ rw bad got
      ]

  ads_connect-IsRouted :
      (client timeout : ℕ) (r : Routes) (w : W)
      → IsRouted r w
      → let (_, r', w') = ads_connect api remote_net_id ipaddr client timeout m r w in
        IsRouted r' w'
  unfolding ads_connect
  ads_connect-IsRouted client timeout r w i =
      let (status, r', w') = ads_add_route api remote_net_id ipaddr r w in
      let ready =
        if-intro (λ (q : Routes × W). IsRouted q.0 q.1) r.route_added (λ up. i)
          (λ down. tried-IsRouted status r' w' (add_route-IsRouted r w i)) in
      timeout-IsRouted client timeout _ _ ready

  base_connected-IsRouted :
      (r : Routes) (w : W)
      → IsRouted r w
      → let (_, r', w') = base_connected api remote_net_id ipaddr base r (base.base_connect w) in
        IsRouted r' w'
  unfolding base_connected
  base_connected-IsRouted r w i =
      let kept = world_step r w (base.base_connect w).1 (λ k. connect_kept w k) i in
      elim (Bool-cases (failed (base.base_connect w).0)) [
        | inl bad ↦ rw bad kept
        | inr ok ↦
            rw ok (record { remote = kept.remote; ethercat = kept.ethercat; apart = kept.apart })
      ]

  ethercat_routed-IsRouted :
      (status : AsynStatus) (r : Routes) (w : W)
      → IsRouted r w
      → let (_, r', w') = ethercat_routed api remote_net_id ipaddr base (status, r, w) in
        IsRouted r' w'
  unfolding ethercat_routed
  ethercat_routed-IsRouted asyn_success r w i = base_connected-IsRouted r w i
  ethercat_routed-IsRouted asyn_error r w i = i
  ethercat_routed-IsRouted asyn_timeout r w i = i

  ads_connected-IsRouted :
      (status : AsynStatus) (r : Routes) (w : W)
      → IsRouted r w
      → let (_, r', w') = ads_connected api remote_net_id ipaddr base m (status, r, w) in
        IsRouted r' w'
  unfolding ads_connected
  ads_connected-IsRouted asyn_success r w i =
      let routed =
        if-intro (λ (q : AsynStatus × Routes × W). IsRouted q.1 q.2)
          (ethercat_master_is_available m) (λ on. add_ethercat_route-IsRouted r w i) (λ off. i) in
      ethercat_routed-IsRouted _ _ _ routed
  ads_connected-IsRouted asyn_error r w i = i
  ads_connected-IsRouted asyn_timeout r w i = i

  -- The calls that change the routes, in any order.
  pub data Calls (r : Routes) (w : W) : Routes → W → Type 0 where
    no_call : Calls r w r w
    connecting :
        (client timeout : ℕ) {s : Routes} {v : W}
        → Calls r w s v
        → Calls r w
            (connect api remote_net_id ipaddr base client timeout m s v).1
            (connect api remote_net_id ipaddr base client timeout m s v).2
    disconnecting :
        {s : Routes} {v : W}
        → Calls r w s v
        → Calls r w
            (disconnect api remote_net_id ipaddr base s v).1
            (disconnect api remote_net_id ipaddr base s v).2
    ads_disconnecting :
        {s : Routes} {v : W}
        → Calls r w s v
        → Calls r w
            (ads_disconnect api remote_net_id ipaddr m s v).1
            (ads_disconnect api remote_net_id ipaddr m s v).2

  -- Where the routing table keeps what the driver relies on, every sequence of connect, disconnect and
  -- adsDisconnect keeps the driver's flags true to it: a flag that is set has its route, and the flag
  -- of the EtherCAT master's route is set only for a net id other than the PLC's.
  pub Calls-IsRouted :
      {r : Routes} {w : W} {s : Routes} {v : W} → IsRouted r w → Calls r w s v → IsRouted s v
  unfolding connect disconnect ads_disconnect
  Calls-IsRouted i no_call = i
  Calls-IsRouted i (connecting client timeout {s} {v} c) =
      let (st, s', v') = ads_connect api remote_net_id ipaddr client timeout m s v in
      ads_connected-IsRouted st s' v' (ads_connect-IsRouted client timeout s v (Calls-IsRouted i c))
  Calls-IsRouted i (disconnecting {s} {v} c) =
      world_step s v (base.base_disconnect v).1 (λ k. disconnect_kept v k) (Calls-IsRouted i c)
  Calls-IsRouted i (ads_disconnecting {s} {v} c) = del_route-IsRouted true s v (Calls-IsRouted i c)
