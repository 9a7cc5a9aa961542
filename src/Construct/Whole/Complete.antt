-- ===== src/Construct/Whole/Complete.antt =====
-- adsApp/src/adsAsynPortDriver.cpp, the constructor of the driver: what is so when it has connected.
use twincat_ads.Base.Int.{ℤ}
use twincat_ads.ClientPort.{
  PortMap, add_ads_client_port, get_ads_client_port, is_invalid_port_number,
}
use twincat_ads.Connection.{Routes}
use twincat_ads.Construct.{
  Arguments, Worker, cyclic_worker, bulk_read_worker, data_callback_worker, trigger_worker,
  bulk_delay,
}
use twincat_ads.Construct.Whole.{
  Made, Constructed, unconnected, thrown, connected, trying, ConstructEnv, connected_or_trying,
  thread_created, threads_created, guard_ended, guarded, default_port_opened, default_created,
  constructor, unmade, overridden, is_zero, port_number,
}
use twincat_ads.Construct.Connected.{IsConnected, Until, connect_until-Until}
use twincat_ads.Bulk.{is_negative}
use twincat_ads.EtherCat.{Master}
use twincat_ads.PortList.{add_new_ams_port_to_list}
use twincat_ads.Transfer.Decode.{pattern_of}
use twincat_ads.Base.{
  ℕ, ◌%◌, ◌^◌, ◌++◌, List, [], ◌∷◌, Option, none, some, AsynStatus, failed, ◌==◌, if◌then◌else◌,
  not, ◌||◌, ◌≡◌, refl, if-intro,
}

in_order :
    (xs xs1 xs2 xs3 xs4 : List Worker)
    → xs ≡ []
    → xs1 ≡ xs ++ cyclic_worker ∷ []
    → xs2 ≡ xs1 ++ bulk_read_worker ∷ []
    → xs3 ≡ xs2 ++ data_callback_worker ∷ []
    → xs4 ≡ xs3 ++ trigger_worker ∷ []
    → xs4 ≡ cyclic_worker ∷ bulk_read_worker ∷ data_callback_worker ∷ trigger_worker ∷ []
in_order xs xs1 xs2 xs3 xs4 h h1 h2 h3 h4 = rw (h4, h3, h2, h1, h) refl

module _ {W : Type 0} (env : ConstructEnv W) (a : Arguments) where
  open env use {api, ports, base, update, own}

  abbrev pub remote : List ℕ
  remote = (env.scan_hhu a.amsaddr).1

  -- The driver is connected with the client port `client`, and all of its threads run.
  pub record IsComplete (s : Made) : Type 0 where
    pub client : ℕ
    pub is_connected :
        IsConnected api base update remote a.ipaddr client
          (pattern_of (2 ^ 32) a.ads_timeout_ms)
          (a.amsport % 2 ^ 16)
          s.master
          s.routes
    pub threads :
        s.workers ≡ cyclic_worker ∷ bulk_read_worker ∷ data_callback_worker ∷ trigger_worker ∷ []

  -- If the constructor has connected.
  abbrev pub Ends : Constructed W → Type 0
  Ends (connected s w) = IsComplete s
  Ends _ = Unit

  guard-Ends : (c : Constructed W) → Ends c → Ends (guard_ended env a c)
  unfolding guard_ended
  guard-Ends (unconnected s w) e = tt
  guard-Ends (thrown s w) e = tt
  guard-Ends (connected s w) e = record {
    client = e.client;
    is_connected = e.is_connected;
    threads = e.threads;
  }
  guard-Ends trying e = tt

  loop-Ends :
      (client : ℕ) (s : Made) (o : Option (Master × Routes × W))
      → s.workers ≡ cyclic_worker ∷ bulk_read_worker ∷ data_callback_worker ∷ trigger_worker ∷ []
      → Until api base update remote a.ipaddr client
          (pattern_of (2 ^ 32) a.ads_timeout_ms)
          (a.amsport % 2 ^ 16)
          o
      → Ends (elim o [
        | none ↦ trying
        | some (m, r, w) ↦ connected (record s { master = m; routes = r }) w
      ])
  loop-Ends client s none threads u = tt
  loop-Ends client s (some (m, r, w)) threads u = record {
    client = client;
    is_connected = u;
    threads = threads;
  }

  thread-Ends :
      (worker : Worker) (otherwise next : Made → W → Constructed W) (s : Made) (w : W)
      → ((t : Made) (v : W) → Ends (otherwise t v))
      → ((t : Made) (v : W) → t.workers ≡ s.workers ++ worker ∷ [] → Ends (next t v))
      → Ends (thread_created env a worker otherwise next s w)
  unfolding thread_created
  thread-Ends worker otherwise next s w failing going =
      let (created, w') = env.create_thread worker w in
      if-intro Ends created (λ _. going (record s { workers = s.workers ++ worker ∷ [] }) w' refl)
        (λ _. failing s w')

  threads-Ends :
      (n : ℕ) (client : ℤ) (s : Made) (w : W)
      → s.workers ≡ []
      → Ends (threads_created env a n remote client s w)
  unfolding threads_created connected_or_trying
  threads-Ends n client s w none_yet =
      thread-Ends cyclic_worker unconnected _ s w (λ t v. tt)
        (λ s1 w1 h1.
          let delayed = record s1 { bulk_delay_us = bulk_delay a.default_sample_time_ms } in
          thread-Ends bulk_read_worker unconnected _ delayed w1 (λ t v. tt)
            (λ s2 w2 h2.
              thread-Ends data_callback_worker unconnected _ s2 w2 (λ t v. tt)
                (λ s3 w3 h3.
                  thread-Ends trigger_worker thrown _ s3 w3 (λ t v. tt)
                    (λ s4 w4 h4.
                      loop-Ends (port_number client) s4 _
                        (in_order s.workers s1.workers s2.workers s3.workers s4.workers none_yet h1
                          h2 h3 h4)
                        (connect_until-Until api base update remote a.ipaddr (port_number client)
                          (pattern_of (2 ^ 32) a.ads_timeout_ms) (a.amsport % 2 ^ 16) n s4.master
                          s4.routes w4)))))

  guarded-Ends :
      (n : ℕ) (s : Made) (q : ℤ) (m : PortMap) (w : W)
      → s.workers ≡ []
      → Ends (guarded env a n remote s (q, m, w))
  unfolding guarded
  guarded-Ends n s q m w none_yet =
      let s' = record s { client_ports = m } in
      guard-Ends _ (
        if-intro Ends (is_invalid_port_number q) (λ _. fallback-Ends (get_ads_client_port 0 m))
          (λ _. threads-Ends n q s' w none_yet))
    where
      fallback-Ends :
          (o : Option ℤ)
          → Ends (elim o [
            | none ↦ thrown (record s { client_ports = m }) w
            | some p ↦ threads_created env a n remote p (record s { client_ports = m }) w
          ])
      fallback-Ends none = tt
      fallback-Ends (some p) = threads-Ends n p (record s { client_ports = m }) w none_yet

  default_port-Ends :
      (n : ℕ) (s : Made) (p : ℤ) (m : PortMap) (w : W)
      → s.workers ≡ []
      → Ends (default_port_opened env a n remote s (p, m, w))
  unfolding default_port_opened
  default_port-Ends n s p m w none_yet =
      let (q, m', w') = add_ads_client_port ports own m w in
      if-intro Ends (is_invalid_port_number p) (λ _. tt)
        (λ _. guarded-Ends n (record s { ads_port = p; client_ports = m }) q m' w' none_yet)

  default-Ends :
      (n : ℕ) (s : Made) (status : AsynStatus) (index : ℕ) (w : W)
      → s.workers ≡ []
      → Ends (default_created env a n remote s (status, index, w))
  unfolding default_created
  default-Ends n s status index w none_yet =
      let (p, m, w') = add_ads_client_port ports 0 s.client_ports w in
      let s' = record s { params = record env.fresh { param_index = index } ∷ [] } in
      if-intro Ends (failed status) (λ _. tt) (λ _. default_port-Ends n s' p m w' none_yet)

  -- When the constructor has connected, after any number of turns of its loop, all four threads run in
  -- the order of their creation, connectedAds_ is set, the EtherCAT master is resolved, and the PLC has
  -- answered with the state RUN.
  pub constructor-Ends : (n : ℕ) (w : W) → Ends (constructor env a n w)
  unfolding constructor unmade
  constructor-Ends n w =
      let (_, ams_ports) = add_new_ams_port_to_list env.max_states (a.amsport % 2 ^ 16) [] in
      let s = record unmade { ams_ports = ams_ports } in
      if-intro Ends (a.amsport % 2 ^ 16 == 0) (λ _. tt)
        (λ _.
          if-intro Ends (not ((env.scan_hhu a.amsaddr).0 == 6)) (λ _. tt)
            (λ _.
              master-Ends s (overridden env.scan_u a.ethercat_master_override unmade.master) refl))
    where
      master-Ends :
          (s : Made) (o : Option Master)
          → s.workers ≡ []
          → Ends (elim o [
            | none ↦ thrown s w
            | some m ↦
                let s' = record s { master = m } in
                if is_negative a.param_table_size || is_zero a.param_table_size
                then unconnected s' w
                else default_created env a n remote s' (env.create_default w)
          ])
      master-Ends s none h = tt
      master-Ends s (some m) h =
          let (status, index, w') = env.create_default w in
          if-intro Ends (is_negative a.param_table_size || is_zero a.param_table_size) (λ _. tt)
            (λ _. default-Ends n (record s { master = m }) status index w' h)
