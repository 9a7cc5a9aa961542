-- ===== src/Construct/Whole.antt =====
-- adsApp/src/adsAsynPortDriver.cpp, the whole constructor of the driver: the net ids, the parameter for
-- the default access, the client ports, the threads, and the loop that waits for the PLC. The guard of
-- connect is taken to give the port that the constructor uses.
pub mod Complete
use twincat_ads.Base.Int.{ℤ, pos, negsuc}
use twincat_ads.Bulk.{is_negative}
use twincat_ads.Ads.{
  AdsApi, AdsParamInfo, AmsPortInfo, AdsTimeSource, time_base_plc, time_base_epics,
}
use twincat_ads.ClientPort.{
  PortApi, PortMap, add_ads_client_port, del_ads_client_port, get_ads_client_port,
  is_invalid_port_number,
}
use twincat_ads.Connection.{Routes, BaseConnect, connect, disconnect, ads_add_ethercat_route}
use twincat_ads.Cyclic.{ads_read_state}
use twincat_ads.EtherCat.{
  Master, Source, unresolved, configured, resolve_ethercat_master, ethercat_master_is_available,
}
use twincat_ads.NetId.{parse_ams_net_id}
use twincat_ads.PortList.{add_new_ams_port_to_list}
use twincat_ads.Symbol.{ads_release_symbolic_handle}
use twincat_ads.Notify.{ads_del_data_callback}
use twincat_ads.Transfer.Decode.{signed, half32, pattern_of}
use twincat_ads.Update.{UpdateEnv}
use text.Mathlib.Text.{◌==◌ as str_eq}
use twincat_ads.Base.{
  ℕ, zero, suc, ◌*◌, ◌%◌, ◌^◌, Bool, true, false, String, List, [], ◌∷◌, ◌++◌, Option, none, some,
  AsynStatus, asyn_success, asyn_error, failed, ltb, leb, ◌==◌, if◌then◌else◌, not, ◌&&◌, ◌||◌,
}
use twincat_ads.Construct.{
  Arguments, Worker, cyclic_worker, bulk_read_worker, data_callback_worker, trigger_worker,
  bulk_delay, connect_until,
}

-- What the constructor leaves, as far as it has come: the fields that it sets.
pub record Made : Type 0 where
  pub params : List AdsParamInfo
  pub ams_ports : List AmsPortInfo
  pub master : Master
  pub routes : Routes
  pub client_ports : PortMap
  pub ads_port : ℤ
  pub bulk_delay_us : ℤ
  pub workers : List Worker

-- It returns before a connection is tried, throws, has connected, or is still trying.
pub data Constructed (W : Type 0) : Type 0 where
  unconnected thrown connected : Made → W → Constructed W
  trying : Constructed W

-- Parameters of the constructor. `fresh` is an entry of adsParamArray_ that is not in use, as the
-- parameter of the default access.
pub record ConstructEnv (W : Type 0) : Type 0 where
  pub api : AdsApi W
  pub ports : PortApi W
  pub base : BaseConnect W
  pub update : UpdateEnv
  pub create_default : W → AsynStatus × ℕ × W
  pub create_thread : Worker → W → Bool × W
  pub scan_hhu : String → ℕ × List ℕ
  pub scan_u : String → ℕ × List ℕ
  pub max_states : ℕ
  pub fresh : AdsParamInfo
  pub own : ℕ

abbrev pub is_zero : ℤ → Bool
is_zero (pos n) = n == 0
is_zero (negsuc n) = false

-- A client port as AdsLib takes it.
abbrev pub port_number : ℤ → ℕ
port_number (pos n) = n
port_number (negsuc n) = 0

abbrev pub no_net_id : List ℕ
no_net_id = 0 ∷ 0 ∷ 0 ∷ 0 ∷ 0 ∷ 0 ∷ []

unfoldable pub unmade : Made
unmade = record {
  params = [];
  ams_ports = [];
  master = record { net_id = no_net_id; resolved = false; available = false; source = unresolved };
  routes = record { route_added = false; ethercat_route_added = false; connected_ads = false };
  client_ports = [];
  ads_port = pos 0;
  bulk_delay_us = pos 0;
  workers = [];
}

-- The master that the override gives; none where it is no net id.
unfoldable pub overridden : (String → ℕ × List ℕ) → Option String → Master → Option Master
unfolding parse_ams_net_id
overridden scan none m = some m
overridden scan (some text) m =
    let (parsed, net_id) = parse_ams_net_id scan (some text) (some m.net_id) in
    if str_eq text "" then some m else elim net_id [
      | none ↦ none
      | some n ↦
          if parsed
          then some (record { net_id = n; resolved = true; available = true; source = configured })
          else none
    ]

module _ {W : Type 0} (env : ConstructEnv W) (a : Arguments) where
  open env use {api, ports, base, update, own}

  -- `n` is the number of turns of the loop.
  unfoldable pub connected_or_trying : ℕ → List ℕ → ℤ → Made → W → Constructed W
  unfolding connect_until
  connected_or_trying n remote client s w =
      elim (connect_until api base update remote a.ipaddr (port_number client)
        (pattern_of (2 ^ 32) a.ads_timeout_ms) (a.amsport % 2 ^ 16) n s.master s.routes w) [
          | none ↦ trying
          | some (m, r, w') ↦ connected (record s { master = m; routes = r }) w'
        ]

  -- The thread is created, and then `next`; or else `otherwise`.
  unfoldable pub thread_created :
      Worker → (Made → W → Constructed W) → (Made → W → Constructed W) → Made → W → Constructed W
  thread_created worker otherwise next s w =
      let (created, w') = env.create_thread worker w in
      if created then next (record s { workers = s.workers ++ worker ∷ [] }) w' else otherwise s w'

  unfoldable pub threads_created : ℕ → List ℕ → ℤ → Made → W → Constructed W
  unfolding thread_created connected_or_trying bulk_delay
  threads_created n remote client = thread_created cyclic_worker unconnected (λ s.
      thread_created bulk_read_worker unconnected
        (thread_created data_callback_worker unconnected
          (thread_created trigger_worker thrown (connected_or_trying n remote client)))
        (record s { bulk_delay_us = bulk_delay a.default_sample_time_ms }))

  -- The end of the AdsClientPortGuard.
  unfoldable pub guard_ended : Constructed W → Constructed W
  unfolding del_ads_client_port
  guard_ended (unconnected s w) =
      let (_, m, w') = del_ads_client_port ports own s.client_ports w in
      unconnected (record s { client_ports = m }) w'
  guard_ended (thrown s w) =
      let (_, m, w') = del_ads_client_port ports own s.client_ports w in
      thrown (record s { client_ports = m }) w'
  guard_ended (connected s w) =
      let (_, m, w') = del_ads_client_port ports own s.client_ports w in
      connected (record s { client_ports = m }) w'
  guard_ended trying = trying

  -- With a port of its own, or else the default one.
  unfoldable pub guarded : ℕ → List ℕ → Made → ℤ × PortMap × W → Constructed W
  unfolding threads_created guard_ended get_ads_client_port
  guarded n remote s (q, m, w) =
      let s' = record s { client_ports = m } in
      guard_ended (
        if is_invalid_port_number q
        then elim (get_ads_client_port 0 m) [
          | none ↦ thrown s' w
          | some p ↦ threads_created n remote p s' w
        ]
        else threads_created n remote q s' w)

  unfoldable pub default_port_opened : ℕ → List ℕ → Made → ℤ × PortMap × W → Constructed W
  unfolding guarded add_ads_client_port
  default_port_opened n remote s (p, m, w) =
      let s' = record s { ads_port = p; client_ports = m } in
      if is_invalid_port_number p
      then thrown s' w
      else guarded n remote s' (add_ads_client_port ports own m w)

  unfoldable pub default_created : ℕ → List ℕ → Made → AsynStatus × ℕ × W → Constructed W
  unfolding default_port_opened add_ads_client_port
  default_created n remote s (status, index, w) =
      if failed status
      then unconnected s w
      else default_port_opened n remote
          (record s { params = record env.fresh { param_index = index } ∷ [] })
          (add_ads_client_port ports 0 s.client_ports w)

  unfoldable pub constructor : ℕ → W → Constructed W
  unfolding default_created add_new_ams_port_to_list overridden unmade
  constructor n w =
      let (_, ams_ports) = add_new_ams_port_to_list env.max_states (a.amsport % 2 ^ 16) [] in
      let s = record unmade { ams_ports = ams_ports } in
      let (values, remote) = env.scan_hhu a.amsaddr in
      if a.amsport % 2 ^ 16 == 0
      then unconnected unmade w
      else if not (values == 6)
      then unconnected s w
      else elim (overridden env.scan_u a.ethercat_master_override unmade.master) [
        | none ↦ thrown s w
        | some m ↦
            let s' = record s { master = m } in
            if is_negative a.param_table_size || is_zero a.param_table_size
            then unconnected s' w
            else default_created n remote s' (env.create_default w)
      ]
