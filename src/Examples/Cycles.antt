-- ===== src/Examples/Cycles.antt =====
-- Examples of the cyclic thread.
use twincat_ads.Ads.{AdsApi, AmsPortInfo}
use twincat_ads.Connection.{BaseConnect}
use twincat_ads.Cyclic.{
  Cyclic, Next, exited, continued, Settings, is_running, ads_read_state, check_port, run_pass,
}
use twincat_ads.Cyclic.Exits.{start, passed, dead_plc-exited, unconnected_kept}
use twincat_ads.Cyclic.Pass.{IsNoted, check_port-IsNoted}
use twincat_ads.Cyclic.Lost.{IsLost, check_port-IsLost}
use twincat_ads.PortList.{new_port}
use twincat_ads.Update.Refresh.{Driver}
use twincat_ads.Examples.{a_plc, net_id, a_master, some_alarms}
use twincat_ads.Examples.Bulks.{an_env}
use twincat_ads.Examples.Lists.{a_driver}
use twincat_ads.Examples.Transfers.{whole, accepting}
use twincat_ads.Base.{
  ℕ, suc, ◌≡◌, refl, true, false, not, ◌&&◌, [], ◌∷◌, some, asyn_success, get_elem?, failed, ◌==◌,
  if◌then◌else◌,
}

abbrev base : BaseConnect ℕ
base = record { base_connect = λ w. (asyn_success, w); base_disconnect = λ w. (asyn_success, w) }

abbrev settings : Settings
settings = record {
  stop_threads = false;
  allow_callback_epics_state = true;
  auto_connect = true;
  timeout = 1000;
  ipaddr = "192.168.1.10";
  comm_alarm = 9;
  connect_client = 30001;
}

abbrev a_thread : Cyclic
a_thread = record {
  driver = a_driver;
  queue = [];
  route_added = true;
  ethercat_route_added = false;
  master = a_master;
  not_connected_counter = 0;
  one_ams_connection_ok_old = false;
}

abbrev pass : AdsApi ℕ → Cyclic → ℕ → Next × Cyclic × ℕ
pass api c w = run_pass api net_id 30000 an_env accepting some_alarms settings whole 0 base c w

-- A PLC whose router does not answer.
abbrev dead : AdsApi ℕ
dead = record a_plc { read_state = λ client to w. (0x745, 0, suc w) }

dead_never_runs :
    (p w : ℕ)
    → let (status, state, _) = ads_read_state dead net_id 30000 an_env p w in
      is_running dead net_id 30000 an_env status state ≡ false
unfolding ads_read_state
dead_never_runs p w = refl

dead_plc-exited_example :
    let (next, d, v) = pass dead a_thread 0 in
    (next ≡ continued)
    × ((e : Cyclic) (u : ℕ)
        → e.not_connected_counter ≡ d.not_connected_counter
        → (pass dead e u).0 ≡ exited)
dead_plc-exited_example =
    dead_plc-exited dead net_id 30000 an_env accepting some_alarms settings whole 0 base
      dead_never_runs a_thread 0 refl

abbrev unconnected : Cyclic
unconnected = record a_thread { driver = record a_driver { connected_ads = false } }

unconnected_kept_example : (pass dead unconnected 0).1.driver.connected_ads ≡ false
unconnected_kept_example =
    unconnected_kept dead net_id 30000 an_env accepting some_alarms settings whole 0 base
      {c = unconnected} {w = 0} refl refl
      (passed start
        (dead_plc-exited dead net_id 30000 an_env accepting some_alarms settings whole 0 base
          dead_never_runs unconnected 0 refl).0)

check_port-IsNoted_example :
    let (status, state, _) = ads_read_state a_plc net_id 30000 an_env 851 0 in
    let (found, d, _) =
      check_port a_plc net_id 30000 an_env accepting some_alarms settings 0 a_driver 0 in
    (found ≡ (not (failed status) && state == 5))
    × ((q : AmsPortInfo) × (get_elem? d.ports 0 ≡ some q)
        × IsNoted (new_port 15 851) found (if failed status then 0 else state) q)
check_port-IsNoted_example =
    check_port-IsNoted a_plc net_id 30000 an_env accepting some_alarms settings 0 a_driver 0
      (new_port 15 851) refl

abbrev connected : AmsPortInfo
connected = record (new_port 15 851) { connected = true; params_ok = true; ads_state = 5 }

abbrev running : Driver
running = record a_driver { ports = connected ∷ [] }

check_port-IsLost_example :
    IsLost dead net_id 30000 an_env accepting some_alarms settings 0 851 running
      (check_port dead net_id 30000 an_env accepting some_alarms settings 0 running 0).1
check_port-IsLost_example =
    check_port-IsLost dead net_id 30000 an_env accepting some_alarms settings 0 running 0 connected
      refl refl (dead_never_runs 851 0)
