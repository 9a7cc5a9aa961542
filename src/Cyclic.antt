-- ===== src/Cyclic.antt =====
-- adsApp/src/adsAsynPortDriver.cpp, cyclicThread with adsReadState and adsReadVersion: the pass that
-- follows the state of every ams port. `client` is the thread's ADS client port.
pub mod Kept
pub mod Exits
pub mod Pass
pub mod Lost
use twincat_ads.Ads.{AdsApi, AdsDataSource, AdsParamInfo, AdsVersion, AmsPortInfo, ams_state, plc}
use twincat_ads.Asyn.{AsynApi, AlarmCodes, set_alarm_port}
use twincat_ads.Connection.{Routes, BaseConnect, connect, disconnect}
use twincat_ads.EtherCat.{Master}
use twincat_ads.Notify.{addr}
use twincat_ads.Transfer.Decode.{Floats}
use twincat_ads.Transfer.Value.{Queue, ads_update_parameter}
use twincat_ads.Transfer.Write.{le_bytes}
use twincat_ads.Update.{UpdateEnv}
use twincat_ads.Update.Refresh.{Driver, refresh_params, invalidate_params}
use twincat_ads.Base.{
  ℕ, zero, suc, ◌/◌, ◌%◌, Bool, true, false, List, [], ◌∷◌, String, Option, none, some, AsynStatus,
  asyn_success, asyn_error, failed, ltb, ◌==◌, if◌then◌else◌, length, get_elem?, set, not, ◌&&◌,
  ◌||◌,
}

-- The connection's `connected_ads` is the driver's field of that name.
pub record Cyclic : Type 0 where
  pub driver : Driver
  pub queue : Queue
  pub route_added : Bool
  pub ethercat_route_added : Bool
  pub master : Master
  pub not_connected_counter : ℕ
  pub one_ams_connection_ok_old : Bool

-- What the thread does after a pass: it leaves the loop, skips the rest, ends the process, or goes on.
pub data Next : Type 0 where
  left skipped exited continued : Next

-- What the pass reads of the rest of the driver.
pub record Settings : Type 0 where
  pub stop_threads : Bool
  pub allow_callback_epics_state : Bool
  pub auto_connect : Bool
  pub timeout : ℕ
  pub ipaddr : String
  pub comm_alarm : ℕ
  -- The client port that connect opens.
  pub connect_client : ℕ

abbrev pub is_state_source : AdsDataSource → Bool
is_state_source ams_state = true
is_state_source plc = false

-- A change of one port of the driver.
unfoldable pub with_port : ℕ → (AmsPortInfo → AmsPortInfo) → Driver → Driver
with_port i f d = elim (get_elem? d.ports i) [
  | none ↦ d
  | some port ↦ record d { ports = set d.ports i (f port) }
]

-- A change of one parameter of the driver.
unfoldable pub with_param : ℕ → AdsParamInfo → Driver → Driver
with_param k p d = record d { params = set d.params k p }

module _ {W : Type 0} (api : AdsApi W) (remote_net_id : List ℕ) (client : ℕ) (env : UpdateEnv) where
  open api use {read_state, read_device_info, state_run, state_invalid}

  unfoldable pub state_answered : ℕ × ℕ × W → AsynStatus × ℕ × W
  state_answered (status, state, w) =
      (if not (status == 0) then asyn_error else asyn_success, state, w)

  unfoldable pub ads_read_state : ℕ → W → AsynStatus × ℕ × W
  unfolding state_answered
  ads_read_state ams_port w =
      state_answered (read_state client (addr api remote_net_id client ams_port) w)

  unfoldable pub version_answered : AmsPortInfo → ℕ × String × AdsVersion × W → AmsPortInfo × W
  version_answered port (status, name, version, w) =
      if not (status == 0)
      then (port, w)
      else (record port { version = version; dev_name = name }, w)

  unfoldable pub ads_read_version : AmsPortInfo → W → AmsPortInfo × W
  unfolding version_answered
  ads_read_version port w =
      version_answered port
        (read_device_info client (addr api remote_net_id client port.ams_port) w)

  abbrev pub is_running : AsynStatus → ℕ → Bool
  is_running status state = not (failed status) && state == state_run

  -- The fields of the port that a reading of its state sets.
  unfoldable pub noted : AsynStatus → ℕ → AmsPortInfo → AmsPortInfo
  noted status state port = record port {
    ads_state_old = port.ads_state;
    ads_state = if failed status then state_invalid else state;
    connected_old = port.connected;
    connected = is_running status state;
    params_ok = is_running status state;
  }

  unfoldable pub refreshed : AmsPortInfo → Driver → W → Driver × W
  refreshed port d w =
      let (_, d', w') = refresh_params api remote_net_id client env port.ams_port d w in
      if port.connected && port.refresh_needed then (d', w') else (d, w)

  module _ {F : Type 0} (asyn : AsynApi F W) (alarms : AlarmCodes) (settings : Settings) where
    unfoldable pub marked_lost : ℕ → AmsPortInfo → Driver → W → Driver × W
    marked_lost i port d w =
        let (_, d') = invalidate_params d port.ams_port in
        let d'' = with_port i (λ p. record p { refresh_needed = true }) d' in
        let (_, ps, w') =
          set_alarm_port asyn port.ams_port settings.comm_alarm alarms.invalid_alarm d''.params w in
        (record d'' { params = ps }, w')

    unfoldable pub lost : ℕ → AmsPortInfo → Driver × W → Driver × W
    unfolding marked_lost
    lost i port (d, w) =
        if port.connected_old && not port.connected then marked_lost i port d w else (d, w)

    unfoldable pub version_read : ℕ → Driver → W → Driver × W
    version_read i d w = elim (get_elem? d.ports i) [
      | none ↦ (d, w)
      | some port ↦ let (port', w') = ads_read_version port w in (with_port i (λ _. port') d, w')
    ]

    unfoldable pub gained : ℕ → AmsPortInfo → Driver × W → Driver × W
    unfolding version_read
    gained i port (d, w) =
        if not port.connected_old && port.connected then version_read i d w else (d, w)

    -- The first loop's body for the port at `i`, with its reading; `port` is the port after it.
    unfoldable pub followed : ℕ → AmsPortInfo → Driver → W → Driver × W
    unfolding refreshed lost gained
    followed i port d w = gained i port (lost i port (refreshed port (with_port i (λ _. port) d) w))

    unfoldable pub check_port : ℕ → Driver → W → Bool × Driver × W
    unfolding followed noted
    check_port i d w = elim (get_elem? d.ports i) [
      | none ↦ (false, d, w)
      | some port ↦
          let (status, state, w') = ads_read_state port.ams_port w in
          let (d', w'') = followed i (noted status state port) d w' in
          (is_running status state, d', w'')
    ]

    -- The first loop, over the ports from `i` on: whether one of them is connected.
    unfoldable pub check_ports : ℕ → ℕ → Driver → W → Bool × Driver × W
    check_ports zero i d w = (false, d, w)
    check_ports (suc n) i d w =
        let (ok, d', w') = check_port i d w in
        let (any, d'', w'') = check_ports n (suc i) d' w' in (ok || any, d'', w'')

    module _ (fl : Floats F) (posix_at_epics : ℕ) where
      -- The state, of two bytes, goes to the parameter as a value from the PLC would.
      unfoldable pub state_posted : ℕ → ℕ → AdsParamInfo → Driver → Queue → W → Driver × Queue × W
      unfolding with_param
      state_posted state k p d q w =
          let (_, p', q', w') =
            ads_update_parameter fl asyn alarms posix_at_epics (le_bytes 2 state) q p w in
          if is_state_source p.data_source then (with_param k p' d, q', w') else (d, q, w)

      unfoldable pub report_port : AmsPortInfo → Driver → Queue → W → Driver × Queue × W
      unfolding state_posted
      report_port port d q w = elim port.param_info [
        | none ↦ (d, q, w)
        | some k ↦ elim (get_elem? d.params k) [
          | none ↦ (d, q, w)
          | some p ↦
              if not (port.ads_state_old == port.ads_state)
              then state_posted port.ads_state k p d q w
              else (d, q, w)
        ]
      ]

      -- The second loop.
      unfoldable pub report_ports : List AmsPortInfo → Driver → Queue → W → Driver × Queue × W
      unfolding report_port
      report_ports [] d q w = (d, q, w)
      report_ports (port ∷ ports) d q w =
          let (d', q', w') = report_port port d q w in report_ports ports d' q' w'

      module _ (base : BaseConnect W) where
        unfoldable pub routes : Cyclic → Routes
        routes c = record {
          route_added = c.route_added;
          ethercat_route_added = c.ethercat_route_added;
          connected_ads = c.driver.connected_ads;
        }

        unfoldable pub with_routes : Cyclic → Routes → Cyclic
        with_routes c r = record c {
          driver = record c.driver { connected_ads = r.connected_ads };
          route_added = r.route_added;
          ethercat_route_added = r.ethercat_route_added;
        }

        unfoldable pub reconnected : Cyclic → W → Cyclic × W
        unfolding routes with_routes
        reconnected c w =
            let (_, r, v) = disconnect api remote_net_id settings.ipaddr base (routes c) w in
            let (_, r', v') =
              connect api remote_net_id settings.ipaddr base settings.connect_client
                settings.timeout c.master r v in
            (with_routes c r', v')

        -- The test is `(counter & 2) == 2`.
        unfoldable pub connection_dropped : Cyclic → W → Cyclic × W
        unfolding reconnected
        connection_dropped c w =
            let dropped = record c { driver = record c.driver { connected_ads = false } } in
            if c.not_connected_counter / 2 % 2 == 1 then reconnected dropped w else (dropped, w)

        unfoldable pub counted : Bool → Cyclic → Cyclic
        counted ok c = record c {
          not_connected_counter = if ok then 0 else suc c.not_connected_counter;
        }

        unfoldable pub finished : Bool → Cyclic → W → Next × Cyclic × W
        unfolding connection_dropped
        finished ok c w =
            let (c', w') =
              if not ok && settings.auto_connect then connection_dropped c w else (c, w) in
            if ltb 1 c.not_connected_counter
            then (exited, c, w)
            else (continued, record c' { one_ams_connection_ok_old = ok }, w')

        -- The pass from the first loop on.
        unfoldable pub run_pass : Cyclic → W → Next × Cyclic × W
        unfolding check_ports report_ports counted finished
        run_pass c w =
            let (ok, d, w') = check_ports (length c.driver.ports) 0 c.driver w in
            let (d', q, w'') = report_ports d.ports d c.queue w' in
            finished ok (counted ok (record c { driver = d'; queue = q })) w''

        unfoldable pub cyclic_pass : Cyclic → W → Next × Cyclic × W
        unfolding run_pass
        cyclic_pass c w =
            if settings.stop_threads
            then (left, c, w)
            else if not settings.allow_callback_epics_state
            then (skipped, c, w)
            else run_pass c w
