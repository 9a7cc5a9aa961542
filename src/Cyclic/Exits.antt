-- ===== src/Cyclic/Exits.antt =====
-- adsApp/src/adsAsynPortDriver.cpp, cyclicThread: when the thread ends the process, and what it does
-- to the flag connectedAds_.
use twincat_ads.Ads.{AdsApi}
use twincat_ads.Asyn.{AsynApi, AlarmCodes}
use twincat_ads.Connection.{BaseConnect}
use twincat_ads.Transfer.Decode.{Floats}
use twincat_ads.Update.{UpdateEnv}
use twincat_ads.Update.Refresh.{Driver}
use twincat_ads.Cyclic.{
  Cyclic, Next, exited, continued, Settings, is_running, ads_read_state, check_port, check_ports,
  report_ports, connection_dropped, counted, finished, run_pass,
}
use twincat_ads.Base.{
  ℕ, zero, suc, ◌≤◌, ◌≡◌, refl, sym, ap, ◌∙◌, ◌⊎◌, ◌↔◌, inl, inr, Bool, true, false, not, ◌&&◌,
  List, length, get_elem?, Option-cases, arith,
}
use twincat_ads.Cyclic.Kept.{Kept, check_ports-Kept, report_ports-Kept}

module _ {F W : Type 0} (api : AdsApi W) (remote_net_id : List ℕ) (client : ℕ) (env : UpdateEnv)
    (asyn : AsynApi F W) (alarms : AlarmCodes) (settings : Settings) (fl : Floats F)
    (posix_at_epics : ℕ) (base : BaseConnect W) where
  -- What the first loop of a pass finds.
  abbrev pub finds_port : Cyclic → W → Bool
  finds_port c w =
      (check_ports api remote_net_id client env asyn alarms settings (length c.driver.ports) 0
        c.driver w).0

  abbrev pass : Cyclic → W → Next × Cyclic × W
  pass c w = run_pass api remote_net_id client env asyn alarms settings fl posix_at_epics base c w

  -- A pass that goes on, after which the counter and connectedAds_ are these.
  abbrev pub IsContinued : ℕ → Bool → Next × Cyclic × W → Type 0
  IsContinued n on (next, c, w) =
      (next ≡ continued) × (c.not_connected_counter ≡ n) × (c.driver.connected_ads ≡ on)

  finish_cases :
      (ok : Bool) (c : Cyclic) (w : W) (on : Bool)
      → c.not_connected_counter ≤ 1
      → c.driver.connected_ads ≡ on
      → let r =
          finished api remote_net_id client env asyn alarms settings fl posix_at_epics base ok
            (counted api remote_net_id client env asyn alarms settings fl posix_at_epics base ok c)
            w in
        ((ok ≡ true) × IsContinued 0 on r)
        ⊎ ((ok ≡ false)
            × (c.not_connected_counter ≡ 0)
            × IsContinued 1 (on && not settings.auto_connect) r)
        ⊎ ((ok ≡ false) × (c.not_connected_counter ≡ 1) × (r.0 ≡ exited))
  unfolding finished counted connection_dropped
  finish_cases true c w on le same = inl (refl, (refl, refl, same))
  finish_cases false c w on le same = ground (arith, le, same)

  pass_cases :
      (c : Cyclic) (w : W)
      → c.not_connected_counter ≤ 1
      → ((finds_port c w ≡ true) × IsContinued 0 c.driver.connected_ads (pass c w))
        ⊎ ((finds_port c w ≡ false)
            × (c.not_connected_counter ≡ 0)
            × IsContinued 1 (c.driver.connected_ads && not settings.auto_connect) (pass c w))
        ⊎ ((finds_port c w ≡ false) × (c.not_connected_counter ≡ 1) × ((pass c w).0 ≡ exited))
  unfolding run_pass
  pass_cases c w le =
      let n = length c.driver.ports in
      let (ok, d, w') =
        check_ports api remote_net_id client env asyn alarms settings n 0 c.driver w in
      let (e, q, w'') =
        report_ports api remote_net_id client env asyn alarms settings fl posix_at_epics d.ports d
          c.queue w' in
      let kept : Kept c.driver e =
        report_ports-Kept api remote_net_id client env asyn alarms settings fl posix_at_epics base
          d.ports d c.queue w'
        ∙ check_ports-Kept api remote_net_id client env asyn alarms settings n 0 c.driver w in
      finish_cases ok (record c { driver = e; queue = q }) w'' c.driver.connected_ads le kept

  -- A run of the thread from `c`: passes that go on, and between them what other threads do to the
  -- driver and the world, which neither changes the counter nor sets connectedAds_. The last index is
  -- what the last pass found.
  pub data Passes (c : Cyclic) (w : W) : Cyclic → W → Bool → Type 0 where
    start : Passes c w c w true
    passed :
        {d : Cyclic} {v : W} {b : Bool}
        → Passes c w d v b
        → (run_pass api remote_net_id client env asyn alarms settings fl posix_at_epics base d v).0
          ≡ continued
        → Passes c w
            (run_pass api remote_net_id client env asyn alarms settings fl posix_at_epics base d
              v).1
            (run_pass api remote_net_id client env asyn alarms settings fl posix_at_epics base d
              v).2
            (finds_port d v)
    others :
        {d : Cyclic} {v : W} {b : Bool}
        → Passes c w d v b
        → (e : Cyclic) (u : W) → e.not_connected_counter ≡ d.not_connected_counter
        → (d.driver.connected_ads ≡ false → e.driver.connected_ads ≡ false)
        → Passes c w e u b

  abbrev counter_of : Bool → ℕ
  counter_of true = 0
  counter_of false = 1

  after_pass :
      (c : Cyclic) (w : W)
      → c.not_connected_counter ≤ 1
      → (pass c w).0 ≡ continued
      → (pass c w).1.not_connected_counter ≡ counter_of (finds_port c w)
  after_pass c w le goes = elim (pass_cases c w le) [
    | inl (found, (_, n, _)) ↦ n ∙ sym (ap counter_of found)
    | inr (inl (lost_it, _, (_, n, _))) ↦ n ∙ sym (ap counter_of lost_it)
    | inr (inr (_, _, ends)) ↦ absurd (ground (arith, goes, ends))
  ]

  counter-le : (b : Bool) → counter_of b ≤ 1
  counter-le true = omega arith
  counter-le false = omega arith

  Passes-counter :
      {c : Cyclic} {w : W} {d : Cyclic} {v : W} {b : Bool}
      → c.not_connected_counter ≡ 0
      → Passes c w d v b
      → d.not_connected_counter ≡ counter_of b
  Passes-counter zero_at_start start = zero_at_start
  Passes-counter z (passed {d} {v} {b} r goes) =
      let n = Passes-counter z r in after_pass d v (rw n (counter-le b)) goes
  Passes-counter z (others r e u same on) = same ∙ Passes-counter z r

  exit_cases :
      (b : Bool) (c : Cyclic) (w : W)
      → c.not_connected_counter ≡ counter_of b
      → ((pass c w).0 ≡ exited) ↔ ((b ≡ false) × (finds_port c w ≡ false))
  exit_cases b c w n = elim (pass_cases c w (rw n (counter-le b))) [
    | inl (found, (next, _, _)) ↦ ground (arith, found, next)
    | inr (inl (none_found, n', (next, _, _))) ↦ ground (arith, none_found, n', next, n)
    | inr (inr (none_found, n', next)) ↦ ground (arith, none_found, n', next, n)
  ]

  none_runs :
      (n i : ℕ) (d : Driver) (w : W)
      → ((p : ℕ) (v : W)
          → let (status, state, _) = ads_read_state api remote_net_id client env p v in
            is_running api remote_net_id client env status state ≡ false)
      → (check_ports api remote_net_id client env asyn alarms settings n i d w).0 ≡ false
  unfolding check_ports check_port
  none_runs zero i d w dead = refl
  none_runs (suc n) i d w dead =
      let (ok, d', w') = check_port api remote_net_id client env asyn alarms settings i d w in
      let here : ok ≡ false = elim (Option-cases (get_elem? d.ports i)) [
        | inl e ↦ rw (check_port, e) refl
        | inr (port, e) ↦ rw (check_port, e) (dead port.ams_port w)
      ] in
      rw here (none_runs n (suc i) d' w' dead)

  -- Where no request for a state finds an ams port in the state RUN, the process ends within two passes:
  -- from a counter of 0 the first pass goes on, and the next one, whatever the other threads have done
  -- in between but for the counter, ends it.
  pub dead_plc-exited :
      ((p : ℕ) (v : W)
        → let (status, state, _) = ads_read_state api remote_net_id client env p v in
          is_running api remote_net_id client env status state ≡ false)
      → (c : Cyclic) (w : W) → c.not_connected_counter ≡ 0
      → let (next, d, v) =
          run_pass api remote_net_id client env asyn alarms settings fl posix_at_epics base c w in
        (next ≡ continued)
        × ((e : Cyclic) (u : W)
            → e.not_connected_counter ≡ d.not_connected_counter
            → (run_pass api remote_net_id client env asyn alarms settings fl posix_at_epics base e
                u).0
              ≡ exited)
  dead_plc-exited dead c w z =
      let lost_it = none_runs (length c.driver.ports) 0 c.driver w dead in
      elim (pass_cases c w (rw z (omega arith))) [
        | inl (found, _) ↦ absurd (ground (arith, found, lost_it))
        | inr (inl (_, _, (next, n, _))) ↦ (
          next,
          λ e u same.
              ((exit_cases false e u (same ∙ n)).1
                (refl, none_runs (length e.driver.ports) 0 e.driver u dead)),
        )
        | inr (inr (_, one, _)) ↦ absurd (ground (arith, one, z))
      ]

  pass_off :
      (c : Cyclic) (w : W)
      → c.not_connected_counter ≤ 1
      → c.driver.connected_ads ≡ false
      → (pass c w).0 ≡ continued
      → (pass c w).1.driver.connected_ads ≡ false
  pass_off c w le off goes = elim (pass_cases c w le) [
    | inl (_, (_, _, on)) ↦ on ∙ off
    | inr (inl (_, _, (_, _, on))) ↦ on ∙ ap (λ b. b && not settings.auto_connect) off
    | inr (inr (_, _, ends)) ↦ absurd (ground (arith, goes, ends))
  ]

  -- In a run of passes and of other threads' steps that starts with the counter at 0 and connectedAds_
  -- cleared, and in which no other thread sets connectedAds_, it is cleared after every pass, also where
  -- the pass has found a connected ams port again.
  pub unconnected_kept :
      {c : Cyclic} {w : W} {d : Cyclic} {v : W} {b : Bool}
      → c.not_connected_counter ≡ 0
      → c.driver.connected_ads ≡ false
      → Passes c w d v b
      → d.driver.connected_ads ≡ false
  unconnected_kept z off start = off
  unconnected_kept z off (passed {d} {v} {b} r goes) =
      pass_off d v (rw (Passes-counter z r) (counter-le b)) (unconnected_kept z off r) goes
  unconnected_kept z off (others r e u same kept) = kept (unconnected_kept z off r)
