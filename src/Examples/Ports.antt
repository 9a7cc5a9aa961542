-- ===== src/Examples/Ports.antt =====
-- Examples of time stamps, client ports and the EtherCAT master.
use twincat_ads.Base.Int.{ℤ, pos, negsuc}
use twincat_ads.TimeStamp.{
  EpicsTimeStamp, windows_tick_per_sec, epics_epoch_tick, windows_to_epics_time_stamp,
  windows_to_epics_exact, windows_to_epics_roundtrip,
}
use twincat_ads.ClientPort.{PortMap, PortApi}
use twincat_ads.ClientPort.Owned.{PortContract}
use twincat_ads.ClientPort.History.{
  GuardEvent, construct, destroy, IsGuarded, run, idle, run-idle-IsGuarded,
}
use twincat_ads.Examples.{no_time}
use twincat_ads.Base.{
  ℕ, suc, ◌+◌, ◌-◌, ◌*◌, ◌/◌, ◌%◌, ◌^◌, ◌<◌, ◌≡◌, ◌≢◌, refl, ap, ◌∙◌, Bool, true, false, List, [],
  ◌∷◌, some, arith, ◌==◌, if◌then◌else◌,
}

windows_to_epics_exact_example :
    (r : EpicsTimeStamp) × (windows_to_epics_time_stamp 631152000 133_000_000_000_000_007
        (some no_time)
      ≡ (0, some r))
    × (r.nsec ≡ 133_000_000_000_000_007 % windows_tick_per_sec * 100)
    × (r.nsec < 10 ^ 9)
    × (r.sec_past_epoch
        ≡ (133_000_000_000_000_007 - epics_epoch_tick 631152000) / windows_tick_per_sec % 2 ^ 32)
windows_to_epics_exact_example =
    windows_to_epics_exact 631152000 133_000_000_000_000_007 no_time (omega arith) (omega arith)

windows_to_epics_roundtrip_example :
    (r : EpicsTimeStamp) × (windows_to_epics_time_stamp 631152000 133_000_000_000_000_007
        (some no_time)
      ≡ (0, some r))
    × (epics_epoch_tick 631152000 + r.sec_past_epoch * windows_tick_per_sec + r.nsec / 100
        ≡ 133_000_000_000_000_007)
windows_to_epics_roundtrip_example =
    windows_to_epics_roundtrip 631152000 133_000_000_000_000_007 no_time (omega arith) (omega arith)
      (omega arith)

-- Two threads have a port; the main thread is 0.
abbrev two_ports : PortMap
two_ports =
    (7, record { port = pos 30001; live_count = pos 1 })
    ∷ (0, record { port = pos 30000; live_count = pos 1 })
    ∷ []

-- A router with the number of ports it has given and those of them that it has closed.
abbrev Router : Type 0
Router = ℕ × (ℕ → Bool)

unfoldable close : ℤ → Router → ℕ × Router
close (pos m) (n, closed) =
    (if closed (m - 30000) then 0x748 else 0, (n, λ k. if 30000 + k == m then true else closed k))
close (negsuc m) w = (0x748, w)

-- Every opening gives the next port number; closing a port that is not open fails.
abbrev a_router : PortApi Router
a_router = record {
  ads_port_open_ex =
      λ (n, closed). (pos (30000 + n), (suc n, λ k. if k == n then false else closed k));
  ads_port_close_ex = close;
}

abbrev no_ports : Router
no_ports = (0, λ k. false)

abbrev some_guards : List GuardEvent
some_guards = construct 7 ∷ construct 8 ∷ construct 7 ∷ destroy 7 ∷ destroy 8 ∷ []

unfoldable IsOpen : ℤ → Router → Type 0
IsOpen p (n, closed) = (k : ℕ) × (p ≡ pos (30000 + k)) × (k < n) × (closed k ≡ false)

close_others : (p q : ℤ) (w : Router) → IsOpen q w → q ≢ p → IsOpen q (close p w).1
unfolding IsOpen close
close_others (pos m) q (n, closed) (k, e, lt, o) other =
    let apart : 30000 + k ≢ m = λ same. other (e ∙ ap pos same) in
    (k, e, lt, ground (arith, o, apart))
close_others (negsuc m) q w open_port other = open_port

a_router-contract : PortContract a_router IsOpen
unfolding IsOpen close
a_router-contract = record {
  opens = λ (n, closed) _. (n, refl, omega arith, ground arith);
  fresh = λ q (n, closed) _ (k, e, lt, o) same. ground (arith, e, same, lt);
  open_kept = λ q (n, closed) (k, e, lt, o). (k, e, omega (arith, lt), ground (arith, o, lt));
  closes = λ p (n, closed) (k, e, lt, o). rw e (ground (arith, o));
  close_kept = close_others;
}

run-idle-IsGuarded_example :
    IsGuarded a_router IsOpen (run a_router (idle a_router no_ports) some_guards)
run-idle-IsGuarded_example = run-idle-IsGuarded a_router a_router-contract some_guards no_ports
