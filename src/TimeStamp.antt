-- ===== src/TimeStamp.antt =====
-- adsApp/src/adsAsynPortDriverUtils.cpp, windowsToEpicsTimeStamp: the conversion of a PLC time
-- stamp (100 ns ticks since 1601) to EPICS time (seconds and nanoseconds since 1990).
-- `POSIX_TIME_AT_EPICS_EPOCH` is EPICS' constant (epicsTime.h), a parameter here. `uint64_t` and
-- `epicsUInt32` are numbers with their wrap-around written out.
use twincat_ads.Base.{
  ℕ, ◌+◌, ◌-◌, ◌*◌, ◌/◌, ◌%◌, ◌^◌, ◌≤◌, ◌<◌, ◌≡◌, refl, ap, Option, none, some, arith,
}

pub record EpicsTimeStamp : Type 0 where
  pub sec_past_epoch : ℕ
  pub nsec : ℕ

abbrev pub windows_tick_per_sec : ℕ
windows_tick_per_sec = 10000000

abbrev pub sec_to_unix_epoch : ℕ
sec_to_unix_epoch = 11644473600

abbrev pub u32 : ℕ → ℕ
u32 n = n % 2 ^ 32

abbrev pub u64 : ℕ → ℕ
u64 n = n % 2 ^ 64

-- The ticks from the EPICS epoch on: a subtraction of `uint64_t`.
pub ticks_since_epics : ℕ → ℕ → ℕ
ticks_since_epics posix_at_epics plc_time =
    u64 (plc_time + 2 ^ 64 - u64 ((posix_at_epics + sec_to_unix_epoch) * windows_tick_per_sec))

-- `secPastEpoch * WINDOWS_TICK_PER_SEC` is a product of 32-bit numbers, and wraps at 2 ^ 32; the
-- subtraction from `plcTime` and the product by 100 are done in 64 bits.
abbrev split_ticks : ℕ → EpicsTimeStamp
split_ticks t =
    let sec = u32 (t / windows_tick_per_sec) in
    record {
      sec_past_epoch = sec;
      nsec = u32 (u64 (u64 (t + 2 ^ 64 - u32 (sec * windows_tick_per_sec)) * 100));
    }

-- A null `ts` gives the error code 1 and writes nothing; otherwise the result is 0.
pub windows_to_epics_time_stamp : ℕ → ℕ → Option EpicsTimeStamp → ℕ × Option EpicsTimeStamp
unfolding ticks_since_epics
windows_to_epics_time_stamp posix_at_epics plc_time none = (1, none)
windows_to_epics_time_stamp posix_at_epics plc_time (some ts) =
    (0, some (split_ticks (ticks_since_epics posix_at_epics plc_time)))

-- The 32-bit product wraps by a multiple of 2 ^ 32, which the final cast drops again.
split_ticks-nsec : (t : ℕ) → (split_ticks t).nsec ≡ t % windows_tick_per_sec * 100
split_ticks-nsec t = omega arith

-- The tick that starts the EPICS epoch.
abbrev pub epics_epoch_tick : ℕ → ℕ
epics_epoch_tick posix_at_epics = (posix_at_epics + sec_to_unix_epoch) * windows_tick_per_sec

-- For every 64-bit time of the PLC that is not before the EPICS epoch, the conversion succeeds when
-- there is a place to write to: the nanoseconds are 100 times the ticks of the PLC's time beyond a full
-- second, below 10 ^ 9, although the code multiplies in 32 bits; the seconds are the full seconds since
-- the EPICS epoch, modulo 2 ^ 32.
pub windows_to_epics_exact :
    (posix_at_epics plc_time : ℕ) (ts : EpicsTimeStamp)
    → plc_time < 2 ^ 64
    → epics_epoch_tick posix_at_epics ≤ plc_time
    → (r : EpicsTimeStamp) × (windows_to_epics_time_stamp posix_at_epics plc_time (some ts)
        ≡ (0, some r))
      × (r.nsec ≡ plc_time % windows_tick_per_sec * 100)
      × (r.nsec < 10 ^ 9)
      × (r.sec_past_epoch
          ≡ (plc_time - epics_epoch_tick posix_at_epics) / windows_tick_per_sec % 2 ^ 32)
unfolding windows_to_epics_time_stamp
windows_to_epics_exact p plc ts h lo =
    let t = ticks_since_epics p plc in
    let no_wrap : t ≡ plc - epics_epoch_tick p = unfold ticks_since_epics in omega arith in
    (
      split_ticks t,
      refl,
      omega (arith, no_wrap, split_ticks-nsec t),
      omega (arith, split_ticks-nsec t),
      ap (λ u. u / windows_tick_per_sec % 2 ^ 32) no_wrap,
    )

-- A PLC time from the EPICS epoch on, less than 2 ^ 32 seconds after it, is not rounded: the seconds
-- and nanoseconds written give the PLC's tick count back.
pub windows_to_epics_roundtrip :
    (posix_at_epics plc_time : ℕ) (ts : EpicsTimeStamp)
    → plc_time < 2 ^ 64
    → epics_epoch_tick posix_at_epics ≤ plc_time
    → plc_time < epics_epoch_tick posix_at_epics + 2 ^ 32 * windows_tick_per_sec
    → (r : EpicsTimeStamp) × (windows_to_epics_time_stamp posix_at_epics plc_time (some ts)
        ≡ (0, some r))
      × (epics_epoch_tick posix_at_epics + r.sec_past_epoch * windows_tick_per_sec + r.nsec / 100
          ≡ plc_time)
unfolding windows_to_epics_time_stamp
windows_to_epics_roundtrip p plc ts h lo hi =
    let t = ticks_since_epics p plc in
    let no_wrap : t ≡ plc - epics_epoch_tick p = unfold ticks_since_epics in omega arith in
    (split_ticks t, refl, omega (arith, no_wrap, split_ticks-nsec t))
