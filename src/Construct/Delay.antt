-- ===== src/Construct/Delay.antt =====
-- adsApp/src/adsAsynPortDriver.cpp: the times that adsAsynPortDriverConfigure gives the constructor, and
-- the delay between the bulk reads.
use twincat_ads.Base.Int.{ℤ, pos, negsuc}
use twincat_ads.Construct.{Arguments, time_or, configured_arguments, bulk_delay}
use twincat_ads.Bulk.{is_negative}
use text.Mathlib.Text.{◌==◌ as str_eq}
use twincat_ads.Base.{
  ℕ, ◌*◌, ◌≤◌, ◌≡◌, refl, false, String, Option, none, some, if-intro, ltb, ◌||◌, Bool-cases, inl,
  inr, arith,
}

-- None of the times is negative.
abbrev pub HasTimes : Option Arguments → Type 0
HasTimes none = Unit
HasTimes (some a) =
    (is_negative a.default_sample_time_ms ≡ false)
    × (is_negative a.max_delay_time_ms ≡ false)
    × (is_negative a.ads_timeout_ms ≡ false)

time_or-is_negative : (time : ℤ) (default : ℕ) → is_negative (time_or time default) ≡ false
unfolding time_or
time_or-is_negative (pos n) default = refl
time_or-is_negative (negsuc n) default = refl

-- The arguments that the constructor gets have no negative time.
pub configured_arguments-HasTimes :
    (name ip ams : Option String) (source : ℤ) (a : Arguments)
    → HasTimes (configured_arguments name ip ams source a)
unfolding configured_arguments
configured_arguments-HasTimes none ip ams source a = tt
configured_arguments-HasTimes (some name) none ams source a = tt
configured_arguments-HasTimes (some name) (some ip) none source a = tt
configured_arguments-HasTimes (some name) (some ip) (some ams) source a =
    if-intro HasTimes (str_eq name "" || str_eq name "-h") (λ _. tt)
      (λ _. (
        time_or-is_negative a.default_sample_time_ms 100,
        time_or-is_negative a.max_delay_time_ms 500,
        time_or-is_negative a.ads_timeout_ms 2000,
      ))

-- The delay is at least a second for sample times up to 2147483 ms, the largest whose microseconds an
-- `int` holds.
pub bulk_delay-second :
    (n : ℕ) → n ≤ 2147483 → (d : ℕ) × (bulk_delay (pos n) ≡ pos d) × (1000000 ≤ d)
unfolding bulk_delay
bulk_delay-second n fits = elim (Bool-cases (ltb n 1000)) [
  | inl short ↦ (1000000, rw short refl, ground arith)
  | inr long ↦ (n * 1000, ground (arith, long, fits), ground (arith, long))
]
