-- ===== src/Examples/Bulks.antt =====
-- Examples of the table of bulk reads and of updates.
use twincat_ads.Bulk.{SumEntry, BulkReadInfo, BulkState, maxtsentry, ads_find_bulk_time_stamp}
use twincat_ads.Bulk.Layout.{IsLaidOut}
use twincat_ads.Bulk.Stamps.{IsOnePerPort, ads_find_bulk_time_stamp-IsOnePerPort}
use twincat_ads.Update.{UpdateEnv}
use twincat_ads.Examples.{a_plc, net_id}
use twincat_ads.Base.{ℕ, ◌+◌, ◌<◌, ◌≡◌, ◌≢◌, ◌⊎◌, inl, refl, true, false, [], arith}

abbrev pub no_request : SumEntry
no_request = record { i_group = 0; i_offset = 0; i_size = 0 }

abbrev pub unused : BulkReadInfo
unused = record { cnt = 0; ams_port = 0; sum = λ _. no_request; param_id = λ _. 0; read_size = 0 }

-- The first `n` entries of the time stamp table are for the ports 801, 802, ...
abbrev pub with_stamps : ℕ → BulkState
with_stamps n = record {
  bulk_ts =
      λ i. record { ams_port = 801 + i; i_handle_h = 1; i_handle_l = 2; refresh_needed = false };
  bulk_ts_cnt = n;
  overrun = false;
  bulk = λ _. unused;
}

with_stamps-IsOnePerPort : (n : ℕ) → IsOnePerPort (with_stamps n)
with_stamps-IsOnePerPort n = record { distinct = λ i j _ _ e. omega (arith, e) }

pub unused-IsLaidOut : IsLaidOut (with_stamps 3)
unused-IsLaidOut = record { intact = refl; entries = λ i. inl refl; in_order = λ i e. e }

ads_find_bulk_time_stamp-IsOnePerPort_example :
    let (i, t, w) = ads_find_bulk_time_stamp a_plc net_id 30000 851 (with_stamps 3) 0 in
    IsOnePerPort t
    × ((t.bulk_ts i).ams_port ≡ 851)
    × (i < t.bulk_ts_cnt)
    × ((t.bulk_ts_cnt ≡ 3) ⊎ ((i ≡ 3) × (t.bulk_ts_cnt ≡ 4) × ((j : ℕ) → j < 3 → 801 + j ≢ 851)))
    × (3 < maxtsentry → i < maxtsentry)
ads_find_bulk_time_stamp-IsOnePerPort_example =
    ads_find_bulk_time_stamp-IsOnePerPort a_plc net_id 30000 851 (with_stamps 3) 0
      (with_stamps-IsOnePerPort 3)

abbrev pub an_env : UpdateEnv
an_env = record {
  notify = record {
    ads_port = 30000;
    default_max_delay_ticks = 5000000;
    default_sample_ticks = 500000;
  };
  symbol_dict = [];
  to_lower = λ s. s;
  calloc_succeeds = λ _. true;
}
