-- ===== src/Bulk/Stamps.antt =====
-- adsApp/src/adsAsynPortDriver.cpp, adsFindBulkTimeStamp: the table `bulkTS` of time stamp handles.
use twincat_ads.Ads.{AdsApi}
use twincat_ads.Bulk.{
  BulkState, maxtsentry, find_stamp, refresh_stamp, add_stamp, ads_find_bulk_time_stamp,
}
use twincat_ads.Bulk.Layout.{search_from_bounds, search_from_hit, search_from_first}
use native.Mathlib.Decide.{dec_lt}
use twincat_ads.Base.{ℕ, suc, ◌≤◌, ◌<◌, ◌≡◌, refl, ◌∙◌, ◌≢◌, ◌⊎◌, inl, inr, List, arith, ◌==◌}

-- The used entries belong to different ports.
pub record IsOnePerPort (s : BulkState) : Type 0 where
  pub distinct :
      (i j : ℕ)
      → i < s.bulk_ts_cnt
      → j < s.bulk_ts_cnt
      → (s.bulk_ts i).ams_port ≡ (s.bulk_ts j).ams_port
      → i ≡ j

find_stamp-le : (ams_port : ℕ) (s : BulkState) → find_stamp ams_port s ≤ s.bulk_ts_cnt
unfolding find_stamp
find_stamp-le ams_port s =
    omega (arith, search_from_bounds s.bulk_ts_cnt (λ i. ams_port == (s.bulk_ts i).ams_port) 0)

find_stamp_known :
    (ams_port : ℕ) (s : BulkState)
    → find_stamp ams_port s < s.bulk_ts_cnt
    → (s.bulk_ts (find_stamp ams_port s)).ams_port ≡ ams_port
unfolding find_stamp
find_stamp_known ams_port s h =
    ground (
      arith,
      search_from_hit s.bulk_ts_cnt (λ i. ams_port == (s.bulk_ts i).ams_port) 0 (omega arith),
    )

find_stamp_before :
    (ams_port : ℕ) (s : BulkState) (j : ℕ)
    → j < find_stamp ams_port s
    → (s.bulk_ts j).ams_port ≢ ams_port
unfolding find_stamp
find_stamp_before ams_port s j h e = ground (
  arith,
  search_from_first s.bulk_ts_cnt (λ i. ams_port == (s.bulk_ts i).ams_port) 0 j (omega arith) h,
)

module _ {W : Type 0} (api : AdsApi W) (remote_net_id : List ℕ) (client : ℕ) where
  refresh_ports :
      (ams_port i : ℕ) (s : BulkState) (w : W) (j : ℕ)
      → let r = refresh_stamp api remote_net_id client ams_port i s w in
        (r.0 ≡ i)
        × (r.1.bulk_ts_cnt ≡ s.bulk_ts_cnt)
        × ((r.1.bulk_ts j).ams_port ≡ (s.bulk_ts j).ams_port)
  unfolding refresh_stamp
  refresh_ports ams_port i s w j = ground arith

  refresh-IsOnePerPort :
      (ams_port i : ℕ) (s : BulkState) (w : W)
      → IsOnePerPort s
      → IsOnePerPort (refresh_stamp api remote_net_id client ams_port i s w).1
  refresh-IsOnePerPort ams_port i s w h = record {
    distinct = λ a b ha hb e.
        ground
          (arith, h.distinct a b, refresh_ports ams_port i s w a, refresh_ports ams_port i s w b);
  }

  add_stamp-IsOnePerPort :
      (ams_port : ℕ) (s : BulkState)
      → IsOnePerPort s
      → ((j : ℕ) → j < s.bulk_ts_cnt → (s.bulk_ts j).ams_port ≢ ams_port)
      → IsOnePerPort (add_stamp ams_port s)
  unfolding add_stamp
  add_stamp-IsOnePerPort ams_port s h absent = record {
    distinct = λ a b ha hb e. ground (arith, h.distinct a b, absent a, absent b);
  }

  stamp_known :
      (ams_port : ℕ) (s : BulkState) (w : W)
      → find_stamp ams_port s < s.bulk_ts_cnt
      → ads_find_bulk_time_stamp api remote_net_id client ams_port s w
        ≡ refresh_stamp api remote_net_id client ams_port (find_stamp ams_port s) s w
  unfolding ads_find_bulk_time_stamp
  stamp_known ams_port s w h = ground arith

  stamp_missing :
      (ams_port : ℕ) (s : BulkState) (w : W)
      → find_stamp ams_port s ≡ s.bulk_ts_cnt
      → ads_find_bulk_time_stamp api remote_net_id client ams_port s w
        ≡ refresh_stamp api remote_net_id client ams_port s.bulk_ts_cnt (add_stamp ams_port s) w
  unfolding ads_find_bulk_time_stamp
  stamp_missing ams_port s w h = ground arith

  added :
      (ams_port : ℕ) (s : BulkState)
      → ((add_stamp ams_port s).bulk_ts_cnt ≡ suc s.bulk_ts_cnt)
        × (((add_stamp ams_port s).bulk_ts s.bulk_ts_cnt).ams_port ≡ ams_port)
  unfolding add_stamp
  added ams_port s = (refl, ground arith)

  -- The lookup of a port's time stamp entry answers an index of an entry for this port. The entries of
  -- different indices keep different ports, at most one entry is added, and it is added only if the
  -- port had none. The entry lies within the array as long as fewer than MAXTSENTRY entries were in use.
  pub ads_find_bulk_time_stamp-IsOnePerPort :
      (ams_port : ℕ) (s : BulkState) (w : W)
      → IsOnePerPort s
      → let (i, t, w') = ads_find_bulk_time_stamp api remote_net_id client ams_port s w in
        IsOnePerPort t
        × ((t.bulk_ts i).ams_port ≡ ams_port)
        × (i < t.bulk_ts_cnt)
        × ((t.bulk_ts_cnt ≡ s.bulk_ts_cnt)
            ⊎ ((i ≡ s.bulk_ts_cnt)
                × (t.bulk_ts_cnt ≡ suc s.bulk_ts_cnt)
                × ((j : ℕ) → j < s.bulk_ts_cnt → (s.bulk_ts j).ams_port ≢ ams_port)))
        × (s.bulk_ts_cnt < maxtsentry → i < maxtsentry)
  ads_find_bulk_time_stamp-IsOnePerPort ams_port s w h =
      elim (dec_lt (find_stamp ams_port s) s.bulk_ts_cnt) [
        | yes known ↦
            let i = find_stamp ams_port s in
            let r = refresh_ports ams_port i s w i in
            rw (stamp_known ams_port s w known) (
              refresh-IsOnePerPort ams_port i s w h,
              rw r.0 (r.2 ∙ find_stamp_known ams_port s known),
              omega (arith, r),
              inl r.1,
              λ lt. omega (arith, r),
            )
        | no missing ↦
            let n = s.bulk_ts_cnt in
            let at_end : find_stamp ams_port s ≡ n = omega (arith, find_stamp-le ams_port s) in
            let absent : (j : ℕ) → j < n → (s.bulk_ts j).ams_port ≢ ams_port =
              λ j lt. find_stamp_before ams_port s j (omega arith) in
            let t = add_stamp ams_port s in
            let r = refresh_ports ams_port n t w n in
            let a = added ams_port s in
            rw (stamp_missing ams_port s w at_end) (
              refresh-IsOnePerPort ams_port n t w (add_stamp-IsOnePerPort ams_port s h absent),
              rw r.0 (r.2 ∙ a.1),
              omega (arith, r, a),
              inr (r.0, r.1 ∙ a.0, absent),
              λ lt. omega (arith, r),
            )
      ]

  -- With MAXTSENTRY entries or more in use, a port that has none gets an index outside of `bulkTS`, and
  -- the count of used entries passes the array's size: there is no check.
  pub ads_find_bulk_time_stamp_overflow :
      (ams_port : ℕ) (s : BulkState) (w : W)
      → maxtsentry ≤ s.bulk_ts_cnt
      → ((j : ℕ) → j < s.bulk_ts_cnt → (s.bulk_ts j).ams_port ≢ ams_port)
      → let (i, t, w') = ads_find_bulk_time_stamp api remote_net_id client ams_port s w in
        (maxtsentry ≤ i) × (maxtsentry < t.bulk_ts_cnt)
  ads_find_bulk_time_stamp_overflow ams_port s w full absent =
      let n = s.bulk_ts_cnt in
      let at_end : find_stamp ams_port s ≡ n = elim (dec_lt (find_stamp ams_port s) n) [
        | yes known ↦
            absurd (absent (find_stamp ams_port s) known (find_stamp_known ams_port s known))
        | no missing ↦ omega (arith, find_stamp-le ams_port s)
      ] in
      let r = refresh_ports ams_port n (add_stamp ams_port s) w n in
      rw (stamp_missing ams_port s w at_end) (omega (arith, r), omega (arith, r, added ams_port s))
