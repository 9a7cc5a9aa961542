-- ===== src/Update/Invalidate.antt =====
-- adsApp/src/adsAsynPortDriver.cpp, invalidateParams: what an invalidation of the parameters of a
-- port marks, in the table of bulk reads.
use twincat_ads.Ads.{AdsParamInfo}
use twincat_ads.Bulk.{BulkReadInfo, BulkState, maxbulk}
use twincat_ads.Bulk.Layout.{IsLaidOut}
use twincat_ads.Update.Refresh.{
  Driver, concerns, on_tail, invalidate_list, invalidate_stamps, invalidate_bulks,
  invalidate_params,
}
use native.Mathlib.Decide.{ℕ_discrete}
use twincat_ads.Base.{
  ℕ, zero, suc, ◌+◌, ◌-◌, List, [], ◌∷◌, get_elem?, Option, none, some, ◌≤◌, ◌<◌, ◌≡◌, ◌≢◌, refl,
  sym, ap, ◌∙◌, inl, inr, true, false, ◌==◌, ◌&&◌, Bool-cases, if◌then◌else◌, arith,
}

-- The entry as an invalidation of `ams_port` leaves it.
abbrev pub reset : ℕ → BulkReadInfo → BulkReadInfo
reset ams_port b = if concerns ams_port b.ams_port then record b { read_size = 16 } else b

abbrev reset_at : ℕ → ℕ → (ℕ → BulkReadInfo) → ℕ → BulkReadInfo
reset_at ams_port i bulk j =
    if i == j && concerns ams_port (bulk i).ams_port
    then record (bulk i) { read_size = 16 }
    else bulk j

reset_at_self :
    (ams_port i : ℕ) (bulk : ℕ → BulkReadInfo)
    → reset_at ams_port i bulk i ≡ reset ams_port (bulk i)
reset_at_self ams_port i bulk = ground arith

reset_at_ne :
    (ams_port i j : ℕ) (bulk : ℕ → BulkReadInfo) → i ≢ j → reset_at ams_port i bulk j ≡ bulk j
reset_at_ne ams_port i j bulk h = ground (arith, h)

before_kept :
    (n ams_port i : ℕ) (bulk : ℕ → BulkReadInfo) (j : ℕ)
    → j < i
    → invalidate_bulks n ams_port i bulk j ≡ bulk j
unfolding invalidate_bulks
before_kept zero ams_port i bulk j h = refl
before_kept (suc n) ams_port i bulk j h = elim (Bool-cases ((bulk i).cnt == 0)) [
  | inl e ↦ rw e refl
  | inr e ↦ rw e (
      before_kept n ams_port (suc i) (reset_at ams_port i bulk) j (omega arith)
      ∙ reset_at_ne ams_port i j bulk (omega arith))
]

used_reset :
    (n ams_port i : ℕ) (bulk : ℕ → BulkReadInfo) (j : ℕ)
    → i ≤ j
    → j < i + n
    → ((k : ℕ) → i ≤ k → k ≤ j → (bulk k).cnt ≢ 0)
    → invalidate_bulks n ams_port i bulk j ≡ reset ams_port (bulk j)
unfolding invalidate_bulks
used_reset zero ams_port i bulk j lo hi used = absurd (omega arith)
used_reset (suc n) ams_port i bulk j lo hi used = elim (Bool-cases ((bulk i).cnt == 0)) [
  | inl e ↦ absurd (used i (omega arith) lo (ground (arith, e)))
  | inr e ↦ elim (ℕ_discrete i j) [
    | yes same ↦
        let here : reset_at ams_port i bulk j ≡ reset ams_port (bulk j) =
          rw (← same) (reset_at_self ams_port i bulk) in
        rw e (before_kept n ams_port (suc i) (reset_at ams_port i bulk) j (omega arith) ∙ here)
    | no other ↦
        let later : i < j = omega arith in
        let still : (k : ℕ) → suc i ≤ k → k ≤ j → (reset_at ams_port i bulk k).cnt ≢ 0 = λ k a b z.
          used k (omega arith) b
            (sym (ap (λ r. r.cnt) (reset_at_ne ams_port i k bulk (omega arith))) ∙ z) in
        rw e (
          used_reset n ams_port (suc i) (reset_at ams_port i bulk) j later (omega arith) still
          ∙ ap (reset ams_port) (reset_at_ne ams_port i j bulk other))
  ]
]

abbrev map_option : (AdsParamInfo → AdsParamInfo) → Option AdsParamInfo → Option AdsParamInfo
map_option f none = none
map_option f (some p) = some (f p)

unused_after :
    (s : BulkState) → IsLaidOut s → (k d : ℕ) → (s.bulk k).cnt ≡ 0 → (s.bulk (d + k)).cnt ≡ 0
unused_after s l k zero h = let same : 0 + k ≡ k = omega arith in ap (λ i. (s.bulk i).cnt) same ∙ h
unused_after s l k (suc d) h =
    let next : suc d + k ≡ suc (d + k) = omega arith in
    ap (λ i. (s.bulk i).cnt) next ∙ l.in_order (d + k) (unused_after s l k d h)

used_before :
    (s : BulkState) → IsLaidOut s → (j k : ℕ) → (s.bulk j).cnt ≢ 0 → k ≤ j → (s.bulk k).cnt ≢ 0
used_before s l j k used le z =
    let split : j ≡ (j - k) + k = omega arith in
    used (ap (λ i. (s.bulk i).cnt) split ∙ unused_after s l k (j - k) z)

-- What the refresh flag of a parameter becomes.
abbrev pub marked : ℕ → AdsParamInfo → AdsParamInfo
marked ams_port p = record p {
  refresh_needed = if concerns ams_port p.ams_port then true else p.refresh_needed;
}

marked_at :
    (ams_port : ℕ) (ps : List AdsParamInfo) (i : ℕ) (p : AdsParamInfo)
    → get_elem? ps i ≡ some p
    → get_elem? (invalidate_list ams_port ps) i ≡ some (marked ams_port p)
unfolding invalidate_list
marked_at ams_port [] i p h = absurd (ground (arith, h))
marked_at ams_port (x ∷ xs) zero p h = ap (map_option (marked ams_port)) h
marked_at ams_port (x ∷ xs) (suc i) p h = marked_at ams_port xs i p h

pub tail_marked :
    (ams_port : ℕ) (ps : List AdsParamInfo) (i : ℕ) (p : AdsParamInfo)
    → get_elem? ps (suc i) ≡ some p
    → get_elem? (on_tail (invalidate_list ams_port) ps) (suc i) ≡ some (marked ams_port p)
tail_marked ams_port [] i p h = absurd (ground (arith, h))
tail_marked ams_port (x ∷ xs) i p h = marked_at ams_port xs i p h

stamp_marked :
    (ams_port : ℕ) (s : BulkState) (i : ℕ)
    → i < s.bulk_ts_cnt
    → concerns ams_port (s.bulk_ts i).ams_port ≡ true
    → (invalidate_stamps ams_port s i).refresh_needed ≡ true
unfolding invalidate_stamps
stamp_marked ams_port s i lt c = ground (arith, lt, c)

-- Of the parameters but the first, an invalidation of a port marks those of the port for a refresh,
-- and of the time stamps in use those of the port; port 0 stands for all ports. Where the table of bulk
-- reads is laid out, every entry in use for the port expects the time stamps alone in its next reply,
-- and every other entry in use is kept. Bulk reads are stopped.
pub invalidate_params_marks :
    (d : Driver) (ams_port : ℕ)
    → IsLaidOut d.bulks
    → let (status, e) = invalidate_params d ams_port in
      (e.bulk_ok ≡ false)
      × ((i : ℕ) (p : AdsParamInfo)
          → get_elem? d.params (suc i) ≡ some p
          → get_elem? e.params (suc i) ≡ some (marked ams_port p))
      × ((i : ℕ)
          → i < d.bulks.bulk_ts_cnt
          → concerns ams_port (d.bulks.bulk_ts i).ams_port ≡ true
          → (e.bulks.bulk_ts i).refresh_needed ≡ true)
      × ((j : ℕ)
          → j < maxbulk
          → (d.bulks.bulk j).cnt ≢ 0
          → e.bulks.bulk j ≡ reset ams_port (d.bulks.bulk j))
unfolding invalidate_params invalidate_stamps
invalidate_params_marks d ams_port l = (
  refl,
  λ i p h. tail_marked ams_port d.params i p h,
  λ i lt c. stamp_marked ams_port d.bulks i lt c,
  λ j lt used.
      used_reset maxbulk ams_port 0 d.bulks.bulk j (omega arith) lt
        (λ k a b. used_before d.bulks l j k used b),
)
