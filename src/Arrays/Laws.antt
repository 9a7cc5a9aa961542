-- ===== src/Arrays/Laws.antt =====
-- adsApp/src/adsAsynPortDriver.cpp, the reads and writes of arrays, and their callbacks: what is read
-- back, and how many bytes are touched.
use twincat_ads.Ads.{AdsParamInfo, AdsApi}
use twincat_ads.Asyn.{AsynApi, AlarmCodes, set_alarm_param}
use twincat_ads.Asyn.Laws.{AlarmOnly, alarm_of, set_alarm_param-AlarmOnly}
use twincat_ads.EtherCat.{Master}
use twincat_ads.Notify.{resolve_access, resolve_symbolic, ensure_handle}
use twincat_ads.Transfer.{ads_write_param}
use twincat_ads.Transfer.Laws.{IsResolved, resolved, ads_write_param_success}
use twincat_ads.Transfer.Value.{overlay}
use twincat_ads.Transfer.Write.{fail_with_alarm}
use twincat_ads.Arrays.{
  is_allowed, bytes_to_write, array_copied, ads_generic_array_read, array_stored, array_written,
  ads_generic_array_write,
}
use twincat_ads.Base.{
  ℕ, ◌≤◌, ◌≡◌, refl, sym, ap, ◌∙◌, inl, inr, true, false, List, [], ◌∷◌, ◌++◌, some, AsynStatus,
  asyn_success, asyn_error, asyn_timeout, length, take, drop, take_all, ◌==◌, if◌then◌else◌,
  if-intro, Bool-cases, arith,
}

take-append : {A : Type 0} (xs ys : List A) → take (length xs) (xs ++ ys) ≡ xs
take-append [] ys = refl
take-append (x ∷ xs) ys = ap (◌∷◌ x) (take-append xs ys)

overlay_start :
    (n : ℕ) (new old : List ℕ) → length new ≡ n → take n (overlay (take n new) old) ≡ new
overlay_start n new old e =
    let whole : take n new ≡ new = take_all n new (omega (arith, e)) in
    rw (whole, ← e) (take-append new (drop (length new) old))

-- A parameter whose address and handle are known.
pub record IsReady (p : AdsParamInfo) : Type 0 where
  pub address : p.plc_abs_adr_valid ≡ true
  pub handle : p.symbolic_handle_valid ≡ true

module _ {F W : Type 0} (asyn : AsynApi F W) (alarms : AlarmCodes) (api : AdsApi W)
    (remote_net_id : List ℕ) (client : ℕ) where
  ready_resolved :
      (p : AdsParamInfo) (w : W)
      → IsReady p
      → resolve_access api remote_net_id client p w ≡ (asyn_success, p, w)
  unfolding resolve_access resolve_symbolic ensure_handle
  ready_resolved p w r = ground (arith, r.address, r.handle)

  resolved_ready :
      {p : AdsParamInfo} {m : Master} {w : W} {q : AdsParamInfo} {m' : Master} {w' : W}
      → IsReady p
      → IsResolved api remote_net_id client p m w q m' w'
      → q ≡ p
  resolved_ready {p} r (resolved m' q w' w'' e f) =
      ap (λ t. t.1) (sym f) ∙ ap (λ t. t.1) (ready_resolved p w' r)

  -- What a write that goes through does to the parameter, up to its alarm.
  array_written-success :
      (n : ℕ) (bytes : List ℕ) (status : AsynStatus) (q : AdsParamInfo) (m : Master) (w : W)
      → let (st, q', _, _) =
          array_written asyn alarms api remote_net_id client false n bytes (status, q, m, w) in
        st ≡ asyn_success
        → (status ≡ asyn_success)
          × AlarmOnly (array_stored asyn alarms api remote_net_id client false n bytes q) q'
  unfolding array_written fail_with_alarm
  array_written-success n bytes asyn_error q m w h = absurd (ground (arith, h))
  array_written-success n bytes asyn_timeout q m w h = absurd (ground (arith, h))
  array_written-success n bytes asyn_success q m w h =
      let s = array_stored asyn alarms api remote_net_id client false n bytes q in
      (
        refl,
        if-intro (λ (r : AsynStatus × AdsParamInfo × W). AlarmOnly s r.1)
            (s.alarm_status == alarms.write_alarm)
            {x = set_alarm_param asyn alarms.no_alarm alarms.no_alarm s w}
            {y = (asyn_success, s, w)}
            (λ _. set_alarm_param-AlarmOnly asyn s alarms.no_alarm alarms.no_alarm w)
            (λ _. alarm_of s.alarm_status s.alarm_severity),
      )

  stamp_kept : {p q : AdsParamInfo} → AlarmOnly p q → q.epics_timestamp ≡ p.epics_timestamp
  stamp_kept (alarm_of a s) = refl

  copied_back :
      (n : ℕ) (p : AdsParamInfo) (v : W)
      → let (st, r, _, _) = array_copied asyn alarms n p v in
        (st ≡ asyn_success)
        × (r
            ≡ some
                (record { bytes = take n p.array_data; n_in = n; timestamp = p.epics_timestamp }))
  unfolding array_copied
  copied_back n p v =
      let kept : AlarmOnly p
          (if p.alarm_status == alarms.read_alarm
            then set_alarm_param asyn alarms.no_alarm alarms.no_alarm p v
            else (asyn_success, p, v)).1 =
        if-intro (λ (r : AsynStatus × AdsParamInfo × W). AlarmOnly p r.1)
          (p.alarm_status == alarms.read_alarm)
          (λ _. set_alarm_param-AlarmOnly asyn p alarms.no_alarm alarms.no_alarm v)
          (λ _. alarm_of p.alarm_status p.alarm_severity) in
      (
        refl,
        ap (λ t. some (record { bytes = take n p.array_data; n_in = n; timestamp = t }))
            (stamp_kept kept),
      )

  read_as_copied :
      (type k n : ℕ) (q : AdsParamInfo) (v : W)
      → is_allowed type q ≡ true
      → q.array_data_buffer ≡ some k
      → ads_generic_array_read asyn alarms type false n q v
        ≡ array_copied asyn alarms (bytes_to_write n q) q v
  unfolding ads_generic_array_read
  read_as_copied type k n q v ok some_buffer = rw (ok, some_buffer) refl

  stored_lem :
      (n k : ℕ) (bytes : List ℕ) (p : AdsParamInfo)
      → p.array_data_buffer ≡ some k
      → array_stored asyn alarms api remote_net_id client false n bytes p
        ≡ record p { array_data = overlay (take n bytes) p.array_data }
  unfolding array_stored
  stored_lem n k bytes p e = rw e refl

  -- A read of what a write has stored.
  read_back :
      (type k : ℕ) (bytes : List ℕ) (p p' : AdsParamInfo) (v : W)
      → is_allowed type p ≡ true
      → p.array_data_buffer ≡ some k
      → length bytes ≤ p.plc_size
      → AlarmOnly (record p { array_data = overlay (take (length bytes) bytes) p.array_data }) p'
      → let (st, r, _, _) = ads_generic_array_read asyn alarms type false (length bytes) p' v in
        (st ≡ asyn_success)
        × (r ≡ some (record { bytes = bytes; n_in = length bytes; timestamp = p.epics_timestamp }))
  unfolding is_allowed
  read_back type k bytes p p' v ok some_buffer fits (alarm_of a s) =
      let small : bytes_to_write (length bytes) p' ≡ length bytes = ground (arith, fits) in
      let same : take (length bytes) p'.array_data ≡ bytes =
        overlay_start (length bytes) bytes p.array_data refl in
      rw (read_as_copied type k (length bytes) p' v ok some_buffer, small)
        (let (st, r) = copied_back (length bytes) p' v in
          (
            st,
            r
                ∙ ap
                    (λ b.
                      some
                        (record { bytes = b; n_in = length bytes; timestamp = p.epics_timestamp }))
                    same,
          ))

  ads_written-ready :
      (p : AdsParamInfo) (bytes : List ℕ) (m : Master) (w : W) (q : AdsParamInfo) (m' : Master)
      (w' : W)
      → IsReady p
      → ads_write_param api remote_net_id client false p bytes m w ≡ (asyn_success, q, m', w')
      → q ≡ p
  ads_written-ready p bytes m w q m' w' r h =
      let (_, access, _) = ads_write_param_success api remote_net_id client p bytes m w q m' w' h in
      resolved_ready r access

  write_allowed :
      (type : ℕ) (bytes : List ℕ) (p : AdsParamInfo) (m : Master) (w : W)
      → is_allowed type p ≡ true
      → length bytes ≤ p.plc_size
      → ads_generic_array_write asyn alarms api remote_net_id client false type bytes
          (length bytes)
          p
          m
          w
        ≡ array_written asyn alarms api remote_net_id client false
            (length bytes)
            bytes
            (ads_write_param api remote_net_id client false p bytes m w)
  unfolding ads_generic_array_write
  write_allowed type bytes p m w ok fits =
      let small : bytes_to_write (length bytes) p ≡ length bytes = ground (arith, fits) in
      rw (ok, small) refl

  -- An array that adsGenericArrayWrite has brought to the PLC is what adsGenericArrayRead gives
  -- back, from the parameter as the write has left it: where the address and the handle of the
  -- parameter are known, its array has a buffer, the bytes are not more than the parameter's size,
  -- and the write succeeds, a read of as many bytes as were written succeeds with these bytes,
  -- whatever became of the world in between.
  pub array-write-read :
      (type k : ℕ) (bytes : List ℕ) (p : AdsParamInfo) (m : Master) (w : W) (p' : AdsParamInfo)
      (m' : Master) (w' v : W)
      → IsReady p
      → p.array_data_buffer ≡ some k
      → length bytes ≤ p.plc_size
      → ads_generic_array_write asyn alarms api remote_net_id client false type bytes
          (length bytes)
          p
          m
          w
        ≡ (asyn_success, p', m', w')
      → let (st, r, _, _) = ads_generic_array_read asyn alarms type false (length bytes) p' v in
        (st ≡ asyn_success)
        × (r ≡ some (record { bytes = bytes; n_in = length bytes; timestamp = p.epics_timestamp }))
  unfolding ads_generic_array_write fail_with_alarm
  array-write-read type k bytes p m w p' m' w' v ready some_buffer fits h =
      elim (Bool-cases (is_allowed type p)) [
        | inr off ↦ absurd (ground (arith, h, off))
        | inl ok ↦
            let (status, q, m1, w1) = ads_write_param api remote_net_id client false p bytes m w in
            let done : array_written asyn alarms api remote_net_id client false (length bytes) bytes
                  (status, q, m1, w1)
                ≡ (asyn_success, p', m', w') =
              sym (write_allowed type bytes p m w ok fits) ∙ h in
            let (sent, only) =
              array_written-success (length bytes) bytes status q m1 w1 (ap (λ t. t.0) done) in
            let same : q ≡ p =
              ads_written-ready p bytes m w q m1 w1 ready (λ i. (sent i, q, m1, w1)) in
            let stored =
              ap (array_stored asyn alarms api remote_net_id client false (length bytes) bytes) same
              ∙ stored_lem (length bytes) k bytes p some_buffer in
            read_back type k bytes p p' v ok some_buffer fits
              (rw (← stored, ← ap (λ t. t.1) done) only)
      ]
