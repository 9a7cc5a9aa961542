-- ===== src/Update/Outcome.antt =====
-- adsApp/src/adsAsynPortDriver.cpp, updateParamInfoWithPLCInfo: what an update of a parameter's PLC
-- information leaves behind, on success and on error.
use twincat_ads.Ads.{AdsParamInfo, plc, AdsApi}
use twincat_ads.Symbol.{
  ads_get_sym_info_by_name, ads_get_sym_handle_by_name, ads_release_symbolic_handle,
}
use twincat_ads.Notify.{
  NotifyConfig, request_notification, resolve_access, ads_add_data_callback, ads_del_data_callback,
}
use twincat_ads.Bulk.{allocate, append_param, fill_slot, BulkState, ads_add_to_bulk_read}
use twincat_ads.Update.{
  UpdateEnv, finish, after_handle, after_array, after_info, AdsSymbolDictEntry, dict_entry,
  fill_from_dict, set_array, fetch_info, fetch_handle, connect_input, update_plc_data,
  update_param_info_with_plc_info,
}
use twincat_ads.Base.{
  ℕ, ◌≡◌, refl, ◌∙◌, ◌⊎◌, inl, inr, Bool, true, false, List, Option, none, some, AsynStatus,
  asyn_success, asyn_error, asyn_timeout, arith,
}

-- What no step of an update changes, but for the refresh flag at its end.
pub record Keeps (p q : AdsParamInfo) : Type 0 where
  pub refresh : q.refresh_needed ≡ p.refresh_needed
  pub adr : q.is_adr_command ≡ p.is_adr_command
  pub intr : q.is_io_intr ≡ p.is_io_intr
  pub bulk : q.is_bulk_read ≡ p.is_bulk_read
  pub ams : q.ams_port ≡ p.ams_port
  pub index : q.param_index ≡ p.param_index

-- A valid handle stays valid.
abbrev Holds : AdsParamInfo → AdsParamInfo → Type 0
Holds p q = p.symbolic_handle_valid ≡ true → q.symbolic_handle_valid ≡ true

Keeps-trans : {p q r : AdsParamInfo} → Keeps p q → Keeps q r → Keeps p r
Keeps-trans a b = record {
  refresh = b.refresh ∙ a.refresh;
  adr = b.adr ∙ a.adr;
  intr = b.intr ∙ a.intr;
  bulk = b.bulk ∙ a.bulk;
  ams = b.ams ∙ a.ams;
  index = b.index ∙ a.index;
}

set_array-Keeps :
    (env : UpdateEnv) (p : AdsParamInfo) → let q = (set_array env p).1 in Keeps p q × Holds p q
unfolding set_array
set_array-Keeps env p = ground arith

module _ {W : Type 0} (api : AdsApi W) (remote_net_id : List ℕ) (client : ℕ) where
  info-Keeps :
      (p : AdsParamInfo) (w : W)
      → let q = (ads_get_sym_info_by_name api remote_net_id client p w).1 in Keeps p q × Holds p q
  unfolding ads_get_sym_info_by_name
  info-Keeps p w = ground arith

  handle-Keeps :
      (p : AdsParamInfo) (w : W)
      → let r = ads_get_sym_handle_by_name api remote_net_id client p w in
        Keeps p r.1 × Holds p r.1 × (r.0 ≡ asyn_success → r.1.symbolic_handle_valid ≡ true)
  unfolding ads_get_sym_handle_by_name
  handle-Keeps p w = ground arith

  release-Keeps :
      (p : AdsParamInfo) (b : Bool) (w : W)
      → Keeps p (ads_release_symbolic_handle api remote_net_id client p b w).1
  unfolding ads_release_symbolic_handle
  release-Keeps p b w = ground arith

  resolve-Keeps :
      (p : AdsParamInfo) (w : W)
      → let q = (resolve_access api remote_net_id client p w).1 in Keeps p q × Holds p q
  unfolding resolve_access
  resolve-Keeps p w = ground (
    arith,
    info-Keeps p w,
    handle-Keeps p w,
    handle-Keeps (ads_get_sym_info_by_name api remote_net_id client p w).1
        (ads_get_sym_info_by_name api remote_net_id client p w).2,
  )

  del-Keeps :
      (p : AdsParamInfo) (b : Bool) (w : W)
      → let q = (ads_del_data_callback api remote_net_id client p b w).1 in Keeps p q × Holds p q
  unfolding ads_del_data_callback
  del-Keeps p b w = ground arith

  request-Keeps :
      (c : NotifyConfig) (p : AdsParamInfo) (st : AsynStatus) (w : W)
      → let r = request_notification api remote_net_id client c (st, p, w) in
        Keeps p r.1 × Holds p r.1 × (r.0 ≡ asyn_success → r.1.callback_notify_valid ≡ true)
  unfolding request_notification
  request-Keeps c p st w = ground arith

  add-Keeps :
      (c : NotifyConfig) (p : AdsParamInfo) (w : W)
      → let r = ads_add_data_callback api remote_net_id client c p w in
        Keeps p r.1 × Holds p r.1 × (r.0 ≡ asyn_success → r.1.callback_notify_valid ≡ true)
  unfolding ads_add_data_callback
  add-Keeps c p w =
      let p0 = record p { callback_notify_valid = false } in
      let a = resolve-Keeps p0 w in
      let (st, q, w') = resolve_access api remote_net_id client p0 w in
      let b = request-Keeps c q st w' in
      let start : Keeps p p0 = record {
        refresh = refl;
        adr = refl;
        intr = refl;
        bulk = refl;
        ams = refl;
        index = refl;
      } in
      (Keeps-trans start (Keeps-trans a.0 b.0), λ h. b.1 (a.1 h), b.2)

  bulk-Keeps :
      (p : AdsParamInfo) (s : BulkState) (w : W)
      → let q = (ads_add_to_bulk_read api remote_net_id client p s w).1 in Keeps p q × Holds p q
  unfolding ads_add_to_bulk_read allocate append_param fill_slot
  bulk-Keeps p s w = ground arith

-- The result `st` of an update of `p`, with `q` the parameter afterwards. On success it needs no
-- refresh, a symbolic one has a valid handle, and an input that is not read in bulk has a valid
-- notification. On error its need of a refresh is as before. Its index is as before.
abbrev pub IsOutcome : AsynStatus → AdsParamInfo → AdsParamInfo → Type 0
IsOutcome st p q =
    ((st ≡ asyn_success)
      × (q.refresh_needed ≡ false)
      × (p.is_adr_command ≡ false → q.symbolic_handle_valid ≡ true)
      × (p.is_io_intr ≡ true → p.is_bulk_read ≡ false → q.callback_notify_valid ≡ true)
      × (q.param_index ≡ p.param_index))
    ⊎ ((st ≡ asyn_error) × (q.refresh_needed ≡ p.refresh_needed) × (q.param_index ≡ p.param_index))

module _ {W : Type 0} (api : AdsApi W) (remote_net_id : List ℕ) (client : ℕ) (env : UpdateEnv) where
  -- After the handle stage a symbolic parameter has a valid handle.
  fetched-Keeps :
      (d : Option AdsSymbolDictEntry) (p : AdsParamInfo) (w : W)
      → let r = fetch_info api remote_net_id client env d p w in Keeps p r.1
  unfolding fetch_info fill_from_dict
  fetched-Keeps (some e) p w = ground arith
  fetched-Keeps none p w = ground (arith, info-Keeps api remote_net_id client p w)

  fetched_handle :
      (e : AdsSymbolDictEntry) (p : AdsParamInfo) (w : W)
      → (fetch_info api remote_net_id client env (some e) p w).1.symbolic_handle_valid ≡ true
  unfolding fetch_info fill_from_dict
  fetched_handle e p w = ground arith

  renewed-Keeps :
      (p : AdsParamInfo) (w : W)
      → let r = fetch_handle api remote_net_id client env none p w in
        Keeps p r.1
        × (r.0 ≡ asyn_success → p.is_adr_command ≡ false → r.1.symbolic_handle_valid ≡ true)
  unfolding fetch_handle
  renewed-Keeps p w =
      let (st, q, w') = ads_release_symbolic_handle api remote_net_id client p true w in
      let a = release-Keeps api remote_net_id client p true w in
      let b = handle-Keeps api remote_net_id client q w' in ground (arith, a, b)

  connected-Keeps :
      (p : AdsParamInfo) (s : BulkState) (w : W)
      → let r = connect_input api remote_net_id client env p s w in
        Keeps p r.1
        × Holds p r.1
        × (r.0 ≡ asyn_success
            → p.is_io_intr ≡ true
            → p.is_bulk_read ≡ false
            → r.1.callback_notify_valid ≡ true)
  unfolding connect_input
  connected-Keeps p s w =
      let (st, q, w') = ads_del_data_callback api remote_net_id client p true w in
      ground (
        arith,
        del-Keeps api remote_net_id client p true w,
        add-Keeps api remote_net_id client env.notify q w',
        bulk-Keeps api remote_net_id client p s w,
      )

  finish-IsOutcome :
      (p q : AdsParamInfo) (st : AsynStatus) (s : BulkState) (w : W)
      → Keeps p q
      → (st ≡ asyn_success → p.is_adr_command ≡ false → q.symbolic_handle_valid ≡ true)
      → (st ≡ asyn_success
          → p.is_io_intr ≡ true
          → p.is_bulk_read ≡ false
          → q.callback_notify_valid ≡ true)
      → let r = finish api remote_net_id client env (st, q, s, w) in IsOutcome r.0 p r.1
  unfolding finish
  finish-IsOutcome p q asyn_success s w k h c = inl (refl, refl, h refl, c refl, k.index)
  finish-IsOutcome p q asyn_error s w k h c = inr (refl, k.refresh, k.index)
  finish-IsOutcome p q asyn_timeout s w k h c = inr (refl, k.refresh, k.index)

  handle-IsOutcome :
      (p q : AdsParamInfo) (st : AsynStatus) (s : BulkState) (w : W)
      → Keeps p q
      → (st ≡ asyn_success → p.is_adr_command ≡ false → q.symbolic_handle_valid ≡ true)
      → let r = after_handle api remote_net_id client env s (st, q, w) in IsOutcome r.0 p r.1
  unfolding after_handle
  handle-IsOutcome p q asyn_success s w k h =
      let (st, x, t, v) = connect_input api remote_net_id client env q s w in
      let (kc, hc, cc_valid) = connected-Keeps q s w in
      finish-IsOutcome p x st t v (Keeps-trans k kc) (λ e a. hc (h refl a))
        (λ e a b. cc_valid e (k.intr ∙ a) (k.bulk ∙ b))
  handle-IsOutcome p q asyn_error s w k h = inr (refl, k.refresh, k.index)
  handle-IsOutcome p q asyn_timeout s w k h = inr (refl, k.refresh, k.index)

  array-IsOutcome :
      (p q : AdsParamInfo) (d : Option AdsSymbolDictEntry) (st : AsynStatus) (s : BulkState) (w : W)
      → Keeps p q
      → ((e : AdsSymbolDictEntry) → d ≡ some e → q.symbolic_handle_valid ≡ true)
      → let r = after_array api remote_net_id client env d s w (st, q) in IsOutcome r.0 p r.1
  unfolding after_array fetch_handle
  array-IsOutcome p q (some e) asyn_success s w k h =
      handle-IsOutcome p q asyn_success s w k (λ _ _. h e refl)
  array-IsOutcome p q none asyn_success s w k h =
      let (st, x, v) = fetch_handle api remote_net_id client env none q w in
      let (kr, hr) = renewed-Keeps q w in
      handle-IsOutcome p x st s v (Keeps-trans k kr) (λ e a. hr e (k.adr ∙ a))
  array-IsOutcome p q d asyn_error s w k h = inr (refl, k.refresh, k.index)
  array-IsOutcome p q d asyn_timeout s w k h = inr (refl, k.refresh, k.index)

  info-IsOutcome :
      (p q : AdsParamInfo) (d : Option AdsSymbolDictEntry) (st : AsynStatus) (s : BulkState) (w : W)
      → Keeps p q
      → ((e : AdsSymbolDictEntry) → d ≡ some e → q.symbolic_handle_valid ≡ true)
      → let r = after_info api remote_net_id client env d s (st, q, w) in IsOutcome r.0 p r.1
  unfolding after_info
  info-IsOutcome p q d asyn_success s w k h =
      let (st, x) = set_array env q in
      let (ka, ha) = set_array-Keeps env q in
      array-IsOutcome p x d st s w (Keeps-trans k ka) (λ e eq. ha (h e eq))
  info-IsOutcome p q d asyn_error s w k h = inr (refl, k.refresh, k.index)
  info-IsOutcome p q d asyn_timeout s w k h = inr (refl, k.refresh, k.index)

  pub update_param_info-IsOutcome :
      (p : AdsParamInfo) (s : BulkState) (w : W)
      → p.data_source ≡ plc
      → let r = update_param_info_with_plc_info api remote_net_id client env p s w in
        IsOutcome r.0 p r.1
  unfolding update_param_info_with_plc_info update_plc_data
  update_param_info-IsOutcome p s w e =
      rw (e, update_param_info_with_plc_info)
        (let d = dict_entry env p in
          let (st, q, v) = fetch_info api remote_net_id client env d p w in
          info-IsOutcome p q d st s v (fetched-Keeps d p w) (λ x eq. rw eq (fetched_handle x p w)))
