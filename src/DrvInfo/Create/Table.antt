-- ===== src/DrvInfo/Create/Table.antt =====
-- adsApp/src/adsAsynPortDriver.cpp, drvUserCreate: what a call does to the table of parameters and to
-- the map of their texts.
use twincat_ads.Ads.{AdsParamInfo, AmsPortInfo, AdsDataSource, plc, ams_state, AsynParamType}
use twincat_ads.Update.Outcome.{IsOutcome, update_param_info-IsOutcome}
use twincat_ads.DrvInfo.Create.{
  Creation, CreateEnv, Created, is_created, is_in_plc, symbols_resolved, base_created,
  created_updated, connection_tried, param_added, after_get_address, set_default,
  after_create_param, after_record_info, after_parse, with_parsed, param_created, drv_user_create,
}
use twincat_ads.DrvInfo.Parse.{ParsedInfo, parse_plc_info_from_drv_info}
use twincat_ads.DrvInfo.Records.{get_record_info_from_drv_info}
use twincat_ads.DrvInfo.{validate_drv_info}
use twincat_ads.Base.Int.{negsuc}
use twincat_ads.Update.{update_param_info_with_plc_info}
use twincat_ads.Upload.{resolve_symbol_info}
use twincat_ads.Base.{
  ℕ, suc, ◌-◌, ◌<◌, ◌≡◌, refl, ap, sym, ◌∙◌, ◌⊎◌, inl, inr, true, false, List, [], ◌∷◌, ◌++◌,
  AsynStatus, failed, asyn_error, leb, ◌==◌, if◌then◌else◌, length, set, not, ◌&&◌, if-intro, arith,
}

set_last {ℓ} :
    {A : Type ℓ} (xs : List A) (x y : A) → set (xs ++ x ∷ []) (length xs) y ≡ xs ++ y ∷ []
set_last [] x y = refl
set_last (z ∷ xs) x y = ap (◌∷◌ z) (set_last xs x y)

in_plc-plc : (d : AdsDataSource) → is_in_plc d ≡ true → d ≡ plc
in_plc-plc plc h = refl
in_plc-plc ams_state h = absurd (ground (arith, h))

outcome-index :
    (st : AsynStatus) (p q : AdsParamInfo) → IsOutcome st p q → q.param_index ≡ p.param_index
outcome-index st p q (inl (_, _, _, _, index)) = index
outcome-index st p q (inr (_, _, index)) = index

module _ {F W : Type 0} (env : CreateEnv F W) where
  -- The parameters and texts of `s` are as they were, and the call failed or the text was known.
  abbrev Kept : List ℕ → Creation F → Created env → Type 0
  Kept t s r =
      (r.1.params ≡ s.params)
      × (r.1.created ≡ s.created)
      × ((failed r.0 ≡ true) ⊎ (is_created t s.created ≡ true))

  -- createParam has succeeded for the text, with this index.
  abbrev pub Made : List ℕ → ℕ → Type 0
  Made t index =
      (type : AsynParamType) × (w : W) × (failed (env.base.create_param t type w).0 ≡ false)
      × ((env.base.create_param t type w).1 ≡ index)

  -- They have one more, the parameter and the text with the index that createParam has given.
  abbrev Added : List ℕ → Creation F → Created env → Type 0
  Added t s r =
      (p : AdsParamInfo) × (index : ℕ) × (r.1.params ≡ s.params ++ p ∷ [])
      × (r.1.created ≡ s.created ++ (t, index) ∷ [])
      × (p.param_index ≡ index)
      × Made t index

  -- `s` is the state before, and `s'` that with the parameter `p` at its end.
  updated-Added :
      (t : List ℕ) (index : ℕ) (p : AdsParamInfo) (s s' : Creation F) (w : W)
      → s'.params ≡ s.params ++ p ∷ []
      → s'.created ≡ s.created ++ (t, index) ∷ []
      → p.param_index ≡ index
      → Made t index
      → Added t s (created_updated env t (length s.params) p s' w)
  unfolding created_updated base_created
  updated-Added t index p s s' w params created own made =
      let with_dict = record env.update { symbol_dict = s'.symbol_dict } in
      let (status, q, bulks, w') =
        update_param_info_with_plc_info env.api env.remote_net_id env.client with_dict p s'.bulks
          w in
      let stored : set s'.params (length s.params) q ≡ s.params ++ q ∷ [] =
        ap (λ xs. set xs (length s.params) q) params ∙ set_last s.params p q in
      if-intro (Added t s) (s'.routes.connected_ads && is_in_plc p.data_source)
        (λ in_plc.
          let source : p.data_source ≡ plc = in_plc-plc p.data_source (ground (arith, in_plc)) in
          let kept : q.param_index ≡ index =
            outcome-index status p q (
              update_param_info-IsOutcome env.api env.remote_net_id env.client with_dict p s'.bulks
                w source)
            ∙ own in
          if-intro (Added t s) (failed status) (λ _. (q, index, stored, created, kept, made))
            (λ _. (q, index, stored, created, kept, made)))
        (λ _. (p, index, params, created, own, made))

  tried-keeps :
      (s : Creation F) (w : W)
      → ((connection_tried env s w).0.params ≡ s.params)
        × ((connection_tried env s w).0.created ≡ s.created)
  unfolding connection_tried
  tried-keeps s w =
      if-intro (λ (r : Creation F × W). (r.0.params ≡ s.params) × (r.0.created ≡ s.created))
        s.routes.connected_ads (λ _. (refl, refl)) (λ _. (refl, refl))

  -- Either outcome, of a text that is not known.
  abbrev Outcome : List ℕ → Creation F → Created env → Type 0
  Outcome t s r = Kept t s r ⊎ Added t s r

  get_address-Outcome :
      (t : List ℕ) (index : ℕ) (p : AdsParamInfo) (s : Creation F) (status : AsynStatus) (w : W)
      → p.param_index ≡ index
      → Made t index
      → Outcome t s (after_get_address env t index p s (status, w))
  unfolding after_get_address param_added
  get_address-Outcome t index p s status w own made =
      let all = param_added env t index p s in
      let (params, created) = tried-keeps all w in
      if-intro (Outcome t s) (failed status) (λ bad. inl (refl, refl, inl bad))
        (λ _. inr (
          updated-Added t index p s (connection_tried env all w).0 (connection_tried env all w).1
            params created own made))

  create_param-Outcome :
      (t : List ℕ) (p : AdsParamInfo) (s : Creation F) (status : AsynStatus) (index : ℕ) (w : W)
      → (failed status ≡ false → Made t index)
      → Outcome t s (after_create_param env t p s (status, index, w))
  unfolding after_create_param
  create_param-Outcome t p s status index w made =
      let address = env.base.get_address (set_default env p index w) in
      if-intro (Outcome t s) (failed status) (λ _. inl (refl, refl, inl refl))
        (λ ok.
          get_address-Outcome t index (record p { param_index = index }) s address.0 address.1 refl
            (made ok))

  record_info-Outcome :
      (t : List ℕ) (s : Creation F) (w : W) (status : AsynStatus) (p : AdsParamInfo)
      → Outcome t s (after_record_info env t s w (status, p))
  unfolding after_record_info
  record_info-Outcome t s w status p =
      let made = env.base.create_param t p.asyn_type w in
      if-intro (Outcome t s) (failed status) (λ _. inl (refl, refl, inl refl))
        (λ _.
          create_param-Outcome t p (record s { spare = p }) made.0 made.1 made.2
            λ ok. (p.asyn_type, w, ok, refl))

  parse-Outcome :
      (t : List ℕ) (p : AdsParamInfo) (s : Creation F) (w : W) (status : AsynStatus)
      (parsed : ParsedInfo F) (ports : List AmsPortInfo)
      → Outcome t s (after_parse env t p s w (status, parsed, ports))
  unfolding after_parse
  parse-Outcome t p s w status parsed ports =
      let q = with_parsed env parsed p in
      let s' = record s { spare_parsed = parsed; spare = q; ports = ports } in
      let info = get_record_info_from_drv_info env.port_name env.cache t q in
      if-intro (Outcome t s) (failed status) (λ _. inl (refl, refl, inl refl))
        (λ _. record_info-Outcome t s' w info.0 info.1)

  param_created-Outcome :
      (t : List ℕ) (s : Creation F) (w : W) → Outcome t s (param_created env t s w)
  unfolding param_created
  param_created-Outcome t s w =
      let q = record s.spare_parsed {
        sample_time_ms = env.defaults.default_sample_time_ms;
        max_delay_time_ms = env.defaults.default_max_delay_time_ms;
      } in
      let p = record s.spare {
        refresh_needed = true;
        bulk_index = negsuc 0;
        bulk_offset = negsuc 0;
      } in
      let r =
        parse_plc_info_from_drv_info env.scanf env.defaults t env.max_states (length s.params) q
          s.ports in
      parse-Outcome t p s w r.0 r.1 r.2

  symbols-keep :
      (s : Creation F) (w : W)
      → ((symbols_resolved env s w).0.params ≡ s.params)
        × ((symbols_resolved env s w).0.created ≡ s.created)
  unfolding symbols_resolved
  symbols-keep s w =
      let Same : Creation F × W → Type 0 =
        λ r. (r.0.params ≡ s.params) × (r.0.created ≡ s.created) in
      if-intro Same (not s.sym_info_resolved && s.routes.connected_ads)
        (λ _.
          if-intro Same
            (length
                (resolve_symbol_info env.api env.remote env.client env.text env.update.to_lower
                  env.symbols w).1
              == 0)
            (λ _. (refl, refl)) (λ _. (refl, refl)))
        (λ _. (refl, refl))

  -- A parameter is added only for a text that is not known, while there is room.
  abbrev pub IsCreation : List ℕ → Creation F → Created env → Type 0
  IsCreation t s r =
      Kept t s r
      ⊎ (Added t s r
          × (is_created t s.created ≡ false)
          × (suc (length s.params) < env.param_table_size))

  same-IsCreation :
      (t : List ℕ) (s' s : Creation F) (r : Created env)
      → s'.params ≡ s.params
      → s'.created ≡ s.created
      → IsCreation t s' r
      → IsCreation t s r
  same-IsCreation t s' s r params created (inl (p, c, why)) = inl (
    p ∙ params,
    c ∙ created,
    elim why [ inl bad ↦ inl bad | inr known ↦ inr (ap (is_created t) (sym created) ∙ known) ],
  )
  same-IsCreation t s' s r params created (inr ((p, index, all, texts, own, made), unknown, room)) =
      inr (
        (
          p,
          index,
          all ∙ ap (λ xs. xs ++ p ∷ []) params,
          texts ∙ ap (λ xs. xs ++ (t, index) ∷ []) created,
          own,
          made,
        ),
        ap (is_created t) (sym created) ∙ unknown,
        rw params at room,
      )

  known-IsCreation :
      (t : List ℕ) (s : Creation F) (w : W)
      → is_created t s.created ≡ true
      → IsCreation t s (base_created env t s w)
  unfolding base_created
  known-IsCreation t s w known = inl (refl, refl, inr known)

  resolved-IsCreation :
      (t : List ℕ) (s : Creation F) (w : W)
      → IsCreation t s (
          if failed (validate_drv_info t)
          then (asyn_error, s, w)
          else if is_created t s.created
          then base_created env t s w
          else if leb (env.param_table_size - 1) (length s.params)
          then (asyn_error, s, w)
          else param_created env t s w)
  resolved-IsCreation t s w =
      if-intro (IsCreation t s) (failed (validate_drv_info t)) (λ _. inl (refl, refl, inl refl))
        (λ _.
          if-intro (IsCreation t s) (is_created t s.created) (known-IsCreation t s w) (λ unknown.
            if-intro (IsCreation t s) (leb (env.param_table_size - 1) (length s.params))
              (λ _. inl (refl, refl, inl refl))
              (λ room. elim (param_created-Outcome t s w) [
                | inl kept ↦ inl kept
                | inr added ↦ inr (added, unknown, ground (arith, room))
              ])))

  -- A call of drvUserCreate keeps the parameters and the texts of createdParamsMap_, and then it
  -- failed or the text was known; or it adds one parameter at the end, and the text with the index
  -- that createParam has given for it and that is the parameter's own, and then the text was not
  -- known and the table is not full with it.
  pub drv_user_create-IsCreation :
      (t : List ℕ) (s : Creation F) (w : W) → IsCreation t s (drv_user_create env t s w)
  unfolding drv_user_create
  drv_user_create-IsCreation t s w =
      let (params, created) = symbols-keep s w in
      let (resolved, w') = symbols_resolved env s w in
      same-IsCreation t resolved s (drv_user_create env t s w) params created
        (resolved-IsCreation t resolved w')
