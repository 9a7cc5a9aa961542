-- ===== src/DrvInfo/Parsed.antt =====
-- adsApp/src/adsAsynPortDriver.cpp: what parsePlcInfofromDrvInfo leaves in the parameter and in the
-- list of ams ports.
use twincat_ads.Ads.{AmsPortInfo, ams_state, plc}
use twincat_ads.DrvInfo.{strstr, strrchr, has_length_1}
use twincat_ads.DrvInfo.Laws.{absent, present, Located, Polled, parse_options-Polled}
use twincat_ads.DrvInfo.Parse.{
  ParsedInfo, Scanf, ParseDefaults, parse_options, parse_ams_state, parse_source,
  parse_plc_info_from_drv_info, set_param_info,
}
use twincat_ads.PortList.{add_new_ams_port_to_list, get_ams_port_object}
use twincat_ads.PortList.Laws.{add_new_ams_port_cases}
use twincat_ads.Upload.{codes}
use twincat_ads.Upload.Collect.{contains}
use twincat_ads.Base.{
  ℕ, Bool, true, false, List, [], ◌∷◌, some, AsynStatus, asyn_success, failed, ◌==◌, length, drop,
  ◌≡◌, refl, sym, ap, ◌∙◌, ◌⊎◌, inl, inr, Option-cases, Bool-cases, if-intro, arith,
}

-- The last character of the text is `c`.
unfoldable pub ends_with : ℕ → List ℕ → Bool
ends_with c [] = false
ends_with c (x ∷ []) = x == c
ends_with c (x ∷ y ∷ s) = ends_with c (y ∷ s)

pub strrchr-ends_with : (c : ℕ) (s : List ℕ) → has_length_1 (strrchr c s) ≡ ends_with c s
unfolding strrchr ends_with
strrchr-ends_with c [] = refl
strrchr-ends_with c (x ∷ []) = elim (Bool-cases (x == c)) [ inl e ↦ rw e refl | inr e ↦ rw e refl ]
strrchr-ends_with c (x ∷ y ∷ s) = elim (Option-cases (strrchr c (y ∷ s))) [
  | inl e ↦
      let at_end : false ≡ ends_with c (y ∷ s) =
        sym (ap has_length_1 e) ∙ strrchr-ends_with c (y ∷ s) in
      let long : (length (x ∷ y ∷ s) == 1) ≡ false = ground arith in
      rw (strrchr, e)
        (if-intro (λ o. has_length_1 o ≡ ends_with c (y ∷ s)) (x == c) (λ _. long ∙ at_end)
          (λ _. at_end))
  | inr (t, e) ↦ rw (strrchr, e) (sym (ap has_length_1 e) ∙ strrchr-ends_with c (y ∷ s))
]

set-get :
    (p i : ℕ) (ports : List AmsPortInfo) (port : AmsPortInfo)
    → get_ams_port_object p ports ≡ some port
    → (e : AmsPortInfo) × (get_ams_port_object p (set_param_info p i ports) ≡ some e)
      × (e.param_info ≡ some i)
unfolding get_ams_port_object set_param_info
set-get p i [] port h = absurd (ground (arith, h))
set-get p i (x ∷ xs) port h = elim (Bool-cases (x.ams_port == p)) [
  | inl here ↦ (record x { param_info = some i }, rw here (rw here refl), refl)
  | inr there ↦
      let tail : get_ams_port_object p xs ≡ some port = ground (arith, h, there) in
      let (e, found, set) = set-get p i xs port tail in (e, rw there (rw there found), set)
]

added-found :
    (max_states p : ℕ) (ports : List AmsPortInfo)
    → (e : AmsPortInfo) × (get_ams_port_object p (add_new_ams_port_to_list max_states p ports).1
        ≡ some e)
added-found max_states p ports =
    let (_, cases, _) = add_new_ams_port_cases max_states p ports in
    elim cases [ inl (_, (e, found, _)) ↦ (e, found) | inr (_, found, _) ↦ (_, found) ]

added-kept :
    (max_states p : ℕ) (ports : List AmsPortInfo) (e : AmsPortInfo)
    → get_ams_port_object p ports ≡ some e
    → get_ams_port_object p (add_new_ams_port_to_list max_states p ports).1 ≡ some e
added-kept max_states p ports e h =
    let (_, cases, _) = add_new_ams_port_cases max_states p ports in
    elim cases [
      | inl (same, _) ↦ rw same h
      | inr (missing, _, _) ↦ absurd (ground (arith, h, missing))
    ]

module _ {F : Type 0} (scanf : Scanf F) (defaults : ParseDefaults F) (drv_info : List ℕ) where
  -- Of the parameter and the list: whether the data is the state of the ams port, which then points to
  -- the parameter `i`, or is in the PLC.
  abbrev pub Sourced : ℕ → ParsedInfo F → List AmsPortInfo → Type 0
  Sourced i p ports =
      (e : AmsPortInfo) × (get_ams_port_object p.ams_port ports ≡ some e)
      × (((contains (codes ".AMSPORTSTATE.") drv_info ≡ false) × (p.data_source ≡ plc))
          ⊎ ((contains (codes ".AMSPORTSTATE.") drv_info ≡ true)
              × (p.data_source ≡ ams_state)
              × (e.param_info ≡ some i)))

  -- The text has no .ADR., or this is the group and the offset that sscanf reads behind its first .ADR.;
  -- and the size and the type too unless the data is the state of an ams port.
  abbrev pub At : ℕ → ℕ → ℕ → ℕ → Type 0
  At group offset plc_size plc_data_type =
      (contains (codes ".ADR.") drv_info ≡ false)
      ⊎ ((u : List ℕ) × (size : ℕ) × (type : ℕ) × (strstr (codes ".ADR.") drv_info ≡ some u)
          × (scanf.scan_adr (drop (length (codes ".ADR.")) u) ≡ some (group, offset, size, type))
          × (contains (codes ".AMSPORTSTATE.") drv_info ≡ false
              → (plc_size ≡ size) × (plc_data_type ≡ type)))

  -- What the blocks before have set, and the source keeps.
  abbrev pub Settled : ParsedInfo F → Type 0
  Settled p =
      (p.is_io_intr ≡ has_length_1 (strrchr b'?' drv_info))
      × (p.is_adr_command ≡ contains (codes ".ADR.") drv_info)
      × (p.plc_abs_adr_valid ≡ contains (codes ".ADR.") drv_info)
      × At p.plc_abs_adr_group p.plc_abs_adr_offset p.plc_size p.plc_data_type
      × (p.is_bulk_read ≡ contains (codes "POLL_RATE") drv_info)

  plc-At :
      (p : ParsedInfo F)
      → Located scanf defaults drv_info p
      → At p.plc_abs_adr_group p.plc_abs_adr_offset p.plc_size p.plc_data_type
  plc-At p (inl missing) = inl missing
  plc-At p (inr (u, e, read)) = inr (u, p.plc_size, p.plc_data_type, e, read, λ _. (refl, refl))

  state-At :
      (p : ParsedInfo F) (size type : ℕ)
      → contains (codes ".AMSPORTSTATE.") drv_info ≡ true
      → Located scanf defaults drv_info p
      → At p.plc_abs_adr_group p.plc_abs_adr_offset size type
  state-At p size type there (inl missing) = inl missing
  state-At p size type there (inr (u, e, read)) =
      inr (
        u,
        p.plc_size,
        p.plc_data_type,
        e,
        read,
        λ missing. absurd (ground (arith, there, missing)),
      )

  parse_source-Sourced :
      (max_states i : ℕ) (p : ParsedInfo F) (ports : List AmsPortInfo)
      → Polled scanf defaults drv_info p
      → let s = parse_source scanf defaults drv_info max_states i p ports in
        failed s.0 ≡ false
        → Settled s.1 × Sourced i s.1 (add_new_ams_port_to_list max_states s.1.ams_port s.2).1
  unfolding parse_source
  parse_source-Sourced max_states i p ports polled =
      elim (Option-cases (strstr (codes ".AMSPORTSTATE.") drv_info)) [
        | inl e ↦
            rw (parse_source, e)
              (λ h.
                let (port, found) = added-found max_states p.ams_port ports in
                let ((io, adr, valid, located), bulk) = polled in
                (
                  (io, adr, valid, plc-At p located, bulk),
                  (port, found, inl (absent (codes ".AMSPORTSTATE.") drv_info e, refl)),
                ))
        | inr (u, e) ↦
            let added = (add_new_ams_port_to_list max_states p.ams_port ports).1 in
            let (old, known) = added-found max_states p.ams_port ports in
            let (port, found, set) = set-get p.ams_port i added old known in
            rw (parse_source, e)
              (rw (parse_ams_state, known)
                (λ h.
                  let ((io, adr, valid, located), bulk) = polled in
                  let there = present (codes ".AMSPORTSTATE.") drv_info u e in
                  (
                    (io, adr, valid, state-At p _ _ there located, bulk),
                    (port, added-kept max_states p.ams_port _ port found, inr (there, refl, set)),
                  )))
      ]

  abbrev pub IsParsed : ℕ → ParsedInfo F → List AmsPortInfo → Type 0
  IsParsed i q all =
      (q.is_io_intr ≡ ends_with b'?' drv_info)
      × (q.is_adr_command ≡ contains (codes ".ADR.") drv_info)
      × (q.plc_abs_adr_valid ≡ contains (codes ".ADR.") drv_info)
      × At q.plc_abs_adr_group q.plc_abs_adr_offset q.plc_size q.plc_data_type
      × (q.is_bulk_read ≡ contains (codes "POLL_RATE") drv_info)
      × Sourced i q all

  -- Where parsePlcInfofromDrvInfo has no error, the parameter is an I/O interrupt one exactly where
  -- the text ends with a question mark, has a valid absolute address exactly where the text contains
  -- .ADR., with the group and the offset that sscanf reads behind the first .ADR., and the size and
  -- the type unless the text contains .AMSPORTSTATE., and is polled exactly where it contains
  -- POLL_RATE. Its ams port is found in the list of ports. Where the text contains .AMSPORTSTATE.
  -- its data is that port's state, and the port points to the parameter; elsewhere its data is in
  -- the PLC.
  pub parse_plc_info_from_drv_info-IsParsed :
      (max_states i : ℕ) (p : ParsedInfo F) (ports : List AmsPortInfo)
      → (parse_plc_info_from_drv_info scanf defaults drv_info max_states i p ports).0 ≡ asyn_success
      → IsParsed i
          (parse_plc_info_from_drv_info scanf defaults drv_info max_states i p ports).1
          (parse_plc_info_from_drv_info scanf defaults drv_info max_states i p ports).2
  unfolding parse_plc_info_from_drv_info
  parse_plc_info_from_drv_info-IsParsed max_states i p ports =
      let r = parse_options scanf defaults drv_info p in
      let s = parse_source scanf defaults drv_info max_states i r.1 ports in
      if-intro
        (λ (q : AsynStatus × ParsedInfo F × List AmsPortInfo).
          q.0 ≡ asyn_success → IsParsed i q.1 q.2)
        (failed r.0) (λ e h. absurd (ground (arith, e, h)))
        (λ e.
          if-intro
            (λ (q : AsynStatus × ParsedInfo F × List AmsPortInfo).
              q.0 ≡ asyn_success → IsParsed i q.1 q.2)
            (failed s.0) (λ f h. absurd (ground (arith, f, h)))
            (λ f h.
              let polled = (parse_options-Polled scanf defaults drv_info p).holds e in
              let ((io, adr, valid, located, bulk), source) =
                parse_source-Sourced max_states i r.1 ports polled f in
              (io ∙ strrchr-ends_with b'?' drv_info, adr, valid, located, bulk, source)))
