-- ===== src/DrvInfo/Laws.antt =====
-- adsApp/src/adsAsynPortDriver.cpp: what parsePlcInfofromDrvInfo makes of a text.
use twincat_ads.DrvInfo.{strstr, strrchr, has_length_1}
use twincat_ads.DrvInfo.Parse.{
  ParsedInfo, Scanf, ParseDefaults, and_then, with_option, parse_direction, parse_address,
  parse_adr_command, parse_max_delay, parse_sample_rate, parse_poll_rate, parse_time_base,
  parse_ads_port, parse_options, set_max_delay, set_sample_time, set_poll_class, set_time_base,
  set_ams_port,
}
use twincat_ads.Upload.{codes}
use twincat_ads.Upload.Collect.{is_prefix, contains, same_codes}
use twincat_ads.Base.{
  ℕ, Bool, true, false, List, [], ◌∷◌, Option, none, some, AsynStatus, asyn_success, asyn_error,
  failed, length, drop, ltb, ◌+◌, ◌≡◌, refl, sym, ◌∙◌, ◌⊎◌, inl, inr, Option-cases, Bool-cases,
  if-intro, arith,
}

abbrev is_there : Option (List ℕ) → Bool
is_there none = false
is_there (some s) = true

strstr-contains : (t s : List ℕ) → is_there (strstr t s) ≡ contains t s
unfolding strstr contains
strstr-contains t [] = elim (Bool-cases (is_prefix t [])) [ inl e ↦ rw e refl | inr e ↦ rw e refl ]
strstr-contains t (x ∷ s) = elim (Bool-cases (is_prefix t (x ∷ s))) [
  | inl e ↦ rw e refl
  | inr e ↦ rw e (strstr-contains t s)
]

pub absent : (t s : List ℕ) → strstr t s ≡ none → contains t s ≡ false
absent t s e = sym (strstr-contains t s) ∙ rw e refl

pub present : (t s u : List ℕ) → strstr t s ≡ some u → contains t s ≡ true
present t s u e = sym (strstr-contains t s) ∙ rw e refl

module _ {F : Type 0} (scanf : Scanf F) (defaults : ParseDefaults F) (drv_info : List ℕ) where
  -- `P` holds of the fields that a block leaves when it has no error.
  pub record Ensures (r : AsynStatus × ParsedInfo F) (P : ParsedInfo F → Type 0) : Type 0 where
    pub holds : failed r.0 ≡ false → P r.1

  and_then-Ensures :
      (P Q : ParsedInfo F → Type 0) (r : AsynStatus × ParsedInfo F)
      (next : ParsedInfo F → AsynStatus × ParsedInfo F)
      → Ensures r P
      → ((p : ParsedInfo F) → P p → Ensures (next p) Q)
      → Ensures (and_then r next) Q
  and_then-Ensures P Q r next f g =
      if-intro (λ (q : AsynStatus × ParsedInfo F). Ensures q Q) (failed r.0)
        (λ e. record { holds = λ h. absurd (ground (arith, e, h)) }) (λ e. g r.1 (f.holds e))

  scanned-Ensures :
      {A : Type 0} (Q : ParsedInfo F → Type 0) (o : Option A) (bad : ParsedInfo F)
      (good : A → ParsedInfo F)
      → ((a : A) → o ≡ some a → Q (good a))
      → Ensures (elim o [ none ↦ (asyn_error, bad) | some a ↦ (asyn_success, good a) ]) Q
  scanned-Ensures Q none bad good f = record { holds = λ h. absurd (ground (arith, h)) }
  scanned-Ensures Q (some a) bad good f = record { holds = λ h. f a refl }

  with_option-Ensures :
      {A : Type 0} (Q : ParsedInfo F → Type 0) (option : List ℕ) (least : ℕ)
      (scan : List ℕ → Option A) (fallback : ParsedInfo F → ParsedInfo F)
      (set : A → ParsedInfo F → ParsedInfo F) (p : ParsedInfo F)
      → (contains option drv_info ≡ false → Q p)
      → (contains option drv_info ≡ true → (value : A) → Q (set value p))
      → Ensures (with_option drv_info option least scan fallback set p) Q
  unfolding with_option
  with_option-Ensures Q option least scan fallback set p f g =
      elim (Option-cases (strstr option drv_info)) [
        | inl e ↦ rw (with_option, e) (record { holds = λ h. f (absent option drv_info e) })
        | inr (u, e) ↦
            rw (with_option, e)
              (if-intro (λ (q : AsynStatus × ParsedInfo F). Ensures q Q)
                (ltb (length u) (length option + least))
                (λ _. record { holds = λ h. absurd (ground (arith, h)) })
                (λ _.
                  scanned-Ensures Q (scan (drop (length option) u)) (fallback p) (λ a. set a p)
                    λ a _. g (present option drv_info u e) a))
      ]

  abbrev pub Directed : ParsedInfo F → Type 0
  Directed p = p.is_io_intr ≡ has_length_1 (strrchr b'?' drv_info)

  -- The text has no .ADR., or sscanf reads the group, the offset, the size and the type of the parameter
  -- behind its first .ADR.
  abbrev pub Located : ParsedInfo F → Type 0
  Located p =
      (contains (codes ".ADR.") drv_info ≡ false)
      ⊎ ((u : List ℕ) × (strstr (codes ".ADR.") drv_info ≡ some u)
          × (scanf.scan_adr (drop (length (codes ".ADR.")) u)
              ≡ some (p.plc_abs_adr_group, p.plc_abs_adr_offset, p.plc_size, p.plc_data_type)))

  abbrev pub Addressed : ParsedInfo F → Type 0
  Addressed p =
      Directed p
      × (p.is_adr_command ≡ contains (codes ".ADR.") drv_info)
      × (p.plc_abs_adr_valid ≡ contains (codes ".ADR.") drv_info)
      × Located p

  abbrev pub Polled : ParsedInfo F → Type 0
  Polled p = Addressed p × (p.is_bulk_read ≡ contains (codes "POLL_RATE") drv_info)

  parse_address-Ensures :
      (p : ParsedInfo F)
      → Ensures
          (parse_address scanf defaults drv_info (parse_direction scanf defaults drv_info p))
          Directed
  unfolding parse_address parse_direction
  parse_address-Ensures p = elim (Option-cases (strrchr b'/' drv_info)) [
    | inl e ↦ rw (parse_address, e) (record { holds = λ h. refl })
    | inr (u, e) ↦
        rw (parse_address, e) (scanned-Ensures Directed (scanf.scan_word u) _ _ λ a _. refl)
  ]

  parse_adr_command-Ensures :
      (p : ParsedInfo F)
      → Directed p
      → Ensures (parse_adr_command scanf defaults drv_info p) Addressed
  unfolding parse_adr_command
  parse_adr_command-Ensures p d = elim (Option-cases (strstr (codes ".ADR.") drv_info)) [
    | inl e ↦
        let no = sym (absent (codes ".ADR.") drv_info e) in
        rw (parse_adr_command, e)
          (record { holds = λ h. (d, no, no, inl (absent (codes ".ADR.") drv_info e)) })
    | inr (u, e) ↦
        let yes = sym (present (codes ".ADR.") drv_info u e) in
        rw (parse_adr_command, e)
          (scanned-Ensures Addressed (scanf.scan_adr (drop (length (codes ".ADR.")) u)) _ _
            λ a read. (d, yes, yes, inr (u, e, read)))
  ]

  parse_max_delay-Ensures :
      (p : ParsedInfo F)
      → Addressed p
      → Ensures (parse_max_delay scanf defaults drv_info p) Addressed
  unfolding parse_max_delay
  parse_max_delay-Ensures p a =
      with_option-Ensures Addressed (codes "T_DLY_MS") 3 scanf.scan_double
        (set_max_delay defaults.default_max_delay_time_ms) set_max_delay p (λ _. a) λ _ ms. a

  parse_sample_rate-Ensures :
      (p : ParsedInfo F)
      → Addressed p
      → Ensures (parse_sample_rate scanf defaults drv_info p) Addressed
  unfolding parse_sample_rate
  parse_sample_rate-Ensures p a =
      let default = defaults.default_sample_time_ms in
      with_option-Ensures Addressed (codes "TS_MS") 3 scanf.scan_double (set_sample_time default)
        set_sample_time (set_sample_time default p) (λ _. a) λ _ ms. a

  parse_poll_rate-Ensures :
      (p : ParsedInfo F) → Addressed p → Ensures (parse_poll_rate scanf defaults drv_info p) Polled
  unfolding parse_poll_rate
  parse_poll_rate-Ensures p a =
      with_option-Ensures Polled (codes "POLL_RATE") 3 scanf.scan_double (set_poll_class scanf.one)
        set_poll_class (record p { is_bulk_read = false; poll_class = scanf.one }) (λ e. (a, sym e))
        λ e rate. (a, sym e)

  set_time_base-Polled :
      (buffer : List ℕ) (p : ParsedInfo F) → Polled p → Polled (set_time_base buffer p)
  set_time_base-Polled buffer p a =
      if-intro Polled (same_codes (codes "EPICS") buffer) (λ _. a)
        (λ _. if-intro Polled (same_codes (codes "PLC") buffer) (λ _. a) (λ _. a))

  parse_time_base-Ensures :
      (p : ParsedInfo F) → Polled p → Ensures (parse_time_base scanf defaults drv_info p) Polled
  unfolding parse_time_base
  parse_time_base-Ensures p a =
      let q = record p { time_base = defaults.default_time_source } in
      with_option-Ensures Polled (codes "TIMEBASE") 5 scanf.scan_field (λ r. r) set_time_base q
        (λ _. a) λ _ buffer. set_time_base-Polled buffer q a

  parse_ads_port-Ensures :
      (p : ParsedInfo F) → Polled p → Ensures (parse_ads_port scanf defaults drv_info p) Polled
  unfolding parse_ads_port
  parse_ads_port-Ensures p a =
      let default = defaults.amsport_default in
      with_option-Ensures Polled (codes "ADSPORT") 3 scanf.scan_port (set_ams_port default)
        set_ams_port (set_ams_port default p) (λ _. a) λ _ val. a

  pub parse_options-Polled :
      (p : ParsedInfo F) → Ensures (parse_options scanf defaults drv_info p) Polled
  unfolding parse_options
  parse_options-Polled p = and_then-Ensures Directed Polled _ _ (parse_address-Ensures p) λ p1 d1.
      and_then-Ensures Addressed Polled _ _ (parse_adr_command-Ensures p1 d1) λ p2 d2.
        and_then-Ensures Addressed Polled _ _ (parse_max_delay-Ensures p2 d2) λ p3 d3.
          and_then-Ensures Addressed Polled _ _ (parse_sample_rate-Ensures p3 d3) λ p4 d4.
            and_then-Ensures Polled Polled _ _ (parse_poll_rate-Ensures p4 d4) λ p5 d5.
              and_then-Ensures Polled Polled _ _ (parse_time_base-Ensures p5 d5)
                parse_ads_port-Ensures
