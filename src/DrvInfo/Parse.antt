-- ===== src/DrvInfo/Parse.antt =====
-- adsApp/src/adsAsynPortDriver.cpp: parsePlcInfofromDrvInfo. `sscanf` is a parameter, one function for
-- each format, with none where it does not give as many values as the code asks for. The log messages
-- are left out.
use twincat_ads.Ads.{
  AmsPortInfo, AdsDataSource, plc, ams_state, AdsTimeSource, time_base_plc, time_base_epics,
}
use twincat_ads.DataType.{adst_uint16}
use twincat_ads.DrvInfo.{strstr, strrchr, has_length_1}
use twincat_ads.PortList.{add_new_ams_port_to_list, get_ams_port_object}
use twincat_ads.Upload.{codes}
use twincat_ads.Upload.Collect.{same_codes}
use twincat_ads.Base.{
  ℕ, ◌+◌, ◌-◌, ◌^◌, Bool, true, false, List, [], ◌∷◌, Option, none, some, AsynStatus, asyn_success,
  asyn_error, failed, ltb, ◌==◌, if◌then◌else◌, length, drop,
}

-- The fields of adsParamInfo that the text sets; F has C's doubles.
pub record ParsedInfo (F : Type 0) : Type 0 where
  pub is_io_intr : Bool
  pub plc_adr_str : List ℕ
  pub plc_abs_adr_valid : Bool
  pub is_adr_command : Bool
  pub plc_abs_adr_group : ℕ
  pub plc_abs_adr_offset : ℕ
  pub plc_size : ℕ
  pub plc_data_type : ℕ
  pub plc_data_is_array : Bool
  pub max_delay_time_ms : F
  pub sample_time_ms : F
  pub is_bulk_read : Bool
  pub poll_class : F
  pub time_base : AdsTimeSource
  pub ams_port : ℕ
  pub data_source : AdsDataSource

-- The formats `/%127s`, `16#%x,16#%x,%u,%u`, `=%lf/`, `=%127[^/]/`, and `=%d/` with its cast to
-- uint16_t; and the double 1.0.
pub record Scanf (F : Type 0) : Type 0 where
  pub scan_word : List ℕ → Option (List ℕ)
  pub scan_adr : List ℕ → Option (ℕ × ℕ × ℕ × ℕ)
  pub scan_double : List ℕ → Option F
  pub scan_field : List ℕ → Option (List ℕ)
  pub scan_port : List ℕ → Option ℕ
  pub one : F

-- The defaults of the driver, the two times converted to double.
pub record ParseDefaults (F : Type 0) : Type 0 where
  pub default_max_delay_time_ms : F
  pub default_sample_time_ms : F
  pub default_time_source : AdsTimeSource
  pub amsport_default : ℕ

-- Without the last character.
unfoldable pub stripped : List ℕ → List ℕ
stripped [] = []
stripped (x ∷ []) = []
stripped (x ∷ y ∷ s) = x ∷ stripped (y ∷ s)

-- The rest of the function, unless it has returned an error.
abbrev pub and_then :
    {F : Type 0}
    → AsynStatus × ParsedInfo F
    → (ParsedInfo F → AsynStatus × ParsedInfo F)
    → AsynStatus × ParsedInfo F
and_then r next = if failed r.0 then r else next r.1

abbrev pub set_max_delay : {F : Type 0} → F → ParsedInfo F → ParsedInfo F
set_max_delay ms p = record p { max_delay_time_ms = ms }

abbrev pub set_sample_time : {F : Type 0} → F → ParsedInfo F → ParsedInfo F
set_sample_time ms p = record p { sample_time_ms = ms }

abbrev pub set_poll_class : {F : Type 0} → F → ParsedInfo F → ParsedInfo F
set_poll_class rate p = record p { is_bulk_read = true; poll_class = rate }

abbrev pub set_ams_port : {F : Type 0} → ℕ → ParsedInfo F → ParsedInfo F
set_ams_port val p = record p { ams_port = val }

-- A text other than these two leaves the time base.
abbrev pub set_time_base : {F : Type 0} → List ℕ → ParsedInfo F → ParsedInfo F
set_time_base buffer p =
    if same_codes (codes "EPICS") buffer
    then record p { time_base = time_base_epics }
    else if same_codes (codes "PLC") buffer
    then record p { time_base = time_base_plc }
    else p

-- What an option's block does: it is skipped where its name does not occur, and refused where fewer
-- than `least` characters follow the name. `scan` reads what follows; `fallback` is what is set where it
-- cannot.
unfoldable pub with_option :
    {F A : Type 0}
    → List ℕ
    → List ℕ
    → ℕ
    → (List ℕ → Option A)
    → (ParsedInfo F → ParsedInfo F)
    → (A → ParsedInfo F → ParsedInfo F)
    → ParsedInfo F
    → AsynStatus × ParsedInfo F
unfolding strstr
with_option drv_info option least scan fallback set p = elim (strstr option drv_info) [
  | none ↦ (asyn_success, p)
  | some is_there ↦
      let scanned = scan (drop (length option) is_there) in
      if ltb (length is_there) (length option + least) then (asyn_error, p) else elim scanned [
        | none ↦ (asyn_error, fallback p)
        | some value ↦ (asyn_success, set value p)
      ]
]

-- `port->paramInfo = paramInfo`, for the first port with this number.
unfoldable pub set_param_info : ℕ → ℕ → List AmsPortInfo → List AmsPortInfo
set_param_info ams_port param_index [] = []
set_param_info ams_port param_index (port ∷ ports) =
    let rest = set_param_info ams_port param_index ports in
    if port.ams_port == ams_port
    then record port { param_info = some param_index } ∷ ports
    else port ∷ rest

module _ {F : Type 0} (scanf : Scanf F) (defaults : ParseDefaults F) (drv_info : List ℕ) where
  unfoldable pub parse_direction : ParsedInfo F → ParsedInfo F
  unfolding strrchr
  parse_direction p = record p { is_io_intr = has_length_1 (strrchr b'?' drv_info) }

  unfoldable pub parse_address : ParsedInfo F → AsynStatus × ParsedInfo F
  unfolding strrchr stripped
  parse_address p = elim (strrchr b'/' drv_info) [
    | none ↦ (asyn_success, record p { plc_adr_str = stripped drv_info })
    | some drv_info_end ↦ elim (scanf.scan_word drv_info_end) [
      | none ↦ (asyn_error, p)
      | some buffer ↦ (asyn_success, record p { plc_adr_str = stripped buffer })
    ]
  ]

  -- The variables are unsigned, so -1 is their largest value.
  abbrev pub minus_one : ℕ
  minus_one = 2 ^ 32 - 1

  unfoldable pub parse_adr_command : ParsedInfo F → AsynStatus × ParsedInfo F
  unfolding strstr
  parse_adr_command p = elim (strstr (codes ".ADR.") drv_info) [
    | none ↦ (asyn_success, record p { plc_abs_adr_valid = false; is_adr_command = false })
    | some is_there ↦ elim (scanf.scan_adr (drop (length (codes ".ADR.")) is_there)) [
      | none ↦ (
        asyn_error,
        record p {
          is_adr_command = true;
          plc_abs_adr_valid = false;
          plc_abs_adr_group = minus_one;
          plc_abs_adr_offset = minus_one;
          plc_size = minus_one;
          plc_data_type = minus_one;
        },
      )
      | some (group, offset, size, data_type) ↦ (
        asyn_success,
        record p {
          is_adr_command = true;
          plc_abs_adr_valid = true;
          plc_abs_adr_group = group;
          plc_abs_adr_offset = offset;
          plc_size = size;
          plc_data_type = data_type;
        },
      )
    ]
  ]

  unfoldable pub parse_max_delay : ParsedInfo F → AsynStatus × ParsedInfo F
  unfolding with_option
  parse_max_delay =
      with_option drv_info (codes "T_DLY_MS") 3 scanf.scan_double
        (set_max_delay defaults.default_max_delay_time_ms) set_max_delay

  unfoldable pub parse_sample_rate : ParsedInfo F → AsynStatus × ParsedInfo F
  unfolding with_option
  parse_sample_rate p =
      let default = defaults.default_sample_time_ms in
      with_option drv_info (codes "TS_MS") 3 scanf.scan_double (set_sample_time default)
        set_sample_time (set_sample_time default p)

  unfoldable pub parse_poll_rate : ParsedInfo F → AsynStatus × ParsedInfo F
  unfolding with_option
  parse_poll_rate p =
      with_option drv_info (codes "POLL_RATE") 3 scanf.scan_double (set_poll_class scanf.one)
        set_poll_class (record p { is_bulk_read = false; poll_class = scanf.one })

  -- `minLen` is 3, the length of "PLC".
  unfoldable pub parse_time_base : ParsedInfo F → AsynStatus × ParsedInfo F
  unfolding with_option
  parse_time_base p =
      with_option drv_info (codes "TIMEBASE") 5 scanf.scan_field (λ q. q) set_time_base
        (record p { time_base = defaults.default_time_source })

  unfoldable pub parse_ads_port : ParsedInfo F → AsynStatus × ParsedInfo F
  unfolding with_option
  parse_ads_port p =
      let default = defaults.amsport_default in
      with_option drv_info (codes "ADSPORT") 3 scanf.scan_port (set_ams_port default) set_ams_port
        (set_ams_port default p)

  -- The blocks up to that of the ams state, each run unless one before it has returned.
  unfoldable pub parse_options : ParsedInfo F → AsynStatus × ParsedInfo F
  unfolding parse_direction parse_address parse_adr_command parse_max_delay parse_sample_rate
      parse_poll_rate parse_time_base parse_ads_port
  parse_options p = and_then (parse_address (parse_direction p)) λ p1.
      and_then (parse_adr_command p1) λ p2. and_then (parse_max_delay p2) λ p3.
        and_then (parse_sample_rate p3)
          λ p4. and_then (parse_poll_rate p4) λ p5. and_then (parse_time_base p5) parse_ads_port

  -- `added` is the list after addNewAmsPortToList.
  unfoldable pub parse_ams_state :
      ℕ → ParsedInfo F → List AmsPortInfo → AsynStatus × ParsedInfo F × List AmsPortInfo
  unfolding set_param_info get_ams_port_object
  parse_ams_state param_index p added = elim (get_ams_port_object p.ams_port added) [
    | none ↦ (asyn_error, p, added)
    | some port ↦ (
      asyn_success,
      record p {
        data_source = ams_state;
        plc_data_type = adst_uint16;
        plc_size = 2;
        plc_data_is_array = false;
        time_base = time_base_epics;
      },
      set_param_info p.ams_port param_index added,
    )
  ]

  unfoldable pub parse_source :
      ℕ → ℕ → ParsedInfo F → List AmsPortInfo → AsynStatus × ParsedInfo F × List AmsPortInfo
  unfolding strstr parse_ams_state add_new_ams_port_to_list
  parse_source max_states param_index p ports = elim (strstr (codes ".AMSPORTSTATE.") drv_info) [
    | none ↦ (asyn_success, record p { data_source = plc }, ports)
    | some is_there ↦
        parse_ams_state param_index (record p { data_source = plc })
          (add_new_ams_port_to_list max_states p.ams_port ports).1
  ]

  -- `param_index` is that of the parameter, which the port points to afterwards.
  unfoldable pub parse_plc_info_from_drv_info :
      ℕ → ℕ → ParsedInfo F → List AmsPortInfo → AsynStatus × ParsedInfo F × List AmsPortInfo
  unfolding parse_options parse_source add_new_ams_port_to_list
  parse_plc_info_from_drv_info max_states param_index p ports =
      let r = parse_options p in
      let s = parse_source max_states param_index r.1 ports in
      let t = add_new_ams_port_to_list max_states s.1.ams_port s.2 in
      if failed r.0 then (r.0, r.1, ports) else if failed s.0 then s else (t.0, s.1, t.1)
