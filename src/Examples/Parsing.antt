-- ===== src/Examples/Parsing.antt =====
-- adsApp/src/adsAsynPortDriver.cpp: parsePlcInfofromDrvInfo on texts, with a scanner that reads one
-- digit.
use twincat_ads.Ads.{plc, time_base_plc, other}
use twincat_ads.DrvInfo.{validate_drv_info}
use twincat_ads.DrvInfo.Parse.{ParsedInfo, Scanf, ParseDefaults, parse_plc_info_from_drv_info}
use twincat_ads.DrvInfo.Parsed.{IsParsed, parse_plc_info_from_drv_info-IsParsed}
use twincat_ads.Names.{ads_error_to_string}
use twincat_ads.Names.States.{dtyp_string_to_asyn_type}
use twincat_ads.PortList.{is_known}
use twincat_ads.Upload.{codes}
use twincat_ads.Base.{
  ℕ, ◌-◌, false, List, [], ◌∷◌, Option, none, some, asyn_success, asyn_error, ◌≡◌, refl,
}

digit : List ℕ → Option ℕ
digit (equals ∷ d ∷ rest) = some (d - b'0')
digit _ = none

tail_of : List ℕ → Option (List ℕ)
tail_of [] = none
tail_of (x ∷ rest) = some rest

abbrev one_digit : Scanf ℕ
unfolding digit tail_of
one_digit = record {
  scan_word = tail_of;
  scan_adr = λ s. none;
  scan_double = digit;
  scan_field = tail_of;
  scan_port = digit;
  one = 1;
}

abbrev usual : ParseDefaults ℕ
usual = record {
  default_max_delay_time_ms = 100;
  default_sample_time_ms = 50;
  default_time_source = time_base_plc;
  amsport_default = 851;
}

abbrev cleared : ParsedInfo ℕ
cleared = record {
  is_io_intr = false;
  plc_adr_str = [];
  plc_abs_adr_valid = false;
  is_adr_command = false;
  plc_abs_adr_group = 0;
  plc_abs_adr_offset = 0;
  plc_size = 0;
  plc_data_type = 0;
  plc_data_is_array = false;
  max_delay_time_ms = 0;
  sample_time_ms = 0;
  is_bulk_read = false;
  poll_class = 0;
  time_base = time_base_plc;
  ams_port = 0;
  data_source = plc;
}

abbrev state_text : List ℕ
state_text = codes "ADSPORT=7/POLL_RATE=2/.AMSPORTSTATE.?"

state_text_valid : validate_drv_info state_text ≡ asyn_success
unfolding validate_drv_info
state_text_valid = refl

unmarked_text_refused : validate_drv_info (codes "Main.x") ≡ asyn_error
unfolding validate_drv_info
unmarked_text_refused = refl

-- A variable whose own name contains that of an option is refused.
option_in_name_refused :
    (parse_plc_info_from_drv_info one_digit usual (codes "ADSPORT=7/Main.TS_MS?") 21 0 cleared []).0
    ≡ asyn_error
unfolding parse_plc_info_from_drv_info digit tail_of
option_in_name_refused = refl

state_text_success :
    (parse_plc_info_from_drv_info one_digit usual state_text 21 5 cleared []).0 ≡ asyn_success
unfolding parse_plc_info_from_drv_info digit tail_of is_known
state_text_success = refl

state_text_port :
    (parse_plc_info_from_drv_info one_digit usual state_text 21 5 cleared []).1.ams_port ≡ 7
unfolding parse_plc_info_from_drv_info digit tail_of is_known
state_text_port = refl

parse_plc_info_from_drv_info-IsParsed_example :
    IsParsed one_digit usual state_text 5
      (parse_plc_info_from_drv_info one_digit usual state_text 21 5 cleared []).1
      (parse_plc_info_from_drv_info one_digit usual state_text 21 5 cleared []).2
parse_plc_info_from_drv_info-IsParsed_example =
    parse_plc_info_from_drv_info-IsParsed one_digit usual state_text 21 5 cleared []
      state_text_success

undistinguished_error : ads_error_to_string (λ e. 1) 0 ≡ "ADSERR_ERROR_UNKNOWN"
unfolding ads_error_to_string
undistinguished_error = refl

uint32_digital_undefined : dtyp_string_to_asyn_type 99 "asynUInt32Digital" ≡ other 99
unfolding dtyp_string_to_asyn_type
uint32_digital_undefined = refl
