-- ===== src/Examples.antt =====
-- Runs of the theorems on concrete inputs: a PLC, an asyn parameter library and a parameter that the
-- examples share, and the examples of each part.
pub mod Parsing
pub mod Commands
pub mod Constructs
pub mod Records
pub mod Ports
pub mod Bulks
pub mod Lists
pub mod Octets
pub mod Transfers
pub mod Cycles
pub mod Callbacks
pub mod Routes
pub mod Arrays
pub mod Uploads
use twincat_ads.Base.Int.{ℤ, pos, negsuc}
use twincat_ads.TimeStamp.{EpicsTimeStamp}
use twincat_ads.Ads.{
  AmsAddr, AdsSymbolEntry, AdsParamInfo, AdsApi, plc, time_base_plc, asyn_param_int32,
}
use twincat_ads.DataType.{adst_uint16}
use twincat_ads.Asyn.{AsynApi, AlarmCodes}
use twincat_ads.EtherCat.{Master, unresolved}
use twincat_ads.Base.{ℕ, suc, ◌+◌, true, false, List, [], ◌∷◌, none, some, asyn_success, replicate}

abbrev pub no_time : EpicsTimeStamp
no_time = record { sec_past_epoch = 0; nsec = 0 }

abbrev pub a_symbol : AdsSymbolEntry
a_symbol = record {
  i_group = 0x4040;
  i_offset = 8;
  size = 2;
  data_type = adst_uint16;
  name_length = 1;
  type_length = 4;
  buffer = 65 ∷ 0 ∷ 85 ∷ 73 ∷ 78 ∷ 84 ∷ 0 ∷ 0 ∷ [];
  variable_name = none;
  sym_data_type = none;
  sym_comment = none;
}

-- A PLC that grants every request and counts them. A read delivers as many zero bytes as it asks for.
abbrev pub a_plc : AdsApi ℕ
a_plc = record {
  sym_hndbyname = 0xf003;
  sym_valbyhnd = 0xf005;
  sym_releasehnd = 0xf006;
  sym_infobynameex = 0xf009;
  sym_version = 0xf008;
  read_write_u32 = λ client to group offset name w. (0, some (100 + w), suc w);
  read_write_symbol = λ client to group offset name w. (0, some a_symbol, suc w);
  write_u32 = λ client to group offset v w. (0, suc w);
  write_bytes = λ client to group offset size bytes w. (0, suc w);
  read_bytes = λ client to group offset size w. (0, replicate size 0, size, suc w);
  add_notification = λ client to group offset attrib user w. (0, some w, suc w);
  del_notification = λ client to h w. (0, suc w);
  write_control = λ client to state device w. (0, suc w);
  sum_up_read = λ client to count size requests w. (0, replicate size 0, suc w);
  sum_up_read_write = λ client to count size bytes w. (0, replicate size 0, size, suc w);
  state_invalid = 0;
  state_run = 5;
  device_exists = 0x70f;
  read_state = λ client to w. (0, 5, suc w);
  read_device_info =
      λ client to w. (0, "Plc30 App", record { version = 3; revision = 1; build = 2100 }, suc w);
  get_timeout = λ client w. (0, suc w);
  set_timeout = λ client timeout w. (0, suc w);
  add_route = λ to ip w. (0, suc w);
  del_route = λ to w. suc w;
}

-- An AdsLib that grants every request and does nothing.
abbrev pub silent : (W : Type 0) → AdsApi W
silent W = record {
  sym_hndbyname = 0xf003;
  sym_valbyhnd = 0xf005;
  sym_releasehnd = 0xf006;
  sym_infobynameex = 0xf009;
  sym_version = 0xf008;
  state_invalid = 0;
  state_run = 5;
  device_exists = 0x70f;
  read_write_u32 = λ client to group offset name w. (0, some 0, w);
  read_write_symbol = λ client to group offset name w. (0, some a_symbol, w);
  write_u32 = λ client to group offset v w. (0, w);
  write_bytes = λ client to group offset size bytes w. (0, w);
  read_bytes = λ client to group offset size w. (0, [], 0, w);
  add_notification = λ client to group offset attrib user w. (0, some 0, w);
  del_notification = λ client to h w. (0, w);
  write_control = λ client to state device w. (0, w);
  sum_up_read = λ client to count size requests w. (0, [], w);
  sum_up_read_write = λ client to count size bytes w. (0, [], 0, w);
  read_state = λ client to w. (0, 5, w);
  read_device_info = λ client to w. (0, "", record { version = 3; revision = 1; build = 0 }, w);
  get_timeout = λ client w. (0, w);
  set_timeout = λ client timeout w. (0, w);
  add_route = λ n ip w. (0, w);
  del_route = λ n w. w;
}

abbrev pub net_id : List ℕ
net_id = 192 ∷ 168 ∷ 1 ∷ 10 ∷ 1 ∷ 1 ∷ []

abbrev pub a_param : AdsParamInfo
a_param = record {
  ams_port = 851;
  param_index = 0;
  is_io_intr = true;
  max_delay_ticks = 5000000;
  sample_ticks = 500000;
  plc_abs_adr_valid = false;
  is_adr_command = false;
  is_bulk_read = false;
  plc_adr_str = "Main.a";
  plc_abs_adr_group = 0;
  plc_abs_adr_offset = 0;
  plc_size = 0;
  plc_data_type = 0;
  plc_data_is_array = false;
  h_callback_notify = 0;
  callback_notify_valid = false;
  h_symbolic_handle = 0;
  symbolic_handle_valid = false;
  array_data_buffer = none;
  array_data = [];
  last_callback_size = 0;
  array_data_buffer_size = 0;
  refresh_needed = true;
  data_source = plc;
  plc_time_stamp_raw = 0;
  time_base = time_base_plc;
  plc_time_stamp = no_time;
  epics_timestamp = no_time;
  asyn_type = asyn_param_int32;
  alarm_status = 0;
  alarm_severity = 0;
  plc_data_type_warn = false;
  first_read_done = false;
  bulk_index = negsuc 0;
  bulk_offset = negsuc 0;
}

-- A parameter of the EtherCAT slave state group.
abbrev pub a_state : AdsParamInfo
a_state = record a_param {
  is_adr_command = true;
  plc_abs_adr_valid = true;
  plc_abs_adr_group = 9;
  plc_abs_adr_offset = 1001;
  plc_size = 2;
  plc_data_type = adst_uint16;
}

abbrev pub a_master : Master
a_master = record {
  net_id = 0 ∷ 0 ∷ 0 ∷ 0 ∷ 0 ∷ 0 ∷ [];
  resolved = false;
  available = false;
  source = unresolved;
}

abbrev pub some_alarms : AlarmCodes
some_alarms = record { no_alarm = 0; read_alarm = 1; write_alarm = 2; invalid_alarm = 3 }
