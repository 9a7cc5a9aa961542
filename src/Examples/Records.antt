-- ===== src/Examples/Records.antt =====
-- Examples of the records of the database and of the parameters made for them.
use twincat_ads.Base.Int.{ℤ, pos}
use twincat_ads.Ads.{plc, time_base_plc}
use twincat_ads.DrvInfo.Create.Table.{IsCreation, drv_user_create-IsCreation}
use twincat_ads.DrvInfo.Create.{Creation, CreateEnv, drv_user_create}
use twincat_ads.DrvInfo.Parse.{ParsedInfo}
use twincat_ads.DrvInfo.Records.{DbRecord, RecordCache, record_key, build_drv_info_cache}
use twincat_ads.Examples.Bulks.{an_env, with_stamps}
use twincat_ads.Examples.Transfers.{accepting}
use twincat_ads.Examples.{a_plc, a_param, a_master, net_id}
use twincat_ads.DataType.{ads_type_size}
use twincat_ads.Notify.{
  ads_add_data_callback, request_notification, resolve_access, ads_del_data_callback,
}
use twincat_ads.PortList.{is_known}
use twincat_ads.Symbol.{
  ads_get_sym_info_by_name, ads_get_sym_handle_by_name, ads_release_symbolic_handle,
}
use twincat_ads.Update.{fetch_info, dict_entry, set_array, fetch_handle, connect_input}
use twincat_ads.Upload.{codes}
use twincat_ads.Base.{
  ℕ, suc, true, false, String, List, [], ◌∷◌, Option, none, some, asyn_success, ◌≡◌, refl, length,
}

abbrev an_input : String → DbRecord
an_input name = record {
  record_type = "ai";
  record_name = name;
  is_alias = false;
  dtyp = some "asynInt32";
  inp = some "@asyn(ADS_1,0,1)Main.a?";
  out = none;
}

-- Every link is one with this port and text.
abbrev scan_asyn : String → Option (List ℕ × List ℕ)
scan_asyn s = some (codes "ADS_1", codes "Main.a?")

abbrev two_records : List DbRecord
two_records = an_input "First" ∷ an_input "Second" ∷ []

abbrev a_key : List ℕ
a_key = record_key (codes "ADS_1") (codes "Main.a?")

abbrev a_cache : RecordCache
a_cache = build_drv_info_cache 99 scan_asyn two_records []

-- The second record with the same link has no entry.
one_entry : length a_cache ≡ 1
unfolding build_drv_info_cache
one_entry = refl

abbrev unset : ParsedInfo ℤ
unset = record {
  is_io_intr = false;
  plc_adr_str = [];
  plc_abs_adr_valid = false;
  is_adr_command = false;
  plc_abs_adr_group = 0;
  plc_abs_adr_offset = 0;
  plc_size = 0;
  plc_data_type = 0;
  plc_data_is_array = false;
  max_delay_time_ms = pos 0;
  sample_time_ms = pos 0;
  is_bulk_read = false;
  poll_class = pos 0;
  time_base = time_base_plc;
  ams_port = 0;
  data_source = plc;
}

abbrev a_creator : CreateEnv ℤ ℕ
a_creator = record {
  api = a_plc;
  asyn = accepting;
  base = record {
    create_param = λ t type w. (asyn_success, 1, suc w);
    get_address = λ w. (asyn_success, w);
    base_drv_user_create = λ t w. (asyn_success, w);
  };
  base_connect = record {
    base_connect = λ w. (asyn_success, w);
    base_disconnect = λ w. (asyn_success, w);
  };
  scanf = record {
    scan_word = λ s. none;
    scan_adr = λ s. none;
    scan_double = λ s. none;
    scan_field = λ s. none;
    scan_port = λ s. none;
    one = pos 1;
  };
  defaults = record {
    default_max_delay_time_ms = pos 500;
    default_sample_time_ms = pos 50;
    default_time_source = time_base_plc;
    amsport_default = 851;
  };
  update = an_env;
  cache = a_cache;
  symbols = [];
  text = λ s. "Main.a";
  port_name = codes "ADS_1";
  remote_net_id = net_id;
  remote = record { net_id = net_id; port = 851 };
  ipaddr = "192.168.1.10";
  client = 30000;
  timeout = 5000;
  max_states = 21;
  param_table_size = 10;
  master = a_master;
  ticks = λ t. 0;
  zero_double = pos 0;
  fresh_parsed = unset;
  fresh = a_param;
}

-- A driver that is connected, with the first parameter only.
abbrev a_driver : Creation ℤ
a_driver = record {
  params = a_param ∷ [];
  spare_parsed = unset;
  spare = a_param;
  created = [];
  ports = [];
  bulks = with_stamps 0;
  routes = record { route_added = true; ethercat_route_added = false; connected_ads = true };
  symbol_dict = [];
  sym_info_resolved = true;
}

drv_user_create-IsCreation_example :
    IsCreation a_creator
      (codes "Main.a?")
      a_driver
      (drv_user_create a_creator (codes "Main.a?") a_driver 0)
drv_user_create-IsCreation_example =
    drv_user_create-IsCreation a_creator (codes "Main.a?") a_driver 0

second_param : length (drv_user_create a_creator (codes "Main.a?") a_driver 0).1.params ≡ 2
unfolding drv_user_create build_drv_info_cache is_known fetch_info dict_entry
    ads_get_sym_info_by_name set_array ads_type_size fetch_handle ads_get_sym_handle_by_name
    ads_release_symbolic_handle ads_add_data_callback request_notification resolve_access
    ads_del_data_callback connect_input
second_param = refl

known_text :
    let s = record a_driver { created = (codes "Main.a?", 1) ∷ [] } in
    length (drv_user_create a_creator (codes "Main.a?") s 0).1.params ≡ 1
unfolding drv_user_create
known_text = refl
