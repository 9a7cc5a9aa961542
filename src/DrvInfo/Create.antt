-- ===== src/DrvInfo/Create.antt =====
-- adsApp/src/adsAsynPortDriver.cpp, drvUserCreate: a parameter for the drvInfo text of a record. A text
-- is the list of its bytes. What the driver takes from asyn, from EPICS' database and from sscanf is a
-- parameter; the ADS client port is an argument. The address within asyn and the timeout of the
-- asynUser, which the driver only sets, are left out.
pub mod Table
use twincat_ads.Base.Int.{ℤ, pos, negsuc}
use twincat_ads.Ads.{
  AmsAddr, AdsApi, AdsParamInfo, AmsPortInfo, AsynParamType, asyn_param_int32, asyn_param_int64,
  asyn_param_float64, AdsDataSource, plc, ams_state,
}
use twincat_ads.Asyn.{AsynApi}
use twincat_ads.Bulk.{BulkState}
use twincat_ads.Connection.{Routes, BaseConnect, connect}
use twincat_ads.DrvInfo.Parse.{ParsedInfo, Scanf, ParseDefaults, parse_plc_info_from_drv_info}
use twincat_ads.DrvInfo.Records.{RecordCache, get_record_info_from_drv_info}
use twincat_ads.DrvInfo.{validate_drv_info}
use twincat_ads.EtherCat.{Master}
use twincat_ads.Update.{AdsSymbolDictEntry, SymbolDict, UpdateEnv, update_param_info_with_plc_info}
use twincat_ads.Upload.Collect.{same_codes}
use twincat_ads.Upload.{resolve_symbol_info, resolve_symbol_handles}
use twincat_ads.Base.{
  ℕ, ◌-◌, Bool, true, false, String, List, [], ◌∷◌, ◌++◌, Option, none, some, AsynStatus,
  asyn_success, asyn_error, failed, leb, ◌==◌, if◌then◌else◌, length, set, not, ◌&&◌,
}

-- The state of the driver that a call uses. `spare` is the entry of adsParamArray_ that is next in use,
-- in the two forms of the model: the fields that the text sets, and the parameter.
pub record Creation (F : Type 0) : Type 0 where
  pub params : List AdsParamInfo
  pub spare_parsed : ParsedInfo F
  pub spare : AdsParamInfo
  pub created : List (List ℕ × ℕ)
  pub ports : List AmsPortInfo
  pub bulks : BulkState
  pub routes : Routes
  pub symbol_dict : SymbolDict
  pub sym_info_resolved : Bool

-- createParam with the index, getAddress, and asynPortDriver::drvUserCreate.
pub record BaseCreate (W : Type 0) : Type 0 where
  pub create_param : List ℕ → AsynParamType → W → AsynStatus × ℕ × W
  pub get_address : W → AsynStatus × W
  pub base_drv_user_create : List ℕ → W → AsynStatus × W

-- What does not change. `ticks` is the cast of a time to ADS' units; the entries of adsParamArray_ that
-- were not in use are `fresh`; `symbols` are those that resolveSymbolInfo asks for.
pub record CreateEnv (F W : Type 0) : Type 0 where
  pub api : AdsApi W
  pub asyn : AsynApi F W
  pub base : BaseCreate W
  pub base_connect : BaseConnect W
  pub scanf : Scanf F
  pub defaults : ParseDefaults F
  pub update : UpdateEnv
  pub cache : RecordCache
  pub symbols : List String
  pub text : List ℕ → String
  pub port_name : List ℕ
  pub remote_net_id : List ℕ
  pub remote : AmsAddr
  pub ipaddr : String
  pub client : ℕ
  pub timeout : ℕ
  pub max_states : ℕ
  pub param_table_size : ℕ
  pub master : Master
  pub ticks : F → ℕ
  pub zero_double : F
  pub fresh_parsed : ParsedInfo F
  pub fresh : AdsParamInfo

-- createdParamsMap_.find(...) != end()
unfoldable pub is_created : List ℕ → List (List ℕ × ℕ) → Bool
unfolding same_codes
is_created t [] = false
is_created t ((k, i) ∷ created) =
    let rest = is_created t created in if same_codes k t then true else rest

abbrev pub is_in_plc : AdsDataSource → Bool
is_in_plc plc = true
is_in_plc ams_state = false

module _ {F W : Type 0} (env : CreateEnv F W) where
  abbrev pub Created : Type 0
  Created = AsynStatus × Creation F × W

  -- The first call with a connection resolves all symbols. resolveSymbolHandles always succeeds, so the
  -- process does not end here.
  unfoldable pub symbols_resolved : Creation F → W → Creation F × W
  unfolding resolve_symbol_info resolve_symbol_handles
  symbols_resolved s w =
      if not s.sym_info_resolved && s.routes.connected_ads
      then (let (_, dict, w') =
            resolve_symbol_info env.api env.remote env.client env.text env.update.to_lower
              env.symbols w in
          let (_, handles, w'') = resolve_symbol_handles env.api env.remote env.client dict w' in
          let t = record s { sym_info_resolved = true } in
          if length dict == 0
          then (record t { symbol_dict = dict }, w')
          else (record t { symbol_dict = handles }, w''))
      else (s, w)

  -- The parameter with the fields that the text has set.
  unfoldable pub with_parsed : ParsedInfo F → AdsParamInfo → AdsParamInfo
  with_parsed q p = record p {
    is_io_intr = q.is_io_intr;
    plc_adr_str = env.text q.plc_adr_str;
    plc_abs_adr_valid = q.plc_abs_adr_valid;
    is_adr_command = q.is_adr_command;
    plc_abs_adr_group = q.plc_abs_adr_group;
    plc_abs_adr_offset = q.plc_abs_adr_offset;
    plc_size = q.plc_size;
    plc_data_type = q.plc_data_type;
    plc_data_is_array = q.plc_data_is_array;
    max_delay_ticks = env.ticks q.max_delay_time_ms;
    sample_ticks = env.ticks q.sample_time_ms;
    is_bulk_read = q.is_bulk_read;
    time_base = q.time_base;
    ams_port = q.ams_port;
    data_source = q.data_source;
  }

  unfoldable pub set_default : AdsParamInfo → ℕ → W → W
  set_default p index w = elim p.asyn_type [
    | asyn_param_int32 ↦ (env.asyn.set_integer_param index (pos 0) w).1
    | asyn_param_float64 ↦ (env.asyn.set_double_param index env.zero_double w).1
    | asyn_param_int64 ↦ (env.asyn.set_integer64_param index (pos 0) w).1
    | _ ↦ w
  ]

  unfoldable pub base_created : List ℕ → Creation F → W → Created
  base_created t s w = let (status, w') = env.base.base_drv_user_create t w in (status, s, w')

  -- The new parameter `p`, which is in the list at `slot`, is updated unless its data is in the driver.
  unfoldable pub created_updated : List ℕ → ℕ → AdsParamInfo → Creation F → W → Created
  unfolding update_param_info_with_plc_info base_created
  created_updated t slot p s w =
      let with_dict = record env.update { symbol_dict = s.symbol_dict } in
      let (status, q, bulks, w') =
        update_param_info_with_plc_info env.api env.remote_net_id env.client with_dict p s.bulks
          w in
      let s' = record s { params = set s.params slot q; bulks = bulks } in
      if s.routes.connected_ads && is_in_plc p.data_source
      then if failed status then (asyn_error, s', w') else base_created t s' w'
      else base_created t s w

  -- A connection is tried where there is none, whatever comes of it.
  unfoldable pub connection_tried : Creation F → W → Creation F × W
  unfolding connect
  connection_tried s w =
      if s.routes.connected_ads
      then (s, w)
      else let (_, routes, w') =
          connect env.api env.remote_net_id env.ipaddr env.base_connect env.client env.timeout
            env.master s.routes w in
        (record s { routes = routes }, w')

  -- The count of parameters is increased and the text entered in createdParamsMap_.
  unfoldable pub param_added : List ℕ → ℕ → AdsParamInfo → Creation F → Creation F
  param_added t index p s = record s {
    params = s.params ++ p ∷ [];
    created = s.created ++ (t, index) ∷ [];
    spare_parsed = env.fresh_parsed;
    spare = env.fresh;
  }

  unfoldable pub after_get_address :
      List ℕ → ℕ → AdsParamInfo → Creation F → AsynStatus × W → Created
  unfolding param_added connection_tried created_updated
  after_get_address t index p s (status, w) =
      let (s', w') = connection_tried (param_added t index p s) w in
      if failed status
      then (status, record s { spare = p }, w)
      else created_updated t (length s.params) p s' w'

  unfoldable pub after_create_param :
      List ℕ → AdsParamInfo → Creation F → AsynStatus × ℕ × W → Created
  unfolding set_default after_get_address
  after_create_param t p s (status, index, w) =
      if failed status
      then (asyn_error, s, w)
      else after_get_address t index (record p { param_index = index }) s
          (env.base.get_address (set_default p index w))

  unfoldable pub after_record_info : List ℕ → Creation F → W → AsynStatus × AdsParamInfo → Created
  unfolding after_create_param
  after_record_info t s w (status, p) =
      let s' = record s { spare = p } in
      if failed status
      then (asyn_error, s', w)
      else after_create_param t p s' (env.base.create_param t p.asyn_type w)

  unfoldable pub after_parse :
      List ℕ
      → AdsParamInfo
      → Creation F
      → W
      → AsynStatus × ParsedInfo F × List AmsPortInfo
      → Created
  unfolding with_parsed get_record_info_from_drv_info after_record_info
  after_parse t p s w (status, parsed, ports) =
      let q = with_parsed parsed p in
      let s' = record s { spare_parsed = parsed; spare = q; ports = ports } in
      if failed status
      then (asyn_error, s', w)
      else after_record_info t s' w (get_record_info_from_drv_info env.port_name env.cache t q)

  -- The pointer to the parameter, which an ams port may keep, is its number in the array.
  unfoldable pub param_created : List ℕ → Creation F → W → Created
  unfolding parse_plc_info_from_drv_info after_parse
  param_created t s w =
      let q = record s.spare_parsed {
        sample_time_ms = env.defaults.default_sample_time_ms;
        max_delay_time_ms = env.defaults.default_max_delay_time_ms;
      } in
      let p = record s.spare {
        refresh_needed = true;
        bulk_index = negsuc 0;
        bulk_offset = negsuc 0;
      } in
      after_parse t p s w (
        parse_plc_info_from_drv_info env.scanf env.defaults t env.max_states (length s.params) q
          s.ports)

  unfoldable pub drv_user_create : List ℕ → Creation F → W → Created
  unfolding symbols_resolved validate_drv_info is_created base_created param_created
  drv_user_create t before w =
      let (s, w') = symbols_resolved before w in
      if failed (validate_drv_info t)
      then (asyn_error, s, w')
      else if is_created t s.created
      then base_created t s w'
      else if leb (env.param_table_size - 1) (length s.params)
      then (asyn_error, s, w')
      else param_created t s w'
