-- ===== src/Symbol.antt =====
-- adsApp/src/adsAsynPortDriver.cpp, symbolic access: adsGetSymInfoByName, adsGetSymHandleByName and
-- adsReleaseSymbolicHandle. An operation takes the state of the ADS library and gives its status,
-- the structure that it changes, and the new state. Traces are left out.
use mathlib.Core.Option.{get_or}
use twincat_ads.Ads.{AdsSymbolEntry, AdsParamInfo, AdsApi}
use twincat_ads.Base.{
  ℕ, ◌+◌, Bool, true, false, ◌&&◌, not, String, List, [], Option, none, some, AsynStatus,
  asyn_success, asyn_error, leb, ◌==◌, if◌then◌else◌,
}

-- `(uint32_t)-1`, the value of a handle that was given up.
abbrev pub no_handle : ℕ
no_handle = 4294967295

-- sizeof(info->buffer) - 1
abbrev pub symbol_buffer_last : ℕ
symbol_buffer_last = 767

-- The structure after `memset(&infoStruct, 0, sizeof(infoStruct))`.
abbrev pub zero_symbol : AdsSymbolEntry
zero_symbol = record {
  i_group = 0;
  i_offset = 0;
  size = 0;
  data_type = 0;
  name_length = 0;
  type_length = 0;
  buffer = [];
  variable_name = none;
  sym_data_type = none;
  sym_comment = none;
}

-- What follows a successful request: the name pointer is set, then the lengths are checked. The
-- check of the comment only prints.
abbrev pub set_symbol_pointers : AdsSymbolEntry → AsynStatus × AdsSymbolEntry
set_symbol_pointers info =
    if leb symbol_buffer_last info.name_length
    then (asyn_error, record info { variable_name = some 0 })
    else (
      asyn_success,
      record info {
        variable_name = some 0;
        sym_data_type = some (info.name_length + 1);
        sym_comment = some (info.name_length + 1 + info.type_length + 1);
      },
    )

module _ {W : Type 0} (api : AdsApi W) (remote_net_id : List ℕ) (client : ℕ) where
  open api use {sym_hndbyname, sym_releasehnd, sym_infobynameex}
  open api use {read_write_u32, read_write_symbol, write_u32}

  -- Status, error code, structure.
  unfoldable pub after_symbol_request :
      AdsSymbolEntry → ℕ × Option AdsSymbolEntry × W → AsynStatus × ℕ × AdsSymbolEntry × W
  after_symbol_request info (status, reply, w) =
      let received = get_or reply info in
      let (r, checked) = set_symbol_pointers received in
      if status == 0 then (r, status, checked, w) else (asyn_error, status, received, w)

  unfoldable pub ads_get_symbol :
      ℕ → String → AdsSymbolEntry → W → AsynStatus × ℕ × AdsSymbolEntry × W
  unfolding after_symbol_request
  ads_get_symbol ams_port var_name info w = after_symbol_request info (
      read_write_symbol client (record { net_id = remote_net_id; port = ams_port }) sym_infobynameex
        0 var_name w)

  unfoldable pub fill_from_symbol :
      AdsParamInfo → AsynStatus × ℕ × AdsSymbolEntry × W → AsynStatus × AdsParamInfo × W
  fill_from_symbol p (asyn_success, code, info, w) = (
    asyn_success,
    record p {
      plc_abs_adr_group = info.i_group;
      plc_abs_adr_offset = info.i_offset;
      plc_size = info.size;
      plc_data_type = info.data_type;
      plc_abs_adr_valid = true;
    },
    w,
  )
  fill_from_symbol p (_, code, info, w) = (asyn_error, p, w)

  unfoldable pub ads_get_sym_info_by_name : AdsParamInfo → W → AsynStatus × AdsParamInfo × W
  unfolding fill_from_symbol ads_get_symbol
  ads_get_sym_info_by_name p w =
      fill_from_symbol p (ads_get_symbol p.ams_port p.plc_adr_str zero_symbol w)

  unfoldable pub store_handle : AdsParamInfo → ℕ × Option ℕ × W → AsynStatus × AdsParamInfo × W
  store_handle p (status, reply, w) =
      if status == 0
      then (
        asyn_success,
        record p { h_symbolic_handle = get_or reply 0; symbolic_handle_valid = true },
        w,
      )
      else (asyn_error, p, w)

  unfoldable pub ads_get_sym_handle_by_name : AdsParamInfo → W → AsynStatus × AdsParamInfo × W
  unfolding store_handle
  ads_get_sym_handle_by_name p w = store_handle p (
      read_write_u32 client (record { net_id = remote_net_id; port = p.ams_port }) sym_hndbyname 0
        p.plc_adr_str w)

  unfoldable pub released_handle : Bool → AdsParamInfo → ℕ × W → AsynStatus × AdsParamInfo × W
  released_handle block_error_msg p (status, w) = (
    if not (status == 0) && not block_error_msg then asyn_error else asyn_success,
    record p { h_symbolic_handle = no_handle; symbolic_handle_valid = false },
    w,
  )

  unfoldable pub ads_release_symbolic_handle :
      AdsParamInfo → Bool → W → AsynStatus × AdsParamInfo × W
  unfolding released_handle
  ads_release_symbolic_handle p block_error_msg w = released_handle block_error_msg p (
      write_u32 client (record { net_id = remote_net_id; port = p.ams_port }) sym_releasehnd 0
        p.h_symbolic_handle w)
