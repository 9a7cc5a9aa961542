-- ===== src/Update.antt =====
-- adsApp/src/adsAsynPortDriver.cpp, the life of a parameter's PLC information:
-- updateParamInfoWithPLCInfo. `symbolDict_` is a list of entries by lower-case name; `std::tolower`
-- on a text, the dictionary and whether `calloc` finds memory are parameters. The call of `unlock()`
-- after a failed `calloc` is not part of the model.
pub mod Refresh
pub mod Outcome
pub mod Invalidate
pub mod Refreshed
use twincat_ads.Base.Int.{ℤ}
use twincat_ads.Ads.{AdsParamInfo, AmsPortInfo, AdsDataSource, plc, ams_state, AdsApi}
use twincat_ads.DataType.{
  adst_void, adst_string, adst_wstring, adst_bigtype, adst_maxtypes, ads_type_size,
}
use twincat_ads.Symbol.{
  ads_get_sym_info_by_name, ads_get_sym_handle_by_name, ads_release_symbolic_handle,
}
use twincat_ads.Notify.{
  NotifyConfig, ads_add_data_callback, ads_del_data_callback, ads_add_symbols_changed_callback,
  ads_del_symbols_changed_callback,
}
use twincat_ads.Bulk.{BulkState, BulkReadInfo, TsEntry, maxbulk, ads_add_to_bulk_read}
use text.Mathlib.Text.{◌==◌ as str_eq}
use twincat_ads.Base.{
  ℕ, zero, suc, ◌*◌, ◌≡◌, Bool, true, false, ◌&&◌, ◌||◌, not, String, List, [], ◌∷◌, map, Option,
  none, some, AsynStatus, asyn_success, asyn_error, failed, ltb, ◌==◌, if◌then◌else◌, replicate,
}

-- AdsSymbolDictEntry, without the name of the record, which nothing sets.
pub record AdsSymbolDictEntry : Type 0 where
  pub symbol : String
  pub symbol_lower : String
  pub datatype : String
  pub size : ℕ
  pub adst : ℕ
  pub handle : ℕ
  pub resolved : Bool

abbrev pub SymbolDict : Type 0
SymbolDict = List (String × AdsSymbolDictEntry)

unfoldable pub lookup_symbol : String → SymbolDict → Option AdsSymbolDictEntry
lookup_symbol k [] = none
lookup_symbol k ((j, e) ∷ d) = if str_eq j k then some e else lookup_symbol k d

pub record UpdateEnv : Type 0 where
  pub notify : NotifyConfig
  pub symbol_dict : SymbolDict
  pub to_lower : String → String
  pub calloc_succeeds : ℕ → Bool

-- The parameter, the table of bulk reads and the PLC.
abbrev pub Outcome : Type 0 → Type 0
Outcome W = AsynStatus × AdsParamInfo × BulkState × W

unfoldable pub usable : AdsSymbolDictEntry → Bool
usable e = e.resolved && ltb 0 e.size && not (e.adst == adst_void)

-- The entry of the dictionary that the parameter is filled from, if any.
unfoldable pub dict_entry : UpdateEnv → AdsParamInfo → Option AdsSymbolDictEntry
unfolding usable lookup_symbol
dict_entry env p =
    if p.is_adr_command
    then none
    else elim (lookup_symbol (env.to_lower p.plc_adr_str) env.symbol_dict) [
      | some e ↦ if usable e then some e else none
      | none ↦ none
    ]

unfoldable pub fill_from_dict : AdsParamInfo → AdsSymbolDictEntry → AdsParamInfo
fill_from_dict p e = record p {
  plc_data_type = e.adst;
  plc_size = e.size;
  h_symbolic_handle = e.handle;
  symbolic_handle_valid = true;
}

unfoldable pub is_array : ℕ → ℕ → Bool
is_array data_type size =
    if data_type == adst_void
    then false
    else if data_type == adst_string || data_type == adst_wstring
    then true
    else if data_type == adst_bigtype || data_type == adst_maxtypes
    then false
    else ltb (ads_type_size data_type) size

-- The buffer is freed when the size of the array has changed, and allocated if there is none.
unfoldable pub freed : AdsParamInfo → Option ℕ
freed p = if p.plc_size == p.array_data_buffer_size then p.array_data_buffer else none

unfoldable pub allocated : UpdateEnv → AdsParamInfo → Option ℕ → AsynStatus × AdsParamInfo
allocated env p (some n) = (asyn_success, record p { array_data_buffer = some n })
allocated env p none =
    if env.calloc_succeeds p.plc_size
    then (
      asyn_success,
      record p {
        array_data_buffer = some p.plc_size;
        array_data = replicate p.plc_size 0;
        array_data_buffer_size = p.plc_size;
      },
    )
    else (asyn_error, record p { array_data_buffer = none; array_data_buffer_size = p.plc_size })

unfoldable pub set_array : UpdateEnv → AdsParamInfo → AsynStatus × AdsParamInfo
unfolding is_array freed allocated
set_array env p =
    let q = record p { plc_data_is_array = is_array p.plc_data_type p.plc_size } in
    if q.plc_data_is_array then allocated env q (freed q) else (asyn_success, q)

module _ {W : Type 0} (api : AdsApi W) (remote_net_id : List ℕ) (client : ℕ) (env : UpdateEnv) where
  -- Type and size: from the dictionary, from the PLC, or from the .ADR. command.
  unfoldable pub fetch_info :
      Option AdsSymbolDictEntry → AdsParamInfo → W → AsynStatus × AdsParamInfo × W
  fetch_info (some e) p w = (asyn_success, fill_from_dict p e, w)
  fetch_info none p w =
      if p.is_adr_command
      then (asyn_success, p, w)
      else ads_get_sym_info_by_name api remote_net_id client p w

  unfoldable pub renew_handle : AsynStatus × AdsParamInfo × W → AsynStatus × AdsParamInfo × W
  renew_handle (_, p, w) = ads_get_sym_handle_by_name api remote_net_id client p w

  -- The handle of the dictionary is kept; otherwise the old one is released and a new one asked for.
  unfoldable pub fetch_handle :
      Option AdsSymbolDictEntry → AdsParamInfo → W → AsynStatus × AdsParamInfo × W
  unfolding renew_handle
  fetch_handle (some e) p w = (asyn_success, p, w)
  fetch_handle none p w =
      if p.is_adr_command
      then (asyn_success, p, w)
      else renew_handle (ads_release_symbolic_handle api remote_net_id client p true w)

  unfoldable pub with_bulk : BulkState → AsynStatus × AdsParamInfo × W → Outcome W
  with_bulk s (status, p, w) = (status, p, s, w)

  unfoldable pub resubscribe : AsynStatus × AdsParamInfo × W → AsynStatus × AdsParamInfo × W
  resubscribe (_, p, w) = ads_add_data_callback api remote_net_id client env.notify p w

  -- An input is either subscribed to or put into a bulk read.
  unfoldable pub connect_input : AdsParamInfo → BulkState → W → Outcome W
  unfolding with_bulk resubscribe
  connect_input p s w =
      if p.is_io_intr
      then if not p.is_bulk_read || ltb (1024 * 1024) p.plc_size
        then with_bulk s (resubscribe (ads_del_data_callback api remote_net_id client p true w))
        else ads_add_to_bulk_read api remote_net_id client p s w
      else (asyn_success, p, s, w)

  unfoldable pub finish : Outcome W → Outcome W
  finish (asyn_success, p, s, w) = (asyn_success, record p { refresh_needed = false }, s, w)
  finish (_, p, s, w) = (asyn_error, p, s, w)

  unfoldable pub after_handle : BulkState → AsynStatus × AdsParamInfo × W → Outcome W
  unfolding finish
  after_handle s (asyn_success, p, w) = finish (connect_input p s w)
  after_handle s (_, p, w) = (asyn_error, p, s, w)

  unfoldable pub after_array :
      Option AdsSymbolDictEntry → BulkState → W → AsynStatus × AdsParamInfo → Outcome W
  unfolding after_handle
  after_array d s w (asyn_success, p) = after_handle s (fetch_handle d p w)
  after_array d s w (_, p) = (asyn_error, p, s, w)

  unfoldable pub after_info :
      Option AdsSymbolDictEntry → BulkState → AsynStatus × AdsParamInfo × W → Outcome W
  unfolding after_array
  after_info d s (asyn_success, p, w) = after_array d s w (set_array env p)
  after_info d s (_, p, w) = (asyn_error, p, s, w)

  unfoldable pub update_plc_data : AdsParamInfo → BulkState → W → Outcome W
  unfolding after_info
  update_plc_data p s w = let d = dict_entry env p in after_info d s (fetch_info d p w)

  unfoldable pub update_param_info_with_plc_info : AdsParamInfo → BulkState → W → Outcome W
  unfolding update_plc_data
  update_param_info_with_plc_info p s w = elim p.data_source [
    | plc ↦ update_plc_data p s w
    | ams_state ↦ (asyn_success, record p { refresh_needed = false }, s, w)
  ]
