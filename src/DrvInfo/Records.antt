-- ===== src/DrvInfo/Records.antt =====
-- adsApp/src/adsAsynPortDriver.cpp, buildDrvInfoCache and getRecordInfoFromDrvInfo: the records of the
-- EPICS database by the asyn port and the drvInfo text of their links. The database, in the order of
-- dbFirstRecord and dbNextRecord, and what sscanf reads of a link are parameters.
pub mod First
use twincat_ads.Ads.{AsynParamType, AdsParamInfo, other}
use twincat_ads.Names.States.{dtyp_string_to_asyn_type}
use twincat_ads.Upload.Collect.{same_codes}
use twincat_ads.Base.{
  ℕ, Bool, true, false, String, List, [], ◌∷◌, ◌++◌, Option, none, some, AsynStatus, asyn_success,
  asyn_error, if◌then◌else◌, not, ◌&&◌,
}

-- A record with the fields that are read; none where it has no such field.
pub record DbRecord : Type 0 where
  pub record_type : String
  pub record_name : String
  pub is_alias : Bool
  pub dtyp : Option String
  pub inp : Option String
  pub out : Option String

-- RecordInfoCache
pub record RecordInfo : Type 0 where
  pub record_type : String
  pub record_name : String
  pub dtyp : String
  pub asyn_type : AsynParamType
  pub inp : String
  pub out : String

abbrev pub RecordCache : Type 0
RecordCache = List (List ℕ × RecordInfo)

unfoldable pub find_record : List ℕ → RecordCache → Option RecordInfo
unfolding same_codes
find_record key [] = none
find_record key ((k, e) ∷ cache) =
    let rest = find_record key cache in if same_codes k key then some e else rest

-- The key of a port and a text.
abbrev pub record_key : List ℕ → List ℕ → List ℕ
record_key port drv_info = port ++ 0 ∷ drv_info

-- Unless the key is there.
unfoldable pub add_record : List ℕ → RecordInfo → RecordCache → RecordCache
unfolding find_record
add_record key e cache = elim (find_record key cache) [
  | some old ↦ cache
  | none ↦ cache ++ (key, e) ∷ []
]

-- `undefined` is the number of asynParamNotDefined; `scan_link` gives the port and the text of a link
-- "@asyn(port,address,timeout)text".
module _ (undefined : ℕ) (scan_link : String → Option (List ℕ × List ℕ)) where
  unfoldable pub record_type_of : Option String → AsynParamType
  unfolding dtyp_string_to_asyn_type
  record_type_of none = other undefined
  record_type_of (some dtyp) = dtyp_string_to_asyn_type undefined dtyp

  abbrev pub text_or_empty : Option String → String
  text_or_empty none = ""
  text_or_empty (some s) = s

  -- tryLink: the key, unless there is no link to asyn with a port.
  unfoldable pub try_link : Option String → Option (List ℕ)
  try_link none = none
  try_link (some val) = elim (scan_link val) [
    | none ↦ none
    | some (port, drv_info) ↦ elim port [
      | [] ↦ none
      | c ∷ rest ↦ some (record_key (c ∷ rest) drv_info)
    ]
  ]

  unfoldable pub record_info : DbRecord → String → String → RecordInfo
  unfolding record_type_of
  record_info r inp out = record {
    record_type = r.record_type;
    record_name = r.record_name;
    dtyp = text_or_empty r.dtyp;
    asyn_type = record_type_of r.dtyp;
    inp = inp;
    out = out;
  }

  unfoldable pub add_link : Option (List ℕ) → RecordInfo → RecordCache → RecordCache
  unfolding add_record
  add_link none e cache = cache
  add_link (some key) e cache = add_record key e cache

  unfoldable pub with_record : DbRecord → RecordCache → RecordCache
  unfolding try_link record_info add_link
  with_record r cache =
      let by_inp = add_link (try_link r.inp) (record_info r (text_or_empty r.inp) "") cache in
      let by_out = add_link (try_link r.out) (record_info r "" (text_or_empty r.out)) by_inp in
      if r.is_alias then cache else by_out

  unfoldable pub build_drv_info_cache : List DbRecord → RecordCache → RecordCache
  unfolding with_record
  build_drv_info_cache [] cache = cache
  build_drv_info_cache (r ∷ records) cache = build_drv_info_cache records (with_record r cache)

-- Of the fields that are set, the model's parameter has the asyn type.
unfoldable pub get_record_info_from_drv_info :
    List ℕ → RecordCache → List ℕ → AdsParamInfo → AsynStatus × AdsParamInfo
unfolding find_record
get_record_info_from_drv_info port_name cache drv_info p =
    elim (find_record (record_key port_name drv_info) cache) [
      | none ↦ (asyn_error, p)
      | some e ↦ (asyn_success, record p { asyn_type = e.asyn_type })
    ]
