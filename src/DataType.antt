-- ===== src/DataType.antt =====
-- adsApp/src/adsAsynPortDriverUtils.h and .cpp, the ADS data types: ADSDATATYPEID, adsTypeToString,
-- adsTypeSize. A `switch` over numbers is a ladder of tests in the order of its cases.
use twincat_ads.Base.{ℕ, ◌-◌, ◌^◌, String, ◌==◌, if◌then◌else◌}

abbrev pub adst_void : ℕ
adst_void = 0

abbrev pub adst_int16 : ℕ
adst_int16 = 2

abbrev pub adst_int32 : ℕ
adst_int32 = 3

abbrev pub adst_real32 : ℕ
adst_real32 = 4

abbrev pub adst_real64 : ℕ
adst_real64 = 5

abbrev pub adst_int8 : ℕ
adst_int8 = 16

abbrev pub adst_uint8 : ℕ
adst_uint8 = 17

abbrev pub adst_uint16 : ℕ
adst_uint16 = 18

abbrev pub adst_uint32 : ℕ
adst_uint32 = 19

abbrev pub adst_int64 : ℕ
adst_int64 = 20

abbrev pub adst_uint64 : ℕ
adst_uint64 = 21

abbrev pub adst_string : ℕ
adst_string = 30

abbrev pub adst_wstring : ℕ
adst_wstring = 31

abbrev pub adst_real80 : ℕ
adst_real80 = 32

abbrev pub adst_bit : ℕ
adst_bit = 33

abbrev pub adst_bigtype : ℕ
adst_bigtype = 65

abbrev pub adst_maxtypes : ℕ
adst_maxtypes = 66

-- `(size_t)-1`
abbrev pub size_max : ℕ
size_max = 2 ^ 64 - 1

unfoldable pub ads_type_size : ℕ → ℕ
ads_type_size type =
    if type == adst_void
    then 0
    else if type == adst_int16
    then 2
    else if type == adst_int32
    then 4
    else if type == adst_real32
    then 4
    else if type == adst_real64
    then 8
    else if type == adst_int8
    then 1
    else if type == adst_uint8
    then 1
    else if type == adst_uint16
    then 2
    else if type == adst_uint32
    then 4
    else if type == adst_int64
    then 8
    else if type == adst_uint64
    then 8
    else if type == adst_string
    then 1
    else if type == adst_wstring
    then size_max
    else if type == adst_real80
    then 10
    else if type == adst_bit
    then 1
    else if type == adst_bigtype
    then size_max
    else if type == adst_maxtypes
    then size_max
    else size_max

unfoldable pub ads_type_to_string : ℕ → String
ads_type_to_string type =
    if type == adst_void
    then "ADST_VOID"
    else if type == adst_int16
    then "ADST_INT16"
    else if type == adst_int32
    then "ADST_INT32"
    else if type == adst_real32
    then "ADST_REAL32"
    else if type == adst_real64
    then "ADST_REAL64"
    else if type == adst_int8
    then "ADST_INT8"
    else if type == adst_uint8
    then "ADST_UINT8"
    else if type == adst_uint16
    then "ADST_UINT16"
    else if type == adst_uint32
    then "ADST_UINT32"
    else if type == adst_int64
    then "ADST_INT64"
    else if type == adst_uint64
    then "ADST_UINT64"
    else if type == adst_string
    then "ADST_STRING"
    else if type == adst_wstring
    then "ADST_WSTRING"
    else if type == adst_real80
    then "ADST_REAL80"
    else if type == adst_bit
    then "ADST_BIT"
    else if type == adst_bigtype
    then "ADST_BIGTYPE"
    else if type == adst_maxtypes
    then "ADST_MAXTYPES"
    else "ADS_UNKNOWN_DATATYPE"
