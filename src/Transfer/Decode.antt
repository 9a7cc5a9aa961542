-- ===== src/Transfer/Decode.antt =====
-- adsApp/src/adsAsynPortDriver.cpp, adsUpdateParameter: its `switch` over the PLC's and asyn's types,
-- which makes an asyn value of the bytes of a PLC variable. Conversions to and from double are
-- parameters; those between integers keep their wrap-around.
use twincat_ads.Base.Int.{ℤ, pos, negsuc}
use twincat_ads.Ads.{
  AsynParamType, asyn_param_int32, asyn_param_int64, asyn_param_float64, asyn_param_int8_array,
  asyn_param_int16_array, asyn_param_int32_array, asyn_param_int64_array, asyn_param_float32_array,
  asyn_param_float64_array,
}
use twincat_ads.DataType.{
  adst_int8, adst_int16, adst_int32, adst_int64, adst_uint8, adst_uint16, adst_uint32, adst_uint64,
  adst_real32, adst_real64, adst_bit, adst_string,
}
use twincat_ads.EtherCat.{le_number}
use twincat_ads.Base.{
  ℕ, ◌-◌, ◌*◌, ◌%◌, ◌^◌, Bool, List, Option, none, some, ltb, ◌==◌, if◌then◌else◌, take,
}

-- The conversions that involve a double, and float and double as bit patterns.
pub record Floats (F : Type 0) : Type 0 where
  pub of_int : ℤ → F
  pub of_bits32 : ℕ → F
  pub of_bits64 : ℕ → F
  pub to_int32 : F → ℤ
  pub bits32_of_int : ℤ → ℕ
  pub bits64_of_int : ℤ → ℕ
  -- The bits of the cast of a double to the integer type of an ADS type, to float and to double.
  pub int_bits : ℕ → F → ℕ
  pub bits32 : F → ℕ
  pub bits64 : F → ℕ
  pub is_above_zero : F → Bool

-- The number that a bit pattern below `2 * half` stands for.
abbrev pub signed : ℕ → ℕ → ℤ
signed half n = if ltb n half then pos n else negsuc (2 * half - n - 1)

-- The bit pattern of a number in a word with `size` values.
abbrev pub pattern_of : ℕ → ℤ → ℕ
pattern_of size (pos n) = n % size
pattern_of size (negsuc n) = size - 1 - n % size

abbrev pub half8 : ℕ
half8 = 0x80

abbrev pub half16 : ℕ
half16 = 0x8000

abbrev pub half32 : ℕ
half32 = 0x8000_0000

abbrev pub half64 : ℕ
half64 = 0x8000_0000_0000_0000

-- The casts to `int` and to `epicsInt64`.
abbrev pub int32_of : ℤ → ℤ
int32_of z = signed half32 (pattern_of (2 ^ 32) z)

abbrev pub int64_of : ℤ → ℤ
int64_of z = signed half64 (pattern_of (2 ^ 64) z)

-- What is done with a value: an asyn parameter is set, or the callbacks of its array are queued.
pub data Posting (F : Type 0) : Type 0 where
  set_integer : ℤ → Posting F
  set_integer64 : ℤ → Posting F
  set_double : F → Posting F
  queue_array : Posting F

-- The inner `switch` for each PLC type; `none` is a combination that is not supported.
module _ {F : Type 0} (fl : Floats F) where
  open fl use {of_int, of_bits32, of_bits64, to_int32}

  unfoldable pub post_int8 : ℤ → AsynParamType → Option (Posting F)
  post_int8 v asyn_param_int32 = some (set_integer (int32_of v))
  post_int8 v asyn_param_float64 = some (set_double (of_int v))
  post_int8 v asyn_param_int8_array = some queue_array
  post_int8 v _ = none

  unfoldable pub post_int16 : ℤ → AsynParamType → Option (Posting F)
  post_int16 v asyn_param_int32 = some (set_integer (int32_of v))
  post_int16 v asyn_param_float64 = some (set_double (of_int v))
  post_int16 v asyn_param_int16_array = some queue_array
  post_int16 v _ = none

  unfoldable pub post_int32 : ℤ → AsynParamType → Option (Posting F)
  post_int32 v asyn_param_int32 = some (set_integer (int32_of v))
  post_int32 v asyn_param_float64 = some (set_double (of_int v))
  post_int32 v asyn_param_int32_array = some queue_array
  post_int32 v _ = none

  unfoldable pub post_int64 : ℤ → AsynParamType → Option (Posting F)
  post_int64 v asyn_param_int32 = some (set_integer (int32_of v))
  post_int64 v asyn_param_float64 = some (set_double (of_int v))
  post_int64 v asyn_param_int64 = some (set_integer64 v)
  post_int64 v asyn_param_int64_array = some queue_array
  post_int64 v _ = none

  unfoldable pub post_uint8 : ℤ → AsynParamType → Option (Posting F)
  post_uint8 v asyn_param_int32 = some (set_integer (int32_of v))
  post_uint8 v asyn_param_float64 = some (set_double (of_int v))
  post_uint8 v _ = none

  unfoldable pub post_uint16 : ℤ → AsynParamType → Option (Posting F)
  post_uint16 v asyn_param_int32 = some (set_integer (int32_of v))
  post_uint16 v asyn_param_float64 = some (set_double (of_int v))
  post_uint16 v _ = none

  unfoldable pub post_uint32 : ℤ → AsynParamType → Option (Posting F)
  post_uint32 v asyn_param_int32 = some (set_integer (int32_of v))
  post_uint32 v asyn_param_float64 = some (set_double (of_int v))
  post_uint32 v _ = none

  unfoldable pub post_uint64 : ℤ → AsynParamType → Option (Posting F)
  post_uint64 v asyn_param_int32 = some (set_integer (int32_of v))
  post_uint64 v asyn_param_float64 = some (set_double (of_int v))
  post_uint64 v asyn_param_int64 = some (set_integer64 (int64_of v))
  post_uint64 v asyn_param_int64_array = some queue_array
  post_uint64 v _ = none

  unfoldable pub post_real32 : F → AsynParamType → Option (Posting F)
  post_real32 v asyn_param_int32 = some (set_integer (to_int32 v))
  post_real32 v asyn_param_float64 = some (set_double v)
  post_real32 v asyn_param_float32_array = some queue_array
  post_real32 v _ = none

  unfoldable pub post_real64 : F → AsynParamType → Option (Posting F)
  post_real64 v asyn_param_int32 = some (set_integer (to_int32 v))
  post_real64 v asyn_param_float64 = some (set_double v)
  post_real64 v asyn_param_float64_array = some queue_array
  post_real64 v _ = none

  unfoldable pub post_bit : ℤ → AsynParamType → Option (Posting F)
  post_bit v asyn_param_int32 = some (set_integer (int32_of v))
  post_bit v asyn_param_float64 = some (set_double (of_int v))
  post_bit v asyn_param_int8_array = some queue_array
  post_bit v _ = none

  unfoldable pub post_string : AsynParamType → Option (Posting F)
  post_string asyn_param_int8_array = some queue_array
  post_string _ = none

  -- The outer `switch`.
  unfoldable pub posting : ℕ → AsynParamType → List ℕ → Option (Posting F)
  unfolding post_int8 post_int16 post_int32 post_int64 post_uint8 post_uint16 post_uint32
      post_uint64 post_real32 post_real64 post_bit post_string
  posting type asyn_type bytes =
      if type == adst_int8
      then post_int8 (signed half8 (le_number (take 1 bytes))) asyn_type
      else if type == adst_int16
      then post_int16 (signed half16 (le_number (take 2 bytes))) asyn_type
      else if type == adst_int32
      then post_int32 (signed half32 (le_number (take 4 bytes))) asyn_type
      else if type == adst_int64
      then post_int64 (signed half64 (le_number (take 8 bytes))) asyn_type
      else if type == adst_uint8
      then post_uint8 (pos (le_number (take 1 bytes))) asyn_type
      else if type == adst_uint16
      then post_uint16 (pos (le_number (take 2 bytes))) asyn_type
      else if type == adst_uint32
      then post_uint32 (pos (le_number (take 4 bytes))) asyn_type
      else if type == adst_uint64
      then post_uint64 (pos (le_number (take 8 bytes))) asyn_type
      else if type == adst_real32
      then post_real32 (of_bits32 (le_number (take 4 bytes))) asyn_type
      else if type == adst_real64
      then post_real64 (of_bits64 (le_number (take 8 bytes))) asyn_type
      else if type == adst_bit
      then post_bit (signed half8 (le_number (take 1 bytes))) asyn_type
      else if type == adst_string
      then post_string asyn_type
      else none
