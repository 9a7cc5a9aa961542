-- ===== src/Transfer/Write/RoundTrip.antt =====
-- adsApp/src/adsAsynPortDriver.cpp, writeInt32, writeInt64 and adsUpdateParameter: what a write
-- stores in the PLC and a read makes of it.
use twincat_ads.Base.Int.{ℤ, pos, negsuc}
use twincat_ads.Ads.{asyn_param_int32, asyn_param_int64}
use twincat_ads.DataType.{
  adst_int8, adst_int16, adst_int32, adst_int64, adst_uint8, adst_uint16, adst_uint32, adst_uint64,
  ads_type_size,
}
use twincat_ads.Transfer.Decode.{
  Floats, set_integer, set_integer64, signed, half8, half16, half32, half64, pattern_of, posting,
  post_int8, post_int16, post_int32, post_int64, post_uint8, post_uint16, post_uint32, post_uint64,
}
use twincat_ads.EtherCat.{le_number}
use twincat_ads.Transfer.Write.{le_bytes, encode_int32, encode_int64}
use twincat_ads.Base.{
  ℕ, ◌%◌, ◌^◌, ◌<◌, ◌≡◌, refl, ◌⊎◌, inl, inr, Bool, true, List, some, ltb, length, take, arith,
}

-- The numbers of a signed word.
abbrev pub fits : ℕ → ℤ → Bool
fits half (pos n) = ltb n half
fits half (negsuc n) = ltb n half

-- The numbers of `int` that an integer type of the PLC keeps: those of the type's own range, and for
-- UDINT all of them, since its bit pattern is read back as an `int`.
pub data InRange (z : ℤ) : ℕ → Type 0 where
  in_int8 : fits half8 z ≡ true → InRange z adst_int8
  in_int16 : fits half16 z ≡ true → InRange z adst_int16
  in_int32 : fits half32 z ≡ true → InRange z adst_int32
  in_uint8 : (n : ℕ) → z ≡ pos n → n < 0x100 → InRange z adst_uint8
  in_uint16 : (n : ℕ) → z ≡ pos n → n < 0x1_0000 → InRange z adst_uint16
  in_uint32 : fits half32 z ≡ true → InRange z adst_uint32

-- The types that writeInt64 stores.
pub data Is64Bit : ℕ → Type 0 where
  lint : Is64Bit adst_int64
  ulint : Is64Bit adst_uint64

le1 : (x : ℕ) → x < 2 ^ 8 → le_number (take 1 (le_bytes 1 x)) ≡ x
unfolding le_number le_bytes
le1 x h = omega arith

le2 : (x : ℕ) → x < 2 ^ 16 → le_number (take 2 (le_bytes 2 x)) ≡ x
unfolding le_number le_bytes
le2 x h = omega arith

pub le4 : (x : ℕ) → x < 2 ^ 32 → le_number (take 4 (le_bytes 4 x)) ≡ x
unfolding le_number le_bytes
le4 x h = omega arith

le8 : (x : ℕ) → x < 2 ^ 64 → le_number (take 8 (le_bytes 8 x)) ≡ x
unfolding le_number le_bytes
le8 x h = omega arith

mod_small8 : (n : ℕ) → n < 2 ^ 8 → n % 2 ^ 8 ≡ n
mod_small8 n h = omega arith

mod_small16 : (n : ℕ) → n < 2 ^ 16 → n % 2 ^ 16 ≡ n
mod_small16 n h = omega arith

mod_small32 : (n : ℕ) → n < 2 ^ 32 → n % 2 ^ 32 ≡ n
mod_small32 n h = omega arith

mod_small64 : (n : ℕ) → n < 2 ^ 64 → n % 2 ^ 64 ≡ n
mod_small64 n h = omega arith

signed8 : (z : ℤ) → fits half8 z ≡ true → signed half8 (pattern_of (2 ^ 8) z) ≡ z
signed8 (pos n) h = ground arith
signed8 (negsuc n) h = ground arith

pattern8 : (z : ℤ) → pattern_of (2 ^ 8) z < 2 ^ 8
pattern8 (pos n) = omega arith
pattern8 (negsuc n) = omega arith

signed16 : (z : ℤ) → fits half16 z ≡ true → signed half16 (pattern_of (2 ^ 16) z) ≡ z
signed16 (pos n) h = ground arith
signed16 (negsuc n) h = ground arith

pattern16 : (z : ℤ) → pattern_of (2 ^ 16) z < 2 ^ 16
pattern16 (pos n) = omega arith
pattern16 (negsuc n) = omega arith

signed32 : (z : ℤ) → fits half32 z ≡ true → signed half32 (pattern_of (2 ^ 32) z) ≡ z
signed32 (pos n) h = ground arith
signed32 (negsuc n) h = ground arith

pattern32 : (z : ℤ) → pattern_of (2 ^ 32) z < 2 ^ 32
pattern32 (pos n) = omega arith
pattern32 (negsuc n) = omega arith

signed64 : (z : ℤ) → fits half64 z ≡ true → signed half64 (pattern_of (2 ^ 64) z) ≡ z
signed64 (pos n) h = ground arith
signed64 (negsuc n) h = ground arith

pattern64 : (z : ℤ) → pattern_of (2 ^ 64) z < 2 ^ 64
pattern64 (pos n) = omega arith
pattern64 (negsuc n) = omega arith

widen8 : (z : ℤ) → fits half8 z ≡ true → fits half32 z ≡ true
widen8 (pos n) h = ground arith
widen8 (negsuc n) h = ground arith

widen16 : (z : ℤ) → fits half16 z ≡ true → fits half32 z ≡ true
widen16 (pos n) h = ground arith
widen16 (negsuc n) h = ground arith

module _ {F : Type 0} (fl : Floats F) where
  int8_stored :
      (z : ℤ)
      → fits half8 z ≡ true
      → fits half32 z ≡ true
      → posting fl adst_int8 asyn_param_int32 (le_bytes 1 (pattern_of (2 ^ 8) z))
        ≡ some (set_integer z)
  unfolding posting post_int8
  int8_stored z h k = rw (le1 (pattern_of (2 ^ 8) z) (pattern8 z), signed8 z h, signed32 z k)

  int16_stored :
      (z : ℤ)
      → fits half16 z ≡ true
      → fits half32 z ≡ true
      → posting fl adst_int16 asyn_param_int32 (le_bytes 2 (pattern_of (2 ^ 16) z))
        ≡ some (set_integer z)
  unfolding posting post_int16
  int16_stored z h k = rw (le2 (pattern_of (2 ^ 16) z) (pattern16 z), signed16 z h, signed32 z k)

  int32_stored :
      (z : ℤ)
      → fits half32 z ≡ true
      → fits half32 z ≡ true
      → posting fl adst_int32 asyn_param_int32 (le_bytes 4 (pattern_of (2 ^ 32) z))
        ≡ some (set_integer z)
  unfolding posting post_int32
  int32_stored z h k = rw (le4 (pattern_of (2 ^ 32) z) (pattern32 z), signed32 z h, signed32 z k)

  uint8_stored :
      (n : ℕ)
      → n < 2 ^ 8
      → posting fl adst_uint8 asyn_param_int32 (le_bytes 1 (n % 2 ^ 8)) ≡ some (set_integer (pos n))
  unfolding posting post_uint8
  uint8_stored n h =
      rw (le1 (n % 2 ^ 8) (omega arith), signed32 (pos (n % 2 ^ 8)) (ground arith), mod_small8 n h)

  uint16_stored :
      (n : ℕ)
      → n < 2 ^ 16
      → posting fl adst_uint16 asyn_param_int32 (le_bytes 2 (n % 2 ^ 16))
        ≡ some (set_integer (pos n))
  unfolding posting post_uint16
  uint16_stored n h =
      rw (
        le2 (n % 2 ^ 16) (omega arith),
        signed32 (pos (n % 2 ^ 16)) (ground arith),
        mod_small16 n h,
      )

  uint32_stored :
      (z : ℤ)
      → fits half32 z ≡ true
      → posting fl adst_uint32 asyn_param_int32 (le_bytes 4 (pattern_of (2 ^ 32) z))
        ≡ some (set_integer z)
  unfolding posting post_uint32
  uint32_stored z h = rw (
    le4 (pattern_of (2 ^ 32) z) (pattern32 z),
    mod_small32 (pattern_of (2 ^ 32) z) (pattern32 z),
    signed32 z h,
  )

  -- What writeInt32 stores for a number in the range of SINT, INT, DINT, USINT or UINT, or for a
  -- UDINT in the range of DINT, is accepted, and reading the stored bytes back as asynInt32 gives
  -- the number again.
  pub int32-write-read :
      (type : ℕ) (z : ℤ)
      → InRange z type
      → (bytes : List ℕ) × (encode_int32 fl type z ≡ some bytes)
        × (posting fl type asyn_param_int32 bytes ≡ some (set_integer z))
  unfolding encode_int32
  int32-write-read type z (in_int8 h) =
      (le_bytes 1 (pattern_of (2 ^ 8) z), refl, int8_stored z h (widen8 z h))
  int32-write-read type z (in_int16 h) =
      (le_bytes 2 (pattern_of (2 ^ 16) z), refl, int16_stored z h (widen16 z h))
  int32-write-read type z (in_int32 h) =
      (le_bytes 4 (pattern_of (2 ^ 32) z), refl, int32_stored z h h)
  int32-write-read type z (in_uint8 n e h) =
      (le_bytes 1 (pattern_of (2 ^ 8) z), refl, rw (e, uint8_stored n h))
  int32-write-read type z (in_uint16 n e h) =
      (le_bytes 2 (pattern_of (2 ^ 16) z), refl, rw (e, uint16_stored n h))
  int32-write-read type z (in_uint32 h) =
      (le_bytes 4 (pattern_of (2 ^ 32) z), refl, uint32_stored z h)

  int64_stored :
      (z : ℤ)
      → fits half64 z ≡ true
      → posting fl adst_int64 asyn_param_int64 (le_bytes 8 (pattern_of (2 ^ 64) z))
        ≡ some (set_integer64 z)
  unfolding posting post_int64
  int64_stored z h = rw (le8 (pattern_of (2 ^ 64) z) (pattern64 z), signed64 z h)

  uint64_stored :
      (z : ℤ)
      → fits half64 z ≡ true
      → posting fl adst_uint64 asyn_param_int64 (le_bytes 8 (pattern_of (2 ^ 64) z))
        ≡ some (set_integer64 z)
  unfolding posting post_uint64
  uint64_stored z h = rw (
    le8 (pattern_of (2 ^ 64) z) (pattern64 z),
    mod_small64 (pattern_of (2 ^ 64) z) (pattern64 z),
    signed64 z h,
  )

  -- What writeInt64 stores for a 64-bit number in an LINT or ULINT is accepted, and reading the stored
  -- bytes back as asynInt64 gives the number again.
  pub int64-write-read :
      (type : ℕ) (z : ℤ)
      → Is64Bit type
      → fits half64 z ≡ true
      → (bytes : List ℕ) × (encode_int64 type z ≡ some bytes)
        × (posting fl type asyn_param_int64 bytes ≡ some (set_integer64 z))
  unfolding encode_int64
  int64-write-read type z lint h = (le_bytes 8 (pattern_of (2 ^ 64) z), refl, int64_stored z h)
  int64-write-read type z ulint h = (le_bytes 8 (pattern_of (2 ^ 64) z), refl, uint64_stored z h)

  -- Both writes prepare as many bytes as adsTypeSize gives for the type, for every type they accept.
  pub encode-length :
      (type : ℕ) (z : ℤ) (bytes : List ℕ)
      → (encode_int32 fl type z ≡ some bytes) ⊎ (encode_int64 type z ≡ some bytes)
      → length bytes ≡ ads_type_size type
  unfolding encode_int32 encode_int64 ads_type_size le_bytes
  encode-length type z bytes (inl h) = ground arith
  encode-length type z bytes (inr h) = ground arith
