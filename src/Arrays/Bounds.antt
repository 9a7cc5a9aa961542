-- ===== src/Arrays/Bounds.antt =====
-- adsApp/src/adsAsynPortDriver.cpp, fireCallbacksForArrayParam and writeFloat64Array: how many bytes
-- they touch.
use mathlib.Core.Path.{subst}
use native.Mathlib.Nat.{mul-le-mul_right, mul_comm}
use twincat_ads.Ads.{AdsParamInfo, AsynParamType}
use twincat_ads.Arrays.{bytes_to_write, float64_bytes}
use twincat_ads.DataType.{
  adst_int8, adst_int16, adst_int32, adst_int64, adst_uint64, adst_real32, adst_real64, adst_bit,
  adst_string,
}
use twincat_ads.Arrays.Fire.{
  is_int8_array, is_int16_array, is_int32_array, is_int64_array, is_float32_array, is_float64_array,
  ArrayCallback, int8_array, int16_array, int32_array, int64_array, float32_array, float64_array,
  array_callback,
}
use twincat_ads.Base.{
  ℕ, suc, ◌+◌, ◌*◌, ◌/◌, ◌^◌, ◌≤◌, ◌<◌, ◌≡◌, refl, Bool, Option, none, some, ◌==◌, if◌then◌else◌,
  if-intro, arith,
}

-- What callbacks of `n` elements read of an array of `size` bytes: whole elements within it, or as many
-- elements as there are bytes.
unfoldable pub Reads : ℕ → ArrayCallback × ℕ → Type 0
Reads size (int8_array, n) = (n ≡ size) × (n * 1 ≤ size)
Reads size (int16_array, n) = (n ≡ size) × (n * 2 ≡ 2 * size)
Reads size (int32_array, n) = (n ≡ size) × (n * 4 ≡ 4 * size)
Reads size (int64_array, n) = (n * 8 ≤ size) × (size < (n + 1) * 8)
Reads size (float32_array, n) = (n ≡ size) × (n * 4 ≡ 4 * size)
Reads size (float64_array, n) = (n ≡ size) × (n * 8 ≡ 8 * size)

abbrev ReadsIf : ℕ → Option (ArrayCallback × ℕ) → Type 0
ReadsIf size none = Unit
ReadsIf size (some x) = Reads size x

supported-ReadsIf :
    (size : ℕ) (supported : Bool) (x : ArrayCallback × ℕ)
    → Reads size x
    → ReadsIf size (if supported then some x else none)
supported-ReadsIf size supported x r = if-intro (ReadsIf size) supported (λ _. r) (λ _. tt)

array_callback-ReadsIf :
    (type : ℕ) (asyn_type : AsynParamType) (size : ℕ)
    → ReadsIf size (array_callback type asyn_type size)
unfolding array_callback Reads
array_callback-ReadsIf type asyn_type size =
    let P = ReadsIf size in
    let bytes = λ (b : Bool). supported-ReadsIf size b (int8_array, size) (refl, omega arith) in
    let eighth =
      λ (b : Bool). supported-ReadsIf size b (int64_array, size / 8) (omega arith, omega arith) in
    if-intro P (type == adst_int8) (λ _. bytes (is_int8_array asyn_type))
      λ _.
        if-intro P (type == adst_int16)
          (λ _.
            supported-ReadsIf size (is_int16_array asyn_type) (int16_array, size)
              (refl, mul_comm size 2))
          λ _.
            if-intro P (type == adst_int32)
              (λ _.
                supported-ReadsIf size (is_int32_array asyn_type) (int32_array, size)
                  (refl, mul_comm size 4))
              λ _.
                if-intro P (type == adst_int64) (λ _. eighth (is_int64_array asyn_type))
                  λ _.
                    if-intro P (type == adst_uint64) (λ _. eighth (is_int64_array asyn_type))
                      λ _.
                        if-intro P (type == adst_real32)
                          (λ _.
                            supported-ReadsIf size (is_float32_array asyn_type)
                              (float32_array, size) (refl, mul_comm size 4))
                          λ _.
                            if-intro P (type == adst_real64)
                              (λ _.
                                supported-ReadsIf size (is_float64_array asyn_type)
                                  (float64_array, size) (refl, mul_comm size 8))
                              λ _.
                                if-intro P (type == adst_bit) (λ _. bytes (is_int8_array asyn_type))
                                  λ _.
                                    if-intro P (type == adst_string)
                                      (λ _. bytes (is_int8_array asyn_type)) λ _. tt

-- Where an array of `size` bytes has callbacks, those of 8-bit integers are told of `size` elements and
-- those of 64-bit integers of the whole elements that it has, so both stay within it; those of 16-bit and
-- 32-bit integers, floats and doubles are told of `size` elements too, and read 2, 4, 4 and 8 times its
-- bytes.
pub array_callback-Reads :
    (type : ℕ) (asyn_type : AsynParamType) (size : ℕ) (x : ArrayCallback × ℕ)
    → array_callback type asyn_type size ≡ some x
    → Reads size x
array_callback-Reads type asyn_type size x h =
    subst (ReadsIf size) h (array_callback-ReadsIf type asyn_type size)

square : (n : ℕ) → 2 ≤ n → suc n ≤ n * n
square n h = let wide : 2 * n ≤ n * n = mul-le-mul_right n h in omega (arith, wide, h)

-- Of writeFloat64Array, for arrays of two elements and more as long as no `size_t` overflows: if the
-- PLC's variable is larger than EPICS' array, then more bytes are copied than EPICS' array has.
pub float64_bytes-overread :
    (n : ℕ) (p : AdsParamInfo)
    → 2 ≤ n
    → n * n * 8 < 2 ^ 64
    → n * 8 < p.plc_size
    → n * 8 < bytes_to_write (float64_bytes n) p
float64_bytes-overread n p two small large =
    let more = square n two in ground (arith, more, two, small, large)
