-- ===== src/Octet/Scan.antt =====
-- adsApp/src/adsAsynPortDriverUtils.cpp, octetAscii2binary: a text of elements between commas as the
-- bytes of a PLC variable. What sscanf reads of a text is a parameter, the bit pattern for a number.
pub mod Bounds
pub mod Errors
use twincat_ads.DataType.{
  adst_int8, adst_int16, adst_int32, adst_int64, adst_uint8, adst_uint16, adst_uint32, adst_uint64,
  adst_real32, adst_real64, adst_bit, adst_string,
}
use twincat_ads.Octet.{copied_to}
use twincat_ads.Octet.Print.{byte_at}
use twincat_ads.Octet.Print.Points.{invalid_data_type, index_exceeded_size}
use twincat_ads.Octet.Split.{cut}
use twincat_ads.Transfer.Write.{le_bytes}
use twincat_ads.Base.{
  ℕ, zero, suc, ◌+◌, ◌*◌, ◌%◌, ◌^◌, Bool, true, false, List, [], ◌∷◌, ◌++◌, Option, none, some, ltb,
  ◌==◌, if◌then◌else◌, length, not, ◌&&◌,
}

-- `sscanf` has stored a value (its result is 1), found none (0), or was at the text's end (EOF).
pub data Scanned (A : Type 0) : Type 0 where
  value : A → Scanned A
  mismatch : Scanned A
  end_of_text : Scanned A

-- The formats of the numbers, by the ADS type, and "%s".
pub record SscanfValue : Type 0 where
  pub scan_number : ℕ → List ℕ → Scanned ℕ
  pub scan_s : List ℕ → Scanned (List ℕ)

abbrev pub is_mismatch : {A : Type 0} → Scanned A → Bool
is_mismatch mismatch = true
is_mismatch _ = false

-- The size of an element of the types that are numbers.
unfoldable pub number_size : ℕ → Option ℕ
number_size type =
    if type == adst_int8
    then some 1
    else if type == adst_int16
    then some 2
    else if type == adst_int32
    then some 4
    else if type == adst_int64
    then some 8
    else if type == adst_uint8
    then some 1
    else if type == adst_uint16
    then some 2
    else if type == adst_uint32
    then some 4
    else if type == adst_uint64
    then some 8
    else if type == adst_real32
    then some 4
    else if type == adst_real64
    then some 8
    else if type == adst_bit
    then some 1
    else none

-- The variables of the loop; `unconverted` where `converted` is 0.
pub record Scanning : Type 0 where
  pub bytes_processed : ℕ
  pub cycles : ℕ
  pub error : ℕ
  pub bytes_per_data_point : ℕ
  pub unconverted : Bool
  pub binary : ℕ → ℕ

-- The bytes of a scanned number from index `i` on, and those of a text with a final 0 from index 0.
unfoldable pub store_number : ℕ → ℕ → Scanned ℕ → (ℕ → ℕ) → ℕ → ℕ
unfolding byte_at le_bytes
store_number size i (value v) buf = copied_to i size (byte_at (le_bytes size v)) buf
store_number size i mismatch buf = buf
store_number size i end_of_text buf = buf

unfoldable pub store_text : Scanned (List ℕ) → (ℕ → ℕ) → ℕ → ℕ
unfolding byte_at
store_text (value s) buf = copied_to 0 (suc (length s)) (byte_at (s ++ 0 ∷ [])) buf
store_text mismatch buf = buf
store_text end_of_text buf = buf

module _ (scanf : SscanfValue) (data_type binary_buffer_size : ℕ) where
  open scanf use {scan_number, scan_s}

  -- The `switch`.
  unfoldable pub scan_point : List ℕ → Scanning → Scanning
  unfolding number_size store_number store_text
  scan_point text p = elim (number_size data_type) [
    | some size ↦ record p {
      binary = store_number size (size * p.cycles) (scan_number data_type text) p.binary;
      unconverted = is_mismatch (scan_number data_type text);
      bytes_per_data_point = size;
      bytes_processed = (p.bytes_processed + size) % 2 ^ 32;
    }
    | none ↦
        if data_type == adst_string
        then record p {
          binary = store_text (scan_s text) p.binary;
          unconverted = is_mismatch (scan_s text);
          bytes_per_data_point = 1;
          bytes_processed = binary_buffer_size;
        }
        else record p { error = invalid_data_type; bytes_per_data_point = 0 }
  ]

  unfoldable pub scan_checked : Scanning → Scanning
  scan_checked p =
      let exceeded =
        ltb binary_buffer_size ((p.bytes_processed + p.bytes_per_data_point) % 2 ^ 32) in
      record p { cycles = suc p.cycles; error = if exceeded then index_exceeded_size else p.error }

  -- The turns from this text on; each uses one of `n`, and none is the result of a loop that has not
  -- ended.
  unfoldable pub scan_points : ℕ → List ℕ → Scanning → Option Scanning
  unfolding scan_point scan_checked cut
  scan_points zero text p = none
  scan_points (suc n) text p =
      let q = scan_checked (scan_point text p) in
      elim (cut b',' text).1 [
        | none ↦ some q
        | some rest ↦ elim (not q.unconverted && q.error == 0) [
          | true ↦ scan_points n rest q
          | false ↦ some q
        ]
      ]

  -- `converted` is 0 at first. The result has the error code, the bytes processed and the buffer.
  unfoldable pub octet_ascii2binary : ℕ → List ℕ → ℕ → (ℕ → ℕ) → Option Scanning
  unfolding scan_points
  octet_ascii2binary n text bytes_processed buf = scan_points n text (record {
    bytes_processed = bytes_processed;
    cycles = 0;
    error = 0;
    bytes_per_data_point = 0;
    unconverted = true;
    binary = buf;
  })
