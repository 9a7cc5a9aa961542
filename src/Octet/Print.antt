-- ===== src/Octet/Print.antt =====
-- adsApp/src/adsAsynPortDriverUtils.cpp, octetBinary2ascii: the bytes of a PLC variable as text in the
-- output buffer. The texts that printf makes of numbers are parameters; the numbers are the bytes'
-- little-endian values. The text of a variable's name is looked up in the symbol's description.
pub mod Points
pub mod Halts
pub mod Hangs
pub mod Room
use twincat_ads.Base.Int.{ℤ, pos}
use twincat_ads.Ads.{AdsSymbolEntry}
use twincat_ads.Bulk.{search_from}
use twincat_ads.DataType.{
  adst_int8, adst_int16, adst_int32, adst_int64, adst_uint8, adst_uint16, adst_uint32, adst_uint64,
  adst_real32, adst_real64, adst_bit,
}
use twincat_ads.EtherCat.{le_number}
use twincat_ads.Octet.{OctetBuffer, octet_cmd_buf_printf, bytes_from}
use twincat_ads.Transfer.Decode.{signed, half8, half16, half32}
use twincat_ads.Base.{
  ℕ, ◌-◌, ◌*◌, Bool, List, [], ◌∷◌, Option, none, some, ltb, ◌==◌, if◌then◌else◌, length, drop,
  get_elem?,
}

-- The formats "%d" and "%hhd", "%hhu", "% PRId64" and "% PRIu64" (which are no conversions, so that C
-- does not say what is printed), "%x",
-- "%f" and "%lf" of the bits of a float and a double.
pub record Printf : Type 0 where
  pub print_d : ℤ → List ℕ
  pub print_hhu : ℕ → List ℕ
  pub print_prid64 : ℕ → List ℕ
  pub print_priu64 : ℕ → List ℕ
  pub print_x : ℕ → List ℕ
  pub print_f : ℕ → List ℕ
  pub print_lf : ℕ → List ℕ
  -- The memory that follows the 4096 bytes that cmd_buf_vprintf allocates.
  pub heap : ℕ → ℕ

unfoldable pub byte_at : List ℕ → ℕ → ℕ
byte_at s i = elim (get_elem? s i) [ none ↦ 0 | some c ↦ c ]

-- `buf` after `vsnprintf(buf, len - 1, ...)`.
unfoldable pub formatted : (ℕ → ℕ) → List ℕ → ℕ → ℕ
unfolding byte_at
formatted heap text i = if ltb i 4094 then byte_at text i else if ltb i 4096 then 0 else heap i

-- The bytes from offset `i` of a buffer of `n` bytes, up to the first 0.
unfoldable pub c_text : ℕ → ℕ → (ℕ → ℕ) → List ℕ
unfolding search_from bytes_from
c_text n i a = bytes_from (search_from (n - i) (λ j. a j == 0) i - i) i a

-- The text at a pointer into the buffer of the symbol's description; "(null)" for the null pointer.
unfoldable pub symbol_text : AdsSymbolEntry → Option ℕ → Option (List ℕ)
unfolding c_text byte_at
symbol_text info pointer = elim pointer [
  | none ↦ none
  | some offset ↦ some (c_text (length info.buffer) offset (byte_at info.buffer))
]

module _ (fmt : Printf) where
  open fmt use {print_d, print_hhu, print_prid64, print_priu64, print_f, print_lf, heap}

  -- octetCmdBuf_printf with this text.
  unfoldable pub printed : OctetBuffer → List ℕ → OctetBuffer
  unfolding octet_cmd_buf_printf formatted
  printed b text = (octet_cmd_buf_printf b (formatted heap text) (pos (length text))).1

  -- One call for each text.
  unfoldable pub printed_all : OctetBuffer → List (List ℕ) → OctetBuffer
  unfolding printed
  printed_all b [] = b
  printed_all b (text ∷ texts) = printed_all (printed b text) texts

  -- The element number `cycles` of a variable of a type with a fixed size: this size and the text.
  unfoldable pub element : ℕ → ℕ → (ℕ → ℕ) → Option (ℕ × List ℕ)
  unfolding le_number bytes_from
  element type cycles buf =
      let raw : ℕ → ℕ = λ n. le_number (bytes_from n (n * cycles) buf) in
      if type == adst_int8
      then some (1, print_d (signed half8 (raw 1)))
      else if type == adst_int16
      then some (2, print_d (signed half16 (raw 2)))
      else if type == adst_int32
      then some (4, print_d (signed half32 (raw 4)))
      else if type == adst_int64
      then some (8, print_prid64 (raw 8))
      else if type == adst_uint8
      then some (1, print_hhu (raw 1))
      else if type == adst_uint16
      then some (2, print_d (pos (raw 2)))
      else if type == adst_uint32
      then some (4, print_d (signed half32 (raw 4)))
      else if type == adst_uint64
      then some (8, print_priu64 (raw 8))
      else if type == adst_real32
      then some (4, print_f (raw 4))
      else if type == adst_real64
      then some (8, print_lf (raw 8))
      else if type == adst_bit
      then some (1, if raw 1 == 1 then b'1' ∷ [] else b'0' ∷ [])
      else none
