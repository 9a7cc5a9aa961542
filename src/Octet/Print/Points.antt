-- ===== src/Octet/Print/Points.antt =====
-- adsApp/src/adsAsynPortDriverUtils.cpp, octetBinary2ascii: the loop over the elements, and the
-- structure of an axis' status, whose fields lie as C aligns them.
use twincat_ads.Ads.{AdsSymbolEntry}
use twincat_ads.DataType.{adst_string, adst_bigtype}
use twincat_ads.DrvInfo.{strstr}
use twincat_ads.EtherCat.{le_number}
use twincat_ads.Octet.Print.{Printf, c_text, symbol_text, printed, printed_all, element}
use twincat_ads.Octet.{OctetBuffer, ads_cmd_buffer_size, bytes_from, sub_size}
use twincat_ads.Transfer.Decode.{signed, half32}
use twincat_ads.Upload.{codes}
use twincat_ads.Base.{
  ℕ, zero, suc, ◌+◌, ◌%◌, ◌^◌, Bool, true, false, List, [], ◌∷◌, ◌++◌, Option, none, some, ltb,
  ◌==◌, if◌then◌else◌, ◌&&◌,
}

-- ADS_COM_ERROR_INVALID_DATA_TYPE, _ADS_READ_BUFFER_INDEX_EXCEEDED_SIZE and _BUFFER_TO_EPICS_FULL.
abbrev pub invalid_data_type : ℕ
invalid_data_type = 1004

abbrev pub index_exceeded_size : ℕ
index_exceeded_size = 1005

abbrev pub buffer_to_epics_full : ℕ
buffer_to_epics_full = 1006

-- The variables of the loop.
pub record Printing : Type 0 where
  pub bytes_processed : ℕ
  pub cycles : ℕ
  pub error : ℕ
  pub bytes_per_data_point : ℕ
  pub ascii : OctetBuffer

-- A result with its error code, the use of a null pointer, or a loop that has not ended.
pub data Conversion : Type 0 where
  returned : ℕ → OctetBuffer → Conversion
  null_pointer : Conversion
  unfinished : Conversion

module _ (fmt : Printf) (return_var_name : Bool) (buf : ℕ → ℕ) (binary_buffer_size : ℕ)
    (info : AdsSymbolEntry) where
  open fmt use {print_d, print_lf}

  -- "%s="; the name of a description without one is what printf makes of a null pointer.
  unfoldable pub name_text : List ℕ
  unfolding symbol_text
  name_text = elim (symbol_text info info.variable_name) [
    | none ↦ codes "(null)="
    | some name ↦ name ++ codes "="
  ]

  unfoldable pub name_if_needed : OctetBuffer → OctetBuffer
  unfolding printed name_text
  name_if_needed b = if return_var_name then printed fmt b name_text else b

  unfoldable pub flag_text : ℕ → List ℕ → List ℕ
  flag_text i end = (if buf i == 0 then codes "0" else codes "1") ++ end

  unfoldable pub number_text : ℕ → ℕ → List ℕ
  unfolding le_number bytes_from
  number_text n i = print_d (signed half32 (le_number (bytes_from n i buf))) ++ codes ","

  unfoldable pub double_text : ℕ → List ℕ
  unfolding le_number bytes_from
  double_text i = print_lf (le_number (bytes_from 8 i buf)) ++ codes ","

  -- stAxisData, field by field.
  unfoldable pub axis_texts : List (List ℕ)
  unfolding name_text flag_text number_text double_text
  axis_texts =
      name_text
      ∷ flag_text 0 (codes ",")
      ∷ flag_text 1 (codes ",")
      ∷ flag_text 2 (codes ",")
      ∷ number_text 2 4
      ∷ number_text 2 6
      ∷ double_text 8
      ∷ double_text 16
      ∷ double_text 24
      ∷ double_text 32
      ∷ flag_text 40 (codes ",")
      ∷ flag_text 41 (codes ",")
      ∷ flag_text 42 (codes ",")
      ∷ flag_text 43 (codes ",")
      ∷ double_text 48
      ∷ flag_text 56 (codes ",")
      ∷ flag_text 57 (codes ",")
      ∷ flag_text 58 (codes ",")
      ∷ number_text 4 60
      ∷ double_text 64
      ∷ double_text 72
      ∷ double_text 80
      ∷ flag_text 88 (codes ",")
      ∷ flag_text 89 (codes ";")
      ∷ []

  -- The case ADST_BIGTYPE; none where the pointer to the type's name is null.
  unfoldable pub print_bigtype : Printing → Option Printing
  unfolding symbol_text strstr axis_texts printed_all
  print_bigtype p = elim (symbol_text info info.sym_data_type) [
    | none ↦ none
    | some type ↦ elim (strstr (codes "DUT_AxisStatus_v0_01") type) [
      | none ↦ some p
      | some found ↦
          some
            (record p { ascii = printed_all fmt p.ascii axis_texts; bytes_processed = info.size })
    ]
  ]

  unfoldable pub print_string : Printing → Printing
  unfolding printed c_text name_if_needed
  print_string p = record p {
    ascii = printed fmt (name_if_needed p.ascii) (c_text ads_cmd_buffer_size 0 buf);
    bytes_processed = info.size;
  }

  -- The `switch`.
  unfoldable pub print_point : Printing → Option Printing
  unfolding element printed name_if_needed print_string print_bigtype
  print_point p = elim (element fmt info.data_type p.cycles buf) [
    | some (size, text) ↦ some (record p {
      ascii = printed fmt (name_if_needed p.ascii) text;
      bytes_per_data_point = size;
      bytes_processed = (p.bytes_processed + size) % 2 ^ 32;
    })
    | none ↦
        if info.data_type == adst_string
        then some (print_string p)
        else if info.data_type == adst_bigtype
        then print_bigtype p
        else some (record p { error = invalid_data_type; bytes_per_data_point = 0 })
  ]

  -- What follows the `switch` in a turn.
  unfoldable pub checked : Printing → Printing
  checked p =
      let exceeded =
        ltb binary_buffer_size ((p.bytes_processed + p.bytes_per_data_point) % 2 ^ 32) in
      let full = ltb (sub_size p.ascii.buffer_size p.ascii.bytes_used) 20 in
      record p {
        cycles = suc p.cycles;
        error =
            if full
            then buffer_to_epics_full
            else if exceeded
            then index_exceeded_size
            else p.error;
      }

  unfoldable pub with_comma : Printing → Printing
  unfolding printed
  with_comma p =
      if p.bytes_processed == 0 then p else record p { ascii = printed fmt p.ascii (codes ",") }

  -- Each turn uses one of `n`.
  unfoldable pub print_points : ℕ → Printing → Conversion
  unfolding with_comma print_point checked
  print_points zero p = unfinished
  print_points (suc n) p = elim (ltb p.bytes_processed info.size && p.error == 0) [
    | false ↦ returned p.error p.ascii
    | true ↦ elim (print_point (with_comma p)) [
      | none ↦ null_pointer
      | some q ↦ print_points n (checked q)
    ]
  ]

  unfoldable pub octet_binary2ascii : ℕ → OctetBuffer → Conversion
  unfolding print_points
  octet_binary2ascii n b =
      print_points n
        (record { bytes_processed = 0; cycles = 0; error = 0; bytes_per_data_point = 0; ascii = b })
