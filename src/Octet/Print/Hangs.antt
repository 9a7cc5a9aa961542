-- ===== src/Octet/Print/Hangs.antt =====
-- adsApp/src/adsAsynPortDriverUtils.cpp, octetBinary2ascii: the variables for which the loop does not
-- end.
use twincat_ads.Ads.{AdsSymbolEntry}
use twincat_ads.DataType.{adst_string, adst_bigtype}
use twincat_ads.DrvInfo.{strstr}
use twincat_ads.Octet.Print.Points.{
  Printing, unfinished, print_point, print_bigtype, checked, with_comma, print_points,
  octet_binary2ascii,
}
use twincat_ads.Octet.Print.{Printf, element, symbol_text}
use twincat_ads.Octet.{OctetBuffer, sub_size}
use twincat_ads.Upload.{codes}
use twincat_ads.Base.{
  ℕ, zero, suc, ◌+◌, ◌%◌, ◌^◌, ◌<◌, ◌≡◌, refl, ap, ◌∙◌, Bool, true, false, List, none, some, ltb,
  ◌==◌, ◌&&◌, arith,
}

module _ (fmt : Printf) (return_var_name : Bool) (buf : ℕ → ℕ) (binary_buffer_size : ℕ)
    (info : AdsSymbolEntry) where
  -- The type is not ADST_BIGTYPE's structure of an axis, and has at least a byte.
  record IsOtherBigtype : Type 0 where
    big : info.data_type ≡ adst_bigtype
    type : List ℕ
    named : symbol_text info info.sym_data_type ≡ some type
    other : strstr (codes "DUT_AxisStatus_v0_01") type ≡ none
    occupied : 0 < info.size

  bigtype-element : (cycles : ℕ) → element fmt adst_bigtype cycles buf ≡ none
  unfolding element
  bigtype-element cycles = refl

  bigtype-point :
      (p : Printing)
      → IsOtherBigtype
      → print_point fmt return_var_name buf binary_buffer_size info p ≡ some p
  unfolding print_point print_bigtype
  bigtype-point p o =
      let none_of_these : element fmt info.data_type p.cycles buf ≡ none =
        rw o.big (bigtype-element p.cycles) in
      let text : (info.data_type == adst_string) ≡ false = rw o.big refl in
      let yes_big : (info.data_type == adst_bigtype) ≡ true = rw o.big refl in
      rw (print_point, none_of_these, text, yes_big) (rw (print_bigtype, o.named, o.other) refl)

  uncommaed :
      (p : Printing)
      → p.bytes_processed ≡ 0
      → with_comma fmt return_var_name buf binary_buffer_size info p ≡ p
  unfolding with_comma
  uncommaed p h = rw (with_comma, h) refl

  -- The loop has read nothing, and the output buffer has room for 20 bytes.
  record IsIdle (p : Printing) : Type 0 where
    no_bytes : p.bytes_processed ≡ 0
    no_size : p.bytes_per_data_point ≡ 0
    no_error : p.error ≡ 0
    room : ltb (sub_size p.ascii.buffer_size p.ascii.bytes_used) 20 ≡ false

  checked-IsIdle :
      (p : Printing) → IsIdle p → IsIdle (checked fmt return_var_name buf binary_buffer_size info p)
  unfolding checked
  checked-IsIdle p i =
      let fits : ltb binary_buffer_size ((p.bytes_processed + p.bytes_per_data_point) % 2 ^ 32)
          ≡ false =
        rw (i.no_bytes, i.no_size) (ground arith) in
      record {
        no_bytes = i.no_bytes;
        no_size = i.no_size;
        no_error = rw (checked, i.room, fits) i.no_error;
        room = i.room;
      }

  bigtype-unfinished :
      (n : ℕ) (p : Printing)
      → IsOtherBigtype
      → IsIdle p
      → print_points fmt return_var_name buf binary_buffer_size info n p ≡ unfinished
  unfolding print_points
  bigtype-unfinished zero p o i = refl
  bigtype-unfinished (suc n) p o i =
      let go : (ltb p.bytes_processed info.size && p.error == 0) ≡ true =
        ground (arith, o.occupied, i.no_bytes, i.no_error) in
      let turn =
        ap (print_point fmt return_var_name buf binary_buffer_size info) (uncommaed p i.no_bytes)
        ∙ bigtype-point p o in
      rw (print_points, go)
        (rw turn (
          bigtype-unfinished n (checked fmt return_var_name buf binary_buffer_size info p) o
            (checked-IsIdle p i)))

  -- The conversion of a variable of ADST_BIGTYPE with a name of its type that does not contain that of
  -- the axis' structure, and with at least one byte, never ends, whatever the number of turns, while the
  -- output buffer has room for 20 bytes.
  pub octet_binary2ascii-unfinished :
      (type : List ℕ) (b : OctetBuffer) (n : ℕ)
      → info.data_type ≡ adst_bigtype
      → symbol_text info info.sym_data_type ≡ some type
      → strstr (codes "DUT_AxisStatus_v0_01") type ≡ none
      → 0 < info.size
      → ltb (sub_size b.buffer_size b.bytes_used) 20 ≡ false
      → octet_binary2ascii fmt return_var_name buf binary_buffer_size info n b ≡ unfinished
  unfolding octet_binary2ascii
  octet_binary2ascii-unfinished type b n big named other occupied room =
      bigtype-unfinished n
        (record { bytes_processed = 0; cycles = 0; error = 0; bytes_per_data_point = 0; ascii = b })
        (record { big = big; type = type; named = named; other = other; occupied = occupied })
        (record { no_bytes = refl; no_size = refl; no_error = refl; room = room })
