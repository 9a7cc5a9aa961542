-- ===== src/Octet/Scan/Errors.antt =====
-- adsApp/src/adsAsynPortDriverUtils.cpp, octetAscii2binary: the conversion to a text, and the text
-- that is no number.
use twincat_ads.DataType.{adst_string}
use twincat_ads.Octet.{ads_cmd_buffer_size}
use twincat_ads.Octet.Print.Points.{index_exceeded_size}
use twincat_ads.Octet.Scan.Bounds.{is_sized-number_size, first_state, last_turn}
use twincat_ads.Octet.Scan.{
  mismatch, SscanfValue, number_size, Scanning, store_number, scan_point, scan_checked,
  octet_ascii2binary,
}
use twincat_ads.Base.{
  ℕ, suc, ◌+◌, ◌%◌, ◌^◌, ◌≤◌, ◌≡◌, refl, true, false, List, none, some, ltb, ◌==◌, length, not,
  ◌&&◌, arith,
}

module _ (scanf : SscanfValue) (data_type binary_buffer_size : ℕ) where
  no_number : (type : ℕ) → type ≡ adst_string → number_size type ≡ none
  unfolding number_size
  no_number type h = rw h refl

  string_error :
      (text : List ℕ) (p : Scanning)
      → data_type ≡ adst_string
      → ltb binary_buffer_size ((binary_buffer_size + 1) % 2 ^ 32) ≡ true
      → (scan_checked scanf data_type binary_buffer_size
          (scan_point scanf data_type binary_buffer_size text p)).error
        ≡ index_exceeded_size
  unfolding scan_checked scan_point
  string_error text p string over =
      let is_string : (data_type == adst_string) ≡ true = rw string refl in
      rw (scan_point, no_number data_type string, is_string) (rw over refl)

  -- The conversion of any text to ADST_STRING in a buffer of at most 65536 bytes ends with the error that
  -- the index exceeds the size.
  pub octet_ascii2binary-string :
      (text : List ℕ) (buf : ℕ → ℕ)
      → data_type ≡ adst_string
      → binary_buffer_size ≤ ads_cmd_buffer_size
      → (q : Scanning) × (octet_ascii2binary scanf data_type binary_buffer_size
            (suc (length text))
            text
            0
            buf
          ≡ some q)
        × (q.error ≡ index_exceeded_size)
  unfolding octet_ascii2binary scan_checked
  octet_ascii2binary-string text buf string small =
      let p = first_state scanf data_type binary_buffer_size buf in
      let q =
        scan_checked scanf data_type binary_buffer_size
          (scan_point scanf data_type binary_buffer_size text p) in
      let over : ltb binary_buffer_size ((binary_buffer_size + 1) % 2 ^ 32) ≡ true =
        ground (arith, small) in
      let failed : q.error ≡ index_exceeded_size = string_error text p string over in
      (
        q,
        last_turn scanf data_type binary_buffer_size (length text) text p
            (rw failed (ground arith)),
        failed,
      )

  -- A text in which sscanf finds no number of the type, where an element would fit the buffer twice,
  -- ends the conversion with no error, the size of one element as the bytes processed, and the buffer as
  -- it was.
  pub octet_ascii2binary-mismatch :
      (size : ℕ) (text : List ℕ) (buf : ℕ → ℕ)
      → number_size data_type ≡ some size
      → scanf.scan_number data_type text ≡ mismatch
      → 16 ≤ binary_buffer_size
      → (q : Scanning) × (octet_ascii2binary scanf data_type binary_buffer_size
            (suc (length text))
            text
            0
            buf
          ≡ some q)
        × (q.error ≡ 0)
        × (q.bytes_processed ≡ size)
        × (q.binary ≡ buf)
  unfolding octet_ascii2binary scan_checked scan_point store_number
  octet_ascii2binary-mismatch size text buf e none_there large =
      let sized = rw e at (is_sized-number_size data_type) in
      let p = first_state scanf data_type binary_buffer_size buf in
      let q =
        scan_checked scanf data_type binary_buffer_size
          (scan_point scanf data_type binary_buffer_size text p) in
      let fits : ltb binary_buffer_size (((0 + size) % 2 ^ 32 + size) % 2 ^ 32) ≡ false =
        ground (arith, sized, large) in
      let stop : (not q.unconverted && q.error == 0) ≡ false =
        rw (scan_point, e, none_there) refl in
      (
        q,
        last_turn scanf data_type binary_buffer_size (length text) text p stop,
        rw (scan_point, e) (rw fits refl),
        rw (scan_point, e) (ground (arith, sized)),
        rw (scan_point, e, none_there) refl,
      )
