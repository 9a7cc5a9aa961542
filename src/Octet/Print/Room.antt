-- ===== src/Octet/Print/Room.antt =====
-- adsApp/src/adsAsynPortDriverUtils.cpp, octetCmdBuf_printf and octetBinary2ascii: they keep the output
-- buffer within its array.
use twincat_ads.Base.Int.{pos}
use twincat_ads.Ads.{AdsSymbolEntry}
use twincat_ads.Octet.Print.Points.{
  name_text, Printing, Conversion, returned, null_pointer, unfinished, name_if_needed,
  print_bigtype, print_string, print_point, checked, with_comma, print_points, octet_binary2ascii,
  axis_texts,
}
use twincat_ads.Octet.Print.{Printf, formatted, c_text, element, printed, printed_all, symbol_text}
use twincat_ads.Octet.{OctetBuffer, ads_cmd_buffer_size, octet_cmd_buf_printf}
use twincat_ads.DataType.{adst_string, adst_bigtype}
use twincat_ads.DrvInfo.{strstr}
use twincat_ads.Upload.{codes}
use twincat_ads.Base.{
  ℕ, zero, suc, ◌≤◌, ◌<◌, ◌≡◌, inl, inr, Bool, List, [], ◌∷◌, Option, none, some, ltb, ◌==◌, length,
  ◌&&◌, Bool-cases, Option-cases, if-intro, arith,
}

-- A buffer of `size` bytes has room for the 0 that ends its text.
pub record HasRoom (size : ℕ) (b : OctetBuffer) : Type 0 where
  pub sized : b.buffer_size ≡ size
  pub room : b.bytes_used < size

printf-HasRoom :
    (size : ℕ) (b : OctetBuffer) (text : ℕ → ℕ) (n : ℕ)
    → size ≤ ads_cmd_buffer_size
    → HasRoom size b
    → HasRoom size (octet_cmd_buf_printf b text (pos n)).1
unfolding octet_cmd_buf_printf
printf-HasRoom size b text n small h = record {
  sized = ground (arith, h.sized);
  room = ground (arith, h.sized, h.room, small);
}

module _ (fmt : Printf) (size : ℕ) (small : size ≤ ads_cmd_buffer_size) where
  pub printed-HasRoom :
      (b : OctetBuffer) (text : List ℕ) → HasRoom size b → HasRoom size (printed fmt b text)
  unfolding printed
  printed-HasRoom b text h = printf-HasRoom size b (formatted fmt.heap text) (length text) small h

  printed_all-HasRoom :
      (b : OctetBuffer) (texts : List (List ℕ))
      → HasRoom size b
      → HasRoom size (printed_all fmt b texts)
  unfolding printed_all
  printed_all-HasRoom b [] h = h
  printed_all-HasRoom b (text ∷ texts) h =
      printed_all-HasRoom (printed fmt b text) texts (printed-HasRoom b text h)

  -- The buffer of a state of the loop, if there is one, has room; and that of its result.
  abbrev PointRoom : Option Printing → Type 0
  PointRoom none = Unit {0}
  PointRoom (some p) = HasRoom size p.ascii

  abbrev pub ConversionRoom : Conversion → Type 0
  ConversionRoom (returned error b) = HasRoom size b
  ConversionRoom null_pointer = Unit {0}
  ConversionRoom unfinished = Unit {0}

  module _ (named : Bool) (buf : ℕ → ℕ) (binary_size : ℕ) (info : AdsSymbolEntry) where
    name-HasRoom :
        (b : OctetBuffer)
        → HasRoom size b
        → HasRoom size (name_if_needed fmt named buf binary_size info b)
    unfolding name_if_needed
    name-HasRoom b h =
        if-intro (HasRoom size) named
          (λ _. printed-HasRoom b (name_text fmt named buf binary_size info) h) (λ _. h)

    print_bigtype-PointRoom :
        (p : Printing)
        → HasRoom size p.ascii
        → PointRoom (print_bigtype fmt named buf binary_size info p)
    unfolding print_bigtype
    print_bigtype-PointRoom p h = elim (Option-cases (symbol_text info info.sym_data_type)) [
      | inl e ↦ rw (print_bigtype, e) tt
      | inr (type, e) ↦ elim (Option-cases (strstr (codes "DUT_AxisStatus_v0_01") type)) [
        | inl other ↦ rw (print_bigtype, e, other) h
        | inr (found, here) ↦
            rw (print_bigtype, e, here)
              (printed_all-HasRoom p.ascii (axis_texts fmt named buf binary_size info) h)
      ]
    ]

    print_point-PointRoom :
        (p : Printing)
        → HasRoom size p.ascii
        → PointRoom (print_point fmt named buf binary_size info p)
    unfolding print_point print_string
    print_point-PointRoom p h = elim (Option-cases (element fmt info.data_type p.cycles buf)) [
      | inl e ↦
          rw (print_point, e)
            (if-intro PointRoom (info.data_type == adst_string)
              (λ _.
                printed-HasRoom (name_if_needed fmt named buf binary_size info p.ascii)
                  (c_text ads_cmd_buffer_size 0 buf) (name-HasRoom p.ascii h))
              (λ _.
                if-intro PointRoom (info.data_type == adst_bigtype)
                  (λ _. print_bigtype-PointRoom p h) (λ _. h)))
      | inr ((width, text), e) ↦
          rw (print_point, e)
            (printed-HasRoom (name_if_needed fmt named buf binary_size info p.ascii) text
              (name-HasRoom p.ascii h))
    ]

    with_comma-HasRoom :
        (p : Printing)
        → HasRoom size p.ascii
        → HasRoom size (with_comma fmt named buf binary_size info p).ascii
    unfolding with_comma
    with_comma-HasRoom p h =
        if-intro (λ (q : Printing). HasRoom size q.ascii) (p.bytes_processed == 0) (λ _. h)
          (λ _. printed-HasRoom p.ascii (codes ",") h)

    print_points-ConversionRoom :
        (n : ℕ) (p : Printing)
        → HasRoom size p.ascii
        → ConversionRoom (print_points fmt named buf binary_size info n p)
    unfolding print_points
    print_points-ConversionRoom zero p h = tt
    print_points-ConversionRoom (suc n) p h =
        let start = with_comma fmt named buf binary_size info p in
        let point = print_point-PointRoom start (with_comma-HasRoom p h) in
        elim (Bool-cases (ltb p.bytes_processed info.size && p.error == 0)) [
          | inr stop ↦ rw (print_points, stop) h
          | inl go ↦ elim (Option-cases (print_point fmt named buf binary_size info start)) [
            | inl e ↦ rw (print_points, go) (rw e tt)
            | inr (q, e) ↦
                rw (print_points, go)
                  (rw e (
                    print_points-ConversionRoom n (checked fmt named buf binary_size info q)
                      (rw e at point)))
          ]
        ]

    pub octet_binary2ascii-ConversionRoom :
        (n : ℕ) (b : OctetBuffer)
        → HasRoom size b
        → ConversionRoom (octet_binary2ascii fmt named buf binary_size info n b)
    unfolding octet_binary2ascii
    octet_binary2ascii-ConversionRoom n b h =
        print_points-ConversionRoom n
          (record {
            bytes_processed = 0;
            cycles = 0;
            error = 0;
            bytes_per_data_point = 0;
            ascii = b;
          })
          h
