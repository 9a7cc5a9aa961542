-- ===== src/Octet/Print/Halts.antt =====
-- adsApp/src/adsAsynPortDriverUtils.cpp, octetBinary2ascii: for which variables the loop ends.
use twincat_ads.Ads.{AdsSymbolEntry}
use twincat_ads.DataType.{adst_string, adst_bigtype}
use twincat_ads.Octet.Print.Points.{
  Printing, Conversion, returned, print_point, print_string, checked, with_comma, print_points,
  octet_binary2ascii, name_if_needed,
}
use twincat_ads.Octet.Print.{Printf, printed, element}
use twincat_ads.Octet.{OctetBuffer, ads_cmd_buffer_size}
use twincat_ads.Base.{
  ℕ, zero, suc, ◌+◌, ◌%◌, ◌^◌, ◌≤◌, ◌<◌, ◌≡◌, ◌≢◌, refl, ◌⊎◌, inl, inr, Bool, true, false, List, [],
  Option, none, some, ltb, ◌==◌, ◌&&◌, Bool-cases, Option-cases, arith,
}

abbrev is_sized : Option (ℕ × List ℕ) → Bool
is_sized none = true
is_sized (some (size, text)) = ltb 0 size && ltb size 9

element-is_sized :
    (fmt : Printf) (type cycles : ℕ) (buf : ℕ → ℕ) → is_sized (element fmt type cycles buf) ≡ true
unfolding element
element-is_sized fmt type cycles buf = ground arith

-- There is a value, and `P` holds of it.
abbrev Reaches : (Printing → Type 0) → Option Printing → Type 0
Reaches P none = ⊥
Reaches P (some q) = P q

reached :
    (P : Printing → Type 0) (o : Option Printing)
    → Reaches P o
    → (q : Printing) × (o ≡ some q) × P q
reached P none h = absurd h
reached P (some q) h = (q, refl, h)

module _ (fmt : Printf) (return_var_name : Bool) (buf : ℕ → ℕ) (binary_buffer_size : ℕ)
    (info : AdsSymbolEntry) where
  -- What a turn from `p` has brought about.
  abbrev Progress : Printing → Printing → Type 0
  Progress p q =
      (q.error ≢ 0)
      ⊎ (info.size ≤ q.bytes_processed)
      ⊎ ((p.bytes_processed < q.bytes_processed) × (q.bytes_processed ≤ ads_cmd_buffer_size))

  checked-ok :
      (p : Printing)
      → (checked fmt return_var_name buf binary_buffer_size info p).error ≡ 0
      → (p.error ≡ 0) × ((p.bytes_processed + p.bytes_per_data_point) % 2 ^ 32 ≤ binary_buffer_size)
  unfolding checked
  checked-ok p h = ground (arith, h)

  comma-bytes :
      (p : Printing)
      → ((with_comma fmt return_var_name buf binary_buffer_size info p).bytes_processed
          ≡ p.bytes_processed)
  unfolding with_comma
  comma-bytes p = ground arith

  sized-Progress :
      (p : Printing) (size : ℕ) (b : OctetBuffer)
      → binary_buffer_size ≤ ads_cmd_buffer_size
      → p.bytes_processed ≤ ads_cmd_buffer_size
      → is_sized (some (size, [])) ≡ true
      → Progress p (
          checked fmt return_var_name buf binary_buffer_size info (record p {
            ascii = b;
            bytes_per_data_point = size;
            bytes_processed = (p.bytes_processed + size) % 2 ^ 32;
          }))
  unfolding checked
  sized-Progress p size b small within sized =
      let q = record p {
        ascii = b;
        bytes_per_data_point = size;
        bytes_processed = (p.bytes_processed + size) % 2 ^ 32;
      } in
      elim (Bool-cases ((checked fmt return_var_name buf binary_buffer_size info q).error == 0)) [
        | inr bad ↦ inl (ground (arith, bad))
        | inl ok ↦
            let (_, fits) = checked-ok q (ground (arith, ok)) in
            inr (inr (ground (arith, sized), ground (arith, sized, fits, small)))
      ]

  point-Progress :
      (p : Printing)
      → binary_buffer_size ≤ ads_cmd_buffer_size
      → info.data_type ≢ adst_bigtype
      → p.bytes_processed ≤ ads_cmd_buffer_size
      → Reaches
          (λ q. Progress p (checked fmt return_var_name buf binary_buffer_size info q))
          (print_point fmt return_var_name buf binary_buffer_size info p)
  unfolding print_point checked print_string
  point-Progress p small scalar within =
      elim (Option-cases (element fmt info.data_type p.cycles buf)) [
        | inl e ↦ elim (Bool-cases (info.data_type == adst_string)) [
          | inl s ↦ rw (print_point, e, s) (inr (inl (omega arith)))
          | inr s ↦
              let other : (info.data_type == adst_bigtype) ≡ false = ground (arith, scalar) in
              rw (print_point, e, s, other) (inl (ground arith))
        ]
        | inr ((size, text), e) ↦
            let sized = element-is_sized fmt info.data_type p.cycles buf in
            rw (print_point, e)
              (sized-Progress p size
                (printed fmt
                  (name_if_needed fmt return_var_name buf binary_buffer_size info p.ascii) text)
                small within (rw e at sized))
      ]

  abbrev Returned : Conversion → Type 0
  Returned c = (e : ℕ) × (b : OctetBuffer) × (c ≡ returned e b)

  at_end :
      (n : ℕ) (p : Printing)
      → (p.error ≢ 0) ⊎ (info.size ≤ p.bytes_processed)
      → Returned (print_points fmt return_var_name buf binary_buffer_size info (suc n) p)
  unfolding print_points
  at_end n p h =
      let stop : (ltb p.bytes_processed info.size && p.error == 0) ≡ false = ground (arith, h) in
      rw (print_points, stop) (p.error, p.ascii, refl)

  print_points-Returned :
      (n : ℕ) (p : Printing)
      → binary_buffer_size ≤ ads_cmd_buffer_size
      → info.data_type ≢ adst_bigtype
      → p.bytes_processed ≤ ads_cmd_buffer_size
      → info.size ≤ p.bytes_processed + n
      → Returned (print_points fmt return_var_name buf binary_buffer_size info (suc n) p)
  unfolding print_points
  print_points-Returned zero p small scalar within turns =
      at_end zero p (inr (omega (arith, turns)))
  print_points-Returned (suc n) p small scalar within turns =
      let start = with_comma fmt return_var_name buf binary_buffer_size info p in
      let same = comma-bytes p in
      let (q, e, progress) =
        reached (λ r. Progress start (checked fmt return_var_name buf binary_buffer_size info r))
          (print_point fmt return_var_name buf binary_buffer_size info start)
          (point-Progress start small scalar (rw same within)) in
      let next = checked fmt return_var_name buf binary_buffer_size info q in
      elim (Bool-cases (ltb p.bytes_processed info.size && p.error == 0)) [
        | inr stop ↦ rw (print_points, stop) (p.error, p.ascii, refl)
        | inl go ↦
            rw (print_points, go)
              (rw e (elim progress [
                | inl bad ↦ at_end n next (inl bad)
                | inr (inl all) ↦ at_end n next (inr all)
                | inr (inr (more, fits)) ↦
                    print_points-Returned n next small scalar fits
                      (omega (arith, more, same, turns))
              ]))
      ]

  -- The conversion of a variable that is not of ADST_BIGTYPE, in a buffer of at most 65536 bytes, ends
  -- within one turn more than the variable has bytes, with an error code and the output buffer.
  pub octet_binary2ascii-Returned :
      (b : OctetBuffer)
      → binary_buffer_size ≤ ads_cmd_buffer_size
      → info.data_type ≢ adst_bigtype
      → (e : ℕ) × (c : OctetBuffer) × (octet_binary2ascii fmt return_var_name buf binary_buffer_size
            info
            (suc info.size)
            b
          ≡ returned e c)
  unfolding octet_binary2ascii
  octet_binary2ascii-Returned b small scalar =
      print_points-Returned info.size
        (record { bytes_processed = 0; cycles = 0; error = 0; bytes_per_data_point = 0; ascii = b })
        small scalar (omega arith) (omega arith)
