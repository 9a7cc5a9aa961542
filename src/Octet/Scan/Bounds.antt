-- ===== src/Octet/Scan/Bounds.antt =====
-- adsApp/src/adsAsynPortDriverUtils.cpp, octetAscii2binary: that the loop ends and stays within the
-- binary buffer.
use twincat_ads.DataType.{adst_string}
use twincat_ads.Octet.Split.{cut}
use twincat_ads.Octet.Split.RoundTrip.{cut-some}
use twincat_ads.Octet.{ads_cmd_buffer_size}
use twincat_ads.Octet.Print.Points.{invalid_data_type}
use twincat_ads.Octet.Scan.{
  Scanned, value, mismatch, end_of_text, SscanfValue, number_size, Scanning, store_number,
  scan_point, scan_checked, scan_points, octet_ascii2binary,
}
use twincat_ads.Base.{
  ℕ, zero, suc, ◌+◌, ◌*◌, ◌%◌, ◌^◌, ◌≤◌, ◌<◌, ◌≡◌, ◌≢◌, refl, sym, ◌∙◌, inl, inr, Bool, true, false,
  List, Option, none, some, ltb, ◌==◌, length, not, ◌&&◌, Bool-cases, Option-cases, arith,
}

mul_suc : (a b : ℕ) → a * suc b ≡ a * b + a
mul_suc a b = omega arith

abbrev pub is_sized : Option ℕ → Bool
is_sized none = true
is_sized (some size) = ltb 0 size && ltb size 9

pub is_sized-number_size : (type : ℕ) → is_sized (number_size type) ≡ true
unfolding number_size
is_sized-number_size type = ground arith

store_number-outside :
    (size i : ℕ) (s : Scanned ℕ) (buf : ℕ → ℕ) (j : ℕ)
    → i + size ≤ j
    → store_number size i s buf j ≡ buf j
unfolding store_number
store_number-outside size i (value v) buf j h = ground (arith, h)
store_number-outside size i mismatch buf j h = refl
store_number-outside size i end_of_text buf j h = refl

module _ (scanf : SscanfValue) (data_type binary_buffer_size : ℕ) where
  -- The bytes of the elements so far, and that one more would fit.
  record Fits (size : ℕ) (p : Scanning) : Type 0 where
    counted : p.bytes_processed ≡ size * p.cycles
    room : size * p.cycles + size ≤ binary_buffer_size

  turn-outside :
      (size : ℕ) (text : List ℕ) (p : Scanning) (j : ℕ)
      → number_size data_type ≡ some size
      → Fits size p
      → binary_buffer_size ≤ j
      → (scan_point scanf data_type binary_buffer_size text p).binary j ≡ p.binary j
  unfolding scan_point
  turn-outside size text p j e f h =
      rw (scan_point, e)
        (store_number-outside size (size * p.cycles) (scanf.scan_number data_type text) p.binary j
          (omega (arith, f.room, h)))

  turn-Fits :
      (size : ℕ) (text : List ℕ) (p : Scanning)
      → number_size data_type ≡ some size
      → is_sized (some size) ≡ true
      → binary_buffer_size ≤ ads_cmd_buffer_size
      → Fits size p
      → let q =
          scan_checked scanf data_type binary_buffer_size
            (scan_point scanf data_type binary_buffer_size text p) in
        q.error ≡ 0 → Fits size q
  unfolding scan_point scan_checked
  turn-Fits size text p e sized small f =
      rw (scan_point, scan_checked, e)
        λ h.
          let below : size < 9 = ground (arith, sized) in
          let exact : (p.bytes_processed + size) % 2 ^ 32 ≡ size * p.cycles + size =
            omega (arith, f.counted, f.room, small, below) in
          let fits : ltb binary_buffer_size (((p.bytes_processed + size) % 2 ^ 32 + size) % 2 ^ 32)
              ≡ false =
            ground (arith, h) in
          record {
            counted = exact ∙ sym (mul_suc size p.cycles);
            room = ground (arith, mul_suc size p.cycles, exact, fits, f.room, small, below);
          }

  -- The last state is reached, and the bytes from index `binary_buffer_size` on are those of `p`.
  abbrev Stays : Scanning → Option Scanning → Type 0
  Stays p r =
      (q : Scanning) × (r ≡ some q) × ((j : ℕ) → binary_buffer_size ≤ j → q.binary j ≡ p.binary j)

  numbers-Stays :
      (size n : ℕ) (text : List ℕ) (p : Scanning)
      → number_size data_type ≡ some size
      → is_sized (some size) ≡ true
      → binary_buffer_size ≤ ads_cmd_buffer_size
      → length text < n
      → Fits size p
      → Stays p (scan_points scanf data_type binary_buffer_size n text p)
  unfolding scan_points scan_checked
  numbers-Stays size zero text p e sized small turns f = absurd (omega (arith, turns))
  numbers-Stays size (suc n) text p e sized small turns f =
      let q =
        scan_checked scanf data_type binary_buffer_size
          (scan_point scanf data_type binary_buffer_size text p) in
      let outside : (j : ℕ) → binary_buffer_size ≤ j → q.binary j ≡ p.binary j =
        λ j h. turn-outside size text p j e f h in
      elim (Option-cases (cut b',' text).1) [
        | inl last ↦ rw (scan_points, last) (q, refl, outside)
        | inr (rest, more) ↦ elim (Bool-cases (not q.unconverted && q.error == 0)) [
          | inr stop ↦ rw (scan_points, more, stop) (q, refl, outside)
          | inl go ↦
              let shorter = (cut-some b',' text rest more).1 in
              let ok : q.error ≡ 0 = ground (arith, go) in
              let (r, done, kept) =
                numbers-Stays size n rest q e sized small (omega (arith, turns, shorter))
                  (turn-Fits size text p e sized small f ok) in
              rw (scan_points, more, go)
                (r, done, λ j h. ◌∙◌ {a = r.binary j} (kept j h) (outside j h))
        ]
      ]

  abbrev pub first_state : (ℕ → ℕ) → Scanning
  first_state buf = record {
    bytes_processed = 0;
    cycles = 0;
    error = 0;
    bytes_per_data_point = 0;
    unconverted = true;
    binary = buf;
  }

  -- A turn that ends in an error is the last.
  pub last_turn :
      (n : ℕ) (text : List ℕ) (p : Scanning)
      → let q =
          scan_checked scanf data_type binary_buffer_size
            (scan_point scanf data_type binary_buffer_size text p) in
        (not q.unconverted && q.error == 0) ≡ false
        → scan_points scanf data_type binary_buffer_size (suc n) text p ≡ some q
  unfolding scan_points
  last_turn n text p stop = elim (Option-cases (cut b',' text).1) [
    | inl last ↦ rw (scan_points, last) refl
    | inr (rest, more) ↦ rw (scan_points, more, stop) refl
  ]

  other_type-Stays :
      (n : ℕ) (text : List ℕ) (p : Scanning)
      → number_size data_type ≡ none
      → data_type ≢ adst_string
      → Stays p (scan_points scanf data_type binary_buffer_size (suc n) text p)
  unfolding scan_point scan_checked
  other_type-Stays n text p e scalar =
      let other : (data_type == adst_string) ≡ false = ground (arith, scalar) in
      let turn : scan_point scanf data_type binary_buffer_size text p
          ≡ record p { error = invalid_data_type; bytes_per_data_point = 0 } =
        rw (scan_point, e, other) refl in
      let q =
        scan_checked scanf data_type binary_buffer_size
          (scan_point scanf data_type binary_buffer_size text p) in
      (q, last_turn n text p (rw turn (ground arith)), λ j h. rw turn refl)

  -- The conversion of a text to a type other than ADST_STRING, in a buffer of 8 to 65536 bytes, ends
  -- within one turn more than the text has bytes, and changes nothing beyond the buffer.
  pub octet_ascii2binary-Stays :
      (text : List ℕ) (buf : ℕ → ℕ)
      → data_type ≢ adst_string
      → 8 ≤ binary_buffer_size
      → binary_buffer_size ≤ ads_cmd_buffer_size
      → (q : Scanning) × (octet_ascii2binary scanf data_type binary_buffer_size
            (suc (length text))
            text
            0
            buf
          ≡ some q)
        × ((j : ℕ) → binary_buffer_size ≤ j → q.binary j ≡ buf j)
  unfolding octet_ascii2binary
  octet_ascii2binary-Stays text buf scalar large small =
      elim (Option-cases (number_size data_type)) [
        | inl e ↦ other_type-Stays (length text) text (first_state buf) e scalar
        | inr (size, e) ↦
            let sized = rw e at (is_sized-number_size data_type) in
            numbers-Stays size (suc (length text)) text (first_state buf) e sized small
              (omega arith) (record { counted = omega arith; room = ground (arith, sized, large) })
      ]
