-- ===== src/Octet/Laws.antt =====
-- adsApp/src/adsAsynPortDriverUtils.cpp and adsAsynPortDriver.cpp: the output buffer as a text.
use twincat_ads.Base.Int.{pos}
use twincat_ads.Bulk.{search_from}
use twincat_ads.Bulk.Layout.{search_from_bounds, search_from_hit, search_from_first}
use twincat_ads.Transfer.Decode.{half32}
use twincat_ads.Octet.{
  OctetBuffer, ads_cmd_buffer_size, terminated, copied_to, moved_down, sub_size, add_to_buffer,
  octet_remove_from_buffer, move_or_fail, strlen, bytes_from, octet_cmd_read_it,
}
use native.Mathlib.Decide.{dec_lt}
use twincat_ads.Base.{
  ℕ, zero, suc, min, ◌+◌, ◌-◌, ◌%◌, ◌^◌, ◌≤◌, ◌<◌, ◌≡◌, ◌≢◌, refl, sym, ap, ◌∙◌, ◌⊎◌, inl, inr,
  true, false, List, ◌∷◌, ◌++◌, length, ltb, leb, ◌==◌, Bool-cases, lt→ltb, leb→le, ==_iff, arith,
}

-- The bytes in use hold no 0 and one follows them, within the array.
pub record IsText (b : OctetBuffer) : Type 0 where
  pub in_array : b.buffer_size ≤ ads_cmd_buffer_size
  pub room : b.bytes_used < b.buffer_size
  pub ended : b.buffer b.bytes_used ≡ 0
  pub no_zero : (i : ℕ) → i < b.bytes_used → b.buffer i ≢ 0

abbrev pub text_of : OctetBuffer → List ℕ
text_of b = bytes_from b.bytes_used 0 b.buffer

sub_size_le : (x y : ℕ) → y ≤ x → x < 2 ^ 64 → sub_size x y ≡ x - y
sub_size_le x y h k = omega arith

bytes_from_split :
    (m n i : ℕ) (a : ℕ → ℕ) → bytes_from (m + n) i a ≡ bytes_from m i a ++ bytes_from n (i + m) a
unfolding bytes_from
bytes_from_split zero n i a =
    let e : 0 + n ≡ n = omega arith in let f : i + 0 ≡ i = omega arith in rw (e, f) refl
bytes_from_split (suc m) n i a =
    let e : suc m + n ≡ suc (m + n) = omega arith in
    let f : i + suc m ≡ suc i + m = omega arith in
    rw (e, f) (ap (◌∷◌ (a i)) (bytes_from_split m n (suc i) a))

bytes_from_same :
    (n i k : ℕ) (a c : ℕ → ℕ)
    → ((j : ℕ) → j < n → a (i + j) ≡ c (k + j))
    → bytes_from n i a ≡ bytes_from n k c
unfolding bytes_from
bytes_from_same zero i k a c h = refl
bytes_from_same (suc n) i k a c h =
    let at : (l : ℕ) → l ≡ l + 0 = λ l. omega arith in
    let next : (l j : ℕ) → suc l + j ≡ l + suc j = λ l j. omega arith in
    let first : a i ≡ c k = ap a (at i) ∙ h 0 (omega arith) ∙ ap c (sym (at k)) in
    let others : (j : ℕ) → j < n → a (suc i + j) ≡ c (suc k + j) =
      λ j lt. ap a (next i j) ∙ h (suc j) (omega arith) ∙ ap c (sym (next k j)) in
    rw (first, bytes_from_same n (suc i) (suc k) a c others) refl

length-bytes_from : (n i : ℕ) (a : ℕ → ℕ) → length (bytes_from n i a) ≡ n
unfolding bytes_from
length-bytes_from zero i a = refl
length-bytes_from (suc n) i a = ap suc (length-bytes_from n (suc i) a)

removed :
    (b : OctetBuffer) (len : ℕ)
    → IsText b
    → len ≤ b.bytes_used
    → octet_remove_from_buffer b len ≡ move_or_fail b len (pos (b.bytes_used - len))
unfolding octet_remove_from_buffer
removed b len t h =
    let n = b.bytes_used - len in
    let small : b.bytes_used < 2 ^ 31 = omega (arith, t.room, t.in_array) in
    let diff : sub_size b.bytes_used len ≡ n = sub_size_le b.bytes_used len h (omega arith) in
    let cut : n % 2 ^ 32 ≡ n = omega arith in
    let fits : ltb n half32 ≡ true = lt→ltb n half32 (omega arith) in rw (diff, cut, fits) refl

strlen_used : (b : OctetBuffer) → IsText b → strlen b ≡ b.bytes_used
unfolding strlen
strlen_used b t =
    let zero_at = λ (i : ℕ). b.buffer i == 0 in
    let r = search_from b.buffer_size zero_at 0 in
    let bounds = search_from_bounds b.buffer_size zero_at 0 in
    elim (dec_lt r b.bytes_used) [
      | yes early ↦
          let hit = search_from_hit b.buffer_size zero_at 0 (omega (arith, t.room)) in
          absurd (t.no_zero r early ((==_iff (b.buffer r) 0).0 hit))
      | no not_early ↦ elim (dec_lt b.bytes_used r) [
        | yes late ↦
            let miss = search_from_first b.buffer_size zero_at 0 b.bytes_used (omega arith) late in
            absurd (ground (arith, miss, t.ended))
        | no not_late ↦ omega arith
      ]
    ]

added_low :
    (u n : ℕ) (text a : ℕ → ℕ) (i : ℕ) → i < u → terminated (u + n) (copied_to u n text a) i ≡ a i
added_low u n text a i h = ground arith

added_high :
    (u n : ℕ) (text a : ℕ → ℕ) (j : ℕ)
    → j < n
    → terminated (u + n) (copied_to u n text a) (u + j) ≡ text j
added_high u n text a j h = let e : u + j - u ≡ j = omega arith in ground (arith, e)

added_at :
    (u n : ℕ) (text a : ℕ → ℕ) (i : ℕ)
    → u ≤ i
    → i < u + n
    → terminated (u + n) (copied_to u n text a) i ≡ text (i - u)
added_at u n text a i lo hi = ground arith

-- The parts of the new text.
added_text :
    (u n : ℕ) (text a : ℕ → ℕ)
    → bytes_from (u + n) 0 (terminated (u + n) (copied_to u n text a))
      ≡ bytes_from u 0 a ++ bytes_from n 0 text
added_text u n text a =
    let new = terminated (u + n) (copied_to u n text a) in
    let low : bytes_from u 0 new ≡ bytes_from u 0 a =
      bytes_from_same u 0 0 new a (λ j lt. added_low u n text a (0 + j) (omega arith)) in
    let high : bytes_from n (0 + u) new ≡ bytes_from n 0 text =
      bytes_from_same n (0 + u) 0 new text (λ j lt.
        let e : 0 + u + j ≡ u + j = omega arith in
        let f : j ≡ 0 + j = omega arith in ap new e ∙ added_high u n text a j lt ∙ ap text f) in
    bytes_from_split u n 0 new ∙ rw (low, high) refl

-- Adding to a buffer that holds a text either fails, changes nothing and would have left no room, or
-- keeps the text and puts the new bytes behind it; if those hold no 0, the buffer holds a text again.
pub add_to_buffer_cases :
    (b : OctetBuffer) (text : ℕ → ℕ) (n : ℕ)
    → IsText b
    → ((i : ℕ) → i < n → text i ≢ 0)
    → let r = add_to_buffer b text n in
      ((r ≡ (592, b)) × (b.buffer_size ≤ b.bytes_used + n + 1))
      ⊎ ((r.0 ≡ 0) × IsText r.1 × (text_of r.1 ≡ text_of b ++ bytes_from n 0 text))
unfolding add_to_buffer
add_to_buffer_cases b text n t h =
    let u = b.bytes_used in
    let d1 : sub_size b.buffer_size u ≡ b.buffer_size - u =
      sub_size_le b.buffer_size u (omega (arith, t.room)) (omega (arith, t.in_array)) in
    let d2 : sub_size (b.buffer_size - u) 1 ≡ b.buffer_size - u - 1 =
      sub_size_le (b.buffer_size - u) 1 (omega (arith, t.room)) (omega (arith, t.in_array)) in
    elim (Bool-cases (leb (b.buffer_size - u - 1) n)) [
      | inl full ↦
          rw (d1, d2, full) (inl (refl, omega (arith, leb→le (b.buffer_size - u - 1) n full)))
      | inr fits ↦
          rw (d1, d2, fits)
            (inr (
              refl,
              record {
                in_array = t.in_array;
                room = ground (arith, fits, t.room);
                ended = ground arith;
                no_zero = λ i lt z. elim (dec_lt i u) [
                  | yes low ↦ t.no_zero i low (sym (added_low u n text b.buffer i low) ∙ z)
                  | no high ↦
                      h (i - u) (omega arith)
                        (sym (added_at u n text b.buffer i (omega arith) lt) ∙ z)
                ];
              },
              added_text u n text b.buffer,
            ))
    ]

moved_at :
    (len n : ℕ) (a : ℕ → ℕ) (i : ℕ) → i < n → terminated n (moved_down len n a) i ≡ a (len + i)
moved_at len n a i h = ground arith

-- Removing the first bytes of a text leaves the rest.
remove-IsText :
    (b : OctetBuffer) (len : ℕ)
    → IsText b
    → len ≤ b.bytes_used
    → let b' = (octet_remove_from_buffer b len).1 in
      IsText b' × (text_of b ≡ bytes_from len 0 b.buffer ++ text_of b')
remove-IsText b len t h =
    let n = b.bytes_used - len in
    let new = terminated n (moved_down len n b.buffer) in
    let rest : bytes_from n (0 + len) b.buffer ≡ bytes_from n 0 new =
      bytes_from_same n (0 + len) 0 b.buffer new (λ j lt.
        let e : 0 + len + j ≡ len + j = omega arith in
        let f : j ≡ 0 + j = omega arith in
        ap b.buffer e ∙ sym (moved_at len n b.buffer j lt) ∙ ap new f) in
    let all : b.bytes_used ≡ len + n = omega arith in
    rw (removed b len t h) (
      record {
        in_array = t.in_array;
        room = omega (arith, t.room);
        ended = ground arith;
        no_zero =
            λ i lt z. t.no_zero (len + i) (omega arith) (sym (moved_at len n b.buffer i lt) ∙ z);
      },
      ap (λ k. bytes_from k 0 b.buffer) all
          ∙ bytes_from_split len n 0 b.buffer
          ∙ ap (λ r. bytes_from len 0 b.buffer ++ r) rest,
    )

-- A read of at most `outlen` bytes, at least one, from a buffer that holds a text succeeds and delivers
-- the first bytes of the text, `outlen` of them or the whole text if it is shorter; the buffer then
-- holds the rest of the text.
pub octet_cmd_read_it-IsText :
    (b : OctetBuffer) (outlen : ℕ)
    → IsText b
    → 0 < outlen
    → let (code, out, b') = octet_cmd_read_it b outlen in
      (code ≡ pos 0)
      × IsText b'
      × (text_of b ≡ out ++ text_of b')
      × (length out ≡ min outlen b.bytes_used)
unfolding octet_cmd_read_it
octet_cmd_read_it-IsText b outlen t h =
    let u = b.bytes_used in
    let some_room : (outlen == 0) ≡ false = ground arith in
    elim (Bool-cases (leb (outlen + 1) u)) [
      | inl longer ↦
          let le : outlen ≤ u = omega (arith, leb→le (outlen + 1) u longer) in
          let r = remove-IsText b outlen t le in
          rw (some_room, strlen_used b t, longer)
            (refl, r.0, r.1, length-bytes_from outlen 0 b.buffer ∙ omega arith)
      | inr all ↦
          let r = remove-IsText b u t (omega arith) in
          let le : u ≤ outlen = ground (arith, all) in
          rw (some_room, strlen_used b t, all)
            (refl, r.0, r.1, length-bytes_from u 0 b.buffer ∙ omega arith)
    ]
