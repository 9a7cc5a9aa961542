-- ===== src/Octet.antt =====
-- The output buffer of the ASCII command interface. adsApp/src/adsAsynPortDriverUtils.h:
-- adsOctetOutputBufferType; adsAsynPortDriverUtils.cpp: addToBuffer, cmd_buf_vprintf,
-- octetCmdBuf_printf, octetRemoveFromBuffer, octetClearBuffer; adsAsynPortDriver.cpp:
-- octetCMDreadIt. A `char` array is a function from the index. A null pointer, and an output length
-- beyond `int`, are not values of the model.
pub mod Laws
pub mod Split
pub mod Print
pub mod Scan
pub mod Commands
use twincat_ads.Base.Int.{ℤ, pos, negsuc}
use twincat_ads.Bulk.{search_from}
use twincat_ads.Transfer.Decode.{signed, half32}
use twincat_ads.Base.{
  ℕ, zero, suc, ◌+◌, ◌-◌, ◌%◌, ◌^◌, Bool, true, false, List, [], ◌∷◌, ltb, leb, ◌==◌, if◌then◌else◌,
  not, ◌&&◌,
}

abbrev pub ads_cmd_buffer_size : ℕ
ads_cmd_buffer_size = 65536

pub record OctetBuffer : Type 0 where
  pub buffer_size : ℕ
  pub bytes_used : ℕ
  pub buffer : ℕ → ℕ

-- a[i] = 0
abbrev pub terminated : ℕ → (ℕ → ℕ) → ℕ → ℕ
terminated i a j = if i == j then 0 else a j

-- `memcpy(&a[i], text, n)` and `memmove(a, &a[i], n)`.
abbrev pub copied_to : ℕ → ℕ → (ℕ → ℕ) → (ℕ → ℕ) → ℕ → ℕ
copied_to i n text a j = if leb i j && ltb j (i + n) then text (j - i) else a j

abbrev pub moved_down : ℕ → ℕ → (ℕ → ℕ) → ℕ → ℕ
moved_down i n a j = if ltb j n then a (i + j) else a j

-- `x - y` of `size_t`.
abbrev pub sub_size : ℕ → ℕ → ℕ
sub_size x y = (x + 2 ^ 64 - y) % 2 ^ 64

-- The error code of these functions is the number of the line.
unfoldable pub add_to_buffer : OctetBuffer → (ℕ → ℕ) → ℕ → ℕ × OctetBuffer
add_to_buffer b text add_length =
    if leb (sub_size (sub_size b.buffer_size b.bytes_used) 1) add_length then (592, b) else (
      0,
      record b {
        bytes_used = b.bytes_used + add_length;
        buffer =
            terminated (b.bytes_used + add_length)
              (copied_to b.bytes_used add_length text b.buffer);
      },
    )

abbrev pub move_or_fail : OctetBuffer → ℕ → ℤ → ℕ × OctetBuffer
move_or_fail b len (pos n) =
    (0, record b { bytes_used = n; buffer = terminated n (moved_down len n b.buffer) })
move_or_fail b len (negsuc n) = (661, b)

-- The difference is cut to an `int`.
unfoldable pub octet_remove_from_buffer : OctetBuffer → ℕ → ℕ × OctetBuffer
octet_remove_from_buffer b len =
    move_or_fail b len (signed half32 (sub_size b.bytes_used len % 2 ^ 32))

unfoldable pub octet_clear_buffer : OctetBuffer → ℕ × OctetBuffer
octet_clear_buffer b = (0, record b { bytes_used = 0; buffer = terminated 0 b.buffer })

-- `buf` and `res` are what `vsnprintf` wrote and its result.
unfoldable pub cmd_buf_vprintf : OctetBuffer → (ℕ → ℕ) → ℤ → ℤ × OctetBuffer
unfolding add_to_buffer
cmd_buf_vprintf b buf (pos n) = let (code, b') = add_to_buffer b buf n in (pos n, b')
cmd_buf_vprintf b buf (negsuc n) = (negsuc n, b)

unfoldable pub octet_cmd_buf_printf : OctetBuffer → (ℕ → ℕ) → ℤ → ℕ × OctetBuffer
unfolding cmd_buf_vprintf
octet_cmd_buf_printf b buf res = let (code, b') = cmd_buf_vprintf b buf res in (0, b')

-- The first 0 in the array.
unfoldable pub strlen : OctetBuffer → ℕ
strlen b = search_from b.buffer_size (λ i. b.buffer i == 0) 0

unfoldable pub bytes_from : ℕ → ℕ → (ℕ → ℕ) → List ℕ
bytes_from zero i a = []
bytes_from (suc n) i a = a i ∷ bytes_from n (suc i) a

-- The result and what is written to `outbuf` before its final 0. `snprintf` gives the length of the
-- whole text, so its error branch is not taken.
unfoldable pub octet_cmd_read_it : OctetBuffer → ℕ → ℤ × List ℕ × OctetBuffer
octet_cmd_read_it b outlen =
    if outlen == 0
    then (negsuc 0, [], b)
    else let ret = if leb (outlen + 1) (strlen b) then outlen else strlen b in
      let (code, b') = octet_remove_from_buffer b ret in (pos 0, bytes_from ret 0 b.buffer, b')
