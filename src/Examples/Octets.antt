-- ===== src/Examples/Octets.antt =====
-- Examples of the output buffer of the command interface.
use mathlib.Core.Option.{get_or}
use twincat_ads.Base.Int.{pos}
use twincat_ads.Octet.{OctetBuffer, octet_cmd_read_it}
use twincat_ads.Octet.Laws.{IsText, text_of, octet_cmd_read_it-IsText}
use twincat_ads.Base.{
  ℕ, zero, suc, min, ◌<◌, ◌≡◌, ◌≢◌, refl, [], ◌∷◌, ◌++◌, get_elem?, length, arith,
}

-- The text "Hi", followed by zeros.
abbrev hi : ℕ → ℕ
hi i = get_or (get_elem? (72 ∷ 105 ∷ []) i) 0

hi_no_zero : (i : ℕ) → i < 2 → hi i ≢ 0
hi_no_zero zero h e = ground (arith, e)
hi_no_zero (suc zero) h e = ground (arith, e)
hi_no_zero (suc (suc i)) h e = omega arith

abbrev small : OctetBuffer
small = record { buffer_size = 16; bytes_used = 2; buffer = hi }

small-IsText : IsText small
small-IsText = record {
  in_array = omega arith;
  room = omega arith;
  ended = refl;
  no_zero = hi_no_zero;
}

octet_cmd_read_it-IsText_example :
    let (code, out, b) = octet_cmd_read_it small 1 in
    (code ≡ pos 0) × IsText b × (text_of small ≡ out ++ text_of b) × (length out ≡ min 1 2)
octet_cmd_read_it-IsText_example = octet_cmd_read_it-IsText small 1 small-IsText (omega arith)
