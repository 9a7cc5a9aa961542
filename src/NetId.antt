-- ===== src/NetId.antt =====
-- adsApp/src/adsAmsNetId.h: parseAmsNetId. The text and the result are pointers, none where null; a net
-- id is the list of its bytes. `scan` is `sscanf` with `%u.%u.%u.%u.%u.%u%c`: how many values it gave,
-- and the six numbers, which were 0 before.
use text.Mathlib.Text.{◌==◌ as str_eq}
use twincat_ads.Base.{
  ℕ, Bool, true, false, String, List, [], ◌∷◌, Option, none, some, leb, ◌==◌, if◌then◌else◌, not,
  ◌&&◌, ◌||◌, ◌≡◌, inl, inr, ◌⊎◌, refl, if-intro, arith,
}

-- `std::all_of` with a comparison to the largest uint8_t.
unfoldable pub all_bytes : List ℕ → Bool
all_bytes [] = true
all_bytes (b ∷ bytes) = leb b 255 && all_bytes bytes

-- Whether the text is a net id, and what the result's pointer has afterwards.
unfoldable pub parse_ams_net_id :
    (String → ℕ × List ℕ) → Option String → Option (List ℕ) → Bool × Option (List ℕ)
unfolding all_bytes
parse_ams_net_id scan none net_id = (false, net_id)
parse_ams_net_id scan (some text) none = (false, none)
parse_ams_net_id scan (some text) (some old) =
    let r = scan text in
    if str_eq text ""
    then (false, some old)
    else if not (r.0 == 6) || not (all_bytes r.1)
    then (false, some old)
    else (true, some r.1)

-- A text that is refused leaves the result, and one that is accepted was six numbers of a byte each.
pub parse_ams_net_id_cases :
    (scan : String → ℕ × List ℕ) (text : String) (old : List ℕ)
    → let r = parse_ams_net_id scan (some text) (some old) in
      ((r.0 ≡ false) × (r.1 ≡ some old))
      ⊎ ((r.0 ≡ true)
          × (r.1 ≡ some (scan text).1)
          × ((scan text).0 ≡ 6)
          × (all_bytes (scan text).1 ≡ true))
unfolding parse_ams_net_id
parse_ams_net_id_cases scan text old =
    let Cases : Bool × Option (List ℕ) → Type 0 = λ r.
      ((r.0 ≡ false) × (r.1 ≡ some old))
      ⊎ ((r.0 ≡ true)
          × (r.1 ≡ some (scan text).1)
          × ((scan text).0 ≡ 6)
          × (all_bytes (scan text).1 ≡ true)) in
    if-intro Cases (str_eq text "") (λ _. inl (refl, refl))
      (λ _.
        if-intro Cases (not ((scan text).0 == 6) || not (all_bytes (scan text).1))
          (λ _. inl (refl, refl)) (λ h. inr (refl, refl, ground (arith, h), ground (arith, h))))
