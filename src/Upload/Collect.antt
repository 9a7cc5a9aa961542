-- ===== src/Upload/Collect.antt =====
-- adsApp/src/adsAsynPortDriver.cpp, resolveSymbolInfo: the symbols that the records of this asyn port
-- name. A key of the cache is its bytes: the port, a zero byte, and the drvInfo text. `text` makes a
-- text of bytes.
use twincat_ads.Upload.{codes}
use text.Mathlib.Text.{◌==◌ as str_eq}
use twincat_ads.Base.{
  ℕ, Bool, true, false, String, List, [], ◌∷◌, Option, none, some, ◌==◌, if◌then◌else◌, not, ◌||◌,
  ◌&&◌, map,
}

unfoldable pub is_prefix : List ℕ → List ℕ → Bool
is_prefix [] s = true
is_prefix (c ∷ cs) [] = false
is_prefix (c ∷ cs) (x ∷ s) = c == x && is_prefix cs s

-- `find(...) != npos`
unfoldable pub contains : List ℕ → List ℕ → Bool
unfolding is_prefix
contains t [] = is_prefix t []
contains t (x ∷ s) = is_prefix t (x ∷ s) || contains t s

-- What precedes the first zero byte, and what follows it.
unfoldable pub split_key : List ℕ → Option (List ℕ × List ℕ)
split_key [] = none
split_key (x ∷ s) =
    let rest = split_key s in
    if x == 0
    then some ([], s)
    else elim rest [ none ↦ none | some (port, drv_info) ↦ some (x ∷ port, drv_info) ]

-- What follows the last slash, if there is one.
unfoldable pub after_last_slash : List ℕ → Option (List ℕ)
after_last_slash [] = none
after_last_slash (x ∷ s) = elim (after_last_slash s) [
  | some t ↦ some t
  | none ↦ if x == b'/' then some s else none
]

abbrev pub last_token : List ℕ → List ℕ
last_token s = elim (after_last_slash s) [ none ↦ s | some t ↦ t ]

-- Without a last `?` or `=`.
unfoldable pub strip_mark : List ℕ → List ℕ
strip_mark [] = []
strip_mark (x ∷ []) = if x == b'?' || x == b'=' then [] else x ∷ []
strip_mark (x ∷ y ∷ s) = x ∷ strip_mark (y ∷ s)

unfoldable pub same_codes : List ℕ → List ℕ → Bool
same_codes [] [] = true
same_codes (x ∷ s) (y ∷ t) = x == y && same_codes s t
same_codes _ _ = false

abbrev nonempty : List ℕ → Option (List ℕ)
nonempty [] = none
nonempty (x ∷ s) = some (x ∷ s)

unfoldable pub symbol_of_drv_info : List ℕ → Option (List ℕ)
unfolding contains after_last_slash strip_mark
symbol_of_drv_info drv_info =
    if contains (codes ".ADR.") drv_info
    then none
    else if contains (codes ".AMSPORTSTATE.") drv_info
    then none
    else nonempty (strip_mark (last_token drv_info))

unfoldable pub symbol_of_key : List ℕ → List ℕ → Option (List ℕ)
unfolding split_key same_codes symbol_of_drv_info
symbol_of_key port_name key = elim (split_key key) [
  | none ↦ none
  | some (port, drv_info) ↦
      if not (same_codes port port_name) then none else symbol_of_drv_info drv_info
]

unfoldable pub collected : List ℕ → List (List ℕ) → List (List ℕ)
unfolding symbol_of_key
collected port_name [] = []
collected port_name (key ∷ keys) = elim (symbol_of_key port_name key) [
  | none ↦ collected port_name keys
  | some s ↦ s ∷ collected port_name keys
]

unfoldable pub seen : String → List String → Bool
seen s [] = false
seen s (t ∷ ts) = str_eq t s || seen s ts

-- The symbols whose lower-case form was not seen before.
unfoldable pub unique : (String → String) → List String → List String → List String
unfolding seen
unique to_lower before [] = []
unique to_lower before (s ∷ symbols) =
    if seen (to_lower s) before
    then unique to_lower before symbols
    else s ∷ unique to_lower (to_lower s ∷ before) symbols

unfoldable pub symbols_to_resolve :
    (List ℕ → String) → (String → String) → List ℕ → List (List ℕ) → List String
unfolding collected unique
symbols_to_resolve text to_lower port_name keys =
    unique to_lower [] (map text (collected port_name keys))
