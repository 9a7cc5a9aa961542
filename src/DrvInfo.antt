-- ===== src/DrvInfo.antt =====
-- adsApp/src/adsAsynPortDriver.cpp: validateDrvInfo, and the functions of <string.h> that it and the
-- parser of the text apply, on texts as lists of their bytes.
pub mod Parse
pub mod Laws
pub mod Parsed
pub mod Records
pub mod Create
use twincat_ads.Upload.Collect.{is_prefix}
use twincat_ads.Base.{
  ℕ, Bool, true, false, List, [], ◌∷◌, Option, none, some, AsynStatus, asyn_success, asyn_error,
  ◌==◌, if◌then◌else◌, length,
}

-- What follows and includes the first place where `t` occurs.
unfoldable pub strstr : List ℕ → List ℕ → Option (List ℕ)
unfolding is_prefix
strstr t [] = if is_prefix t [] then some [] else none
strstr t (x ∷ s) = let rest = strstr t s in if is_prefix t (x ∷ s) then some (x ∷ s) else rest

-- What follows and includes the last `c`.
unfoldable pub strrchr : ℕ → List ℕ → Option (List ℕ)
strrchr c [] = none
strrchr c (x ∷ s) = elim (strrchr c s) [
  | some t ↦ some t
  | none ↦ if x == c then some (x ∷ s) else none
]

abbrev pub has_length_1 : Option (List ℕ) → Bool
has_length_1 none = false
has_length_1 (some t) = length t == 1

unfoldable pub validate_drv_info : List ℕ → AsynStatus
unfolding strrchr
validate_drv_info drv_info =
    if length drv_info == 0
    then asyn_error
    else if has_length_1 (strrchr b'?' drv_info)
    then asyn_success
    else if has_length_1 (strrchr b'=' drv_info)
    then asyn_success
    else asyn_error
