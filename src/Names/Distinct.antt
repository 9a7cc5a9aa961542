-- ===== src/Names/Distinct.antt =====
-- adsApp/src/adsAsynPortDriverUtils.cpp, the names of codes: that each code is given its own name.
use twincat_ads.Names.{switch_name}
use twincat_ads.Base.{ℕ, ◌≡◌, refl, ap, inl, inr, String, List, ◌∷◌, ◌==◌, ==_iff, Bool-cases}

-- `c` is one of the list.
pub data IsCase {C : Type 0} (c : C) : List C → Type 0 where
  first : (cs : List C) → IsCase c (c ∷ cs)
  later : (d : C) (cs : List C) → IsCase c cs → IsCase c (d ∷ cs)

switch_name-name :
    {C : Type 0} (value : C → ℕ) (name : C → String) (unknown : String)
    → ((c d : C) → value c ≡ value d → c ≡ d)
    → (c : C) (cs : List C) → IsCase c cs
    → switch_name value name unknown cs (value c) ≡ name c
unfolding switch_name
switch_name-name value name unknown distinct c cs (first rest) =
    rw ((==_iff (value c) (value c)).1 refl) refl
switch_name-name value name unknown distinct c cs (later d rest here) =
    elim (Bool-cases (value d == value c)) [
      | inl e ↦ rw e (ap name (distinct d c ((==_iff (value d) (value c)).0 e)))
      | inr e ↦ rw e (switch_name-name value name unknown distinct c rest here)
    ]
