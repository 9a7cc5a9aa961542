-- ===== src/Octet/Split.antt =====
-- adsApp/src/adsAsynPortDriverUtils.cpp, octetCreateArgvSepv: a line of commands is split at its
-- semicolons, or else at its spaces. A text is the list of its bytes. What malloc refuses is not
-- modelled.
pub mod RoundTrip
use twincat_ads.Base.{
  ℕ, zero, suc, Bool, true, false, List, [], ◌∷◌, Option, none, some, ◌==◌, if◌then◌else◌, ◌||◌,
  length,
}

-- `strchr(s, c) != NULL`
unfoldable pub has : ℕ → List ℕ → Bool
has c [] = false
has c (x ∷ s) = x == c || has c s

-- What stands before the first `c`, and what follows it.
unfoldable pub cut : ℕ → List ℕ → List ℕ × Option (List ℕ)
cut c [] = ([], none)
cut c (x ∷ s) = let r = cut c s in if x == c then ([], some s) else (x ∷ r.0, r.1)

-- The arguments from `arg_begin` on, each with its separator. Each turn of the loop uses one of `n`.
unfoldable pub args_from : ℕ → ℕ → List ℕ → List (List ℕ × List ℕ)
unfolding cut
args_from zero c s = []
args_from (suc n) c s =
    let (arg, rest) = cut c s in
    elim rest [
      | none ↦ (arg, []) ∷ []
      | some t ↦ (arg, c ∷ []) ∷ (elim t [ [] ↦ [] | x ∷ u ↦ args_from n c (x ∷ u) ])
    ]

-- argv and sepv, of which the first entries are the whole line and no text; argc is one less than the
-- length. The number of turns given is that of the line's bytes.
unfoldable pub octet_create_argv_sepv : List ℕ → List (List ℕ × List ℕ)
unfolding has args_from
octet_create_argv_sepv [] = ([], []) ∷ []
octet_create_argv_sepv (x ∷ s) =
    let line = x ∷ s in
    (line, [])
    ∷ (if has b';' line
        then args_from (length line) b';' line
        else if has b' ' line
        then args_from (length line) b' ' line
        else (line, []) ∷ [])
