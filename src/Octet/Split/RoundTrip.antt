-- ===== src/Octet/Split/RoundTrip.antt =====
-- adsApp/src/adsAsynPortDriverUtils.cpp, octetCreateArgvSepv: what the arguments and separators of a
-- line are.
use mathlib.Core.List.{append-nil}
use twincat_ads.Octet.Split.{has, cut, args_from, octet_create_argv_sepv}
use twincat_ads.Base.{
  ℕ, zero, suc, ◌+◌, ◌≤◌, ◌<◌, Bool, true, false, List, [], ◌∷◌, ◌++◌, none, some, ◌==◌, length,
  drop, not, ◌&&◌, ◌≡◌, refl, ap, ◌∙◌, ◌⊎◌, inl, inr, Bool-cases, Option-cases, if-intro, arith,
}

-- The arguments and separators one after the other.
unfoldable pub joined : List (List ℕ × List ℕ) → List ℕ
joined [] = []
joined (a ∷ args) = a.0 ++ (a.1 ++ joined args)

unfoldable pub all_without : ℕ → List (List ℕ × List ℕ) → Bool
unfolding has
all_without c [] = true
all_without c (a ∷ args) = not (has c a.0) && all_without c args

cut-none : (c : ℕ) (s : List ℕ) → (cut c s).1 ≡ none → (cut c s).0 ≡ s
unfolding cut
cut-none c [] h = refl
cut-none c (x ∷ s) h = elim (Bool-cases (x == c)) [
  | inl e ↦ absurd (ground (arith, h, e))
  | inr e ↦ ground (arith, h, e, cut-none c s)
]

pub cut-some :
    (c : ℕ) (s rest : List ℕ)
    → (cut c s).1 ≡ some rest
    → ((cut c s).0 ++ (c ∷ rest) ≡ s) × (length rest < length s)
unfolding cut
cut-some c [] rest h = absurd (ground (arith, h))
cut-some c (x ∷ s) rest h = elim (Bool-cases (x == c)) [
  | inl e ↦ ground (arith, h, e)
  | inr e ↦ ground (arith, h, e, cut-some c s rest)
]

cut-has : (d c : ℕ) (s : List ℕ) → has d s ≡ false → has d (cut c s).0 ≡ false
unfolding cut has
cut-has d c [] h = refl
cut-has d c (x ∷ s) h = ground (arith, h, cut-has d c s)

cut_self : (c : ℕ) (s : List ℕ) → has c (cut c s).0 ≡ false
unfolding cut has
cut_self c [] = refl
cut_self c (x ∷ s) = ground (arith, cut_self c s)

-- `d` is the separator, or is not in the text.
without-cut : (d c : ℕ) (s : List ℕ) → (d ≡ c) ⊎ (has d s ≡ false) → has d (cut c s).0 ≡ false
without-cut d c s (inl e) = rw e (cut_self c s)
without-cut d c s (inr h) = cut-has d c s h

rest-has :
    (d c : ℕ) (s rest : List ℕ) → (cut c s).1 ≡ some rest → has d s ≡ false → has d rest ≡ false
unfolding cut has
rest-has d c [] rest h f = absurd (ground (arith, h))
rest-has d c (x ∷ s) rest h f = elim (Bool-cases (x == c)) [
  | inl e ↦ ground (arith, h, e, f)
  | inr e ↦ ground (arith, h, e, f, rest-has d c s rest)
]

-- What is so of the arguments of the text `s`.
abbrev Split : ℕ → List ℕ → List (List ℕ × List ℕ) → Type 0
Split d s args = (joined args ≡ s) × (all_without d args ≡ true) × (length args ≤ length s)

without-rest :
    (d c : ℕ) (s rest : List ℕ)
    → (cut c s).1 ≡ some rest
    → (d ≡ c) ⊎ (has d s ≡ false)
    → (d ≡ c) ⊎ (has d rest ≡ false)
without-rest d c s rest e (inl h) = inl h
without-rest d c s rest e (inr h) = inr (rest-has d c s rest e h)

args_from-Split :
    (n d c x : ℕ) (s : List ℕ)
    → length s < n
    → (d ≡ c) ⊎ (has d (x ∷ s) ≡ false)
    → Split d (x ∷ s) (args_from n c (x ∷ s))
unfolding args_from joined all_without
args_from-Split zero d c x s b h = absurd (omega (arith, b))
args_from-Split (suc n) d c x s b h =
    let free = without-cut d c (x ∷ s) h in
    elim (Option-cases (cut c (x ∷ s)).1) [
      | inl e ↦
          rw (args_from, e)
            (append-nil (cut c (x ∷ s)).0 ∙ cut-none c (x ∷ s) e, ground (arith, free), omega arith)
      | inr ([], e) ↦
          rw (args_from, e) ((cut-some c (x ∷ s) [] e).0, ground (arith, free), omega arith)
      | inr (y ∷ t, e) ↦
          let whole = cut-some c (x ∷ s) (y ∷ t) e in
          let shorter : length t < n = omega (arith, b, whole.1) in
          let later = args_from-Split n d c y t shorter (without-rest d c (x ∷ s) (y ∷ t) e h) in
          rw (args_from, e)
            (
              ap (λ r. (cut c (x ∷ s)).0 ++ (c ∷ r)) later.0 ∙ whole.0,
              ground (arith, free, later.1),
              omega (arith, later.2, whole.1),
            )
    ]

-- The arguments of a line after the first, which is the line itself, are the line again when each is
-- followed by its separator, and none of them has a semicolon. All of them fit the arrays of two entries
-- more than the line has bytes.
pub octet_create_argv_sepv-joined :
    (line : List ℕ)
    → (joined (drop 1 (octet_create_argv_sepv line)) ≡ line)
      × (all_without b';' (drop 1 (octet_create_argv_sepv line)) ≡ true)
      × (length (octet_create_argv_sepv line) ≤ 2 + length line)
unfolding octet_create_argv_sepv all_without joined
octet_create_argv_sepv-joined [] = (refl, refl, omega arith)
octet_create_argv_sepv-joined (x ∷ s) =
    let enough : length s < suc (length s) = omega arith in
    let inside : Split b';' (x ∷ s) (drop 1 (octet_create_argv_sepv (x ∷ s))) =
      if-intro (Split b';' (x ∷ s)) (has b';' (x ∷ s))
        (λ _. args_from-Split (suc (length s)) b';' b';' x s enough (inl refl))
        (λ none_here.
          if-intro (Split b';' (x ∷ s)) (has b' ' (x ∷ s))
            (λ _. args_from-Split (suc (length s)) b';' b' ' x s enough (inr none_here))
            (λ _. (append-nil (x ∷ s), ground (arith, none_here), omega arith))) in
    (inside.0, inside.1, omega (arith, inside.2))
