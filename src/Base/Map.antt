-- ===== src/Base/Map.antt =====
-- `std::unordered_map` with numbers for keys, as an association list. `insert` is used for a key
-- that is absent, `erase` takes the key out, `update` changes the value in place.
use Prim.Native.Nat.{ℕ}
use mathlib.Core.Path.{◌≡◌, refl}
use mathlib.Core.Bool.{false}
use mathlib.Core.List.{List, [], ◌∷◌}
use mathlib.Core.Option.{Option, none, some}
use native.Mathlib.Omega.{arith}
use twincat_ads.Base.Tests.{◌==◌, if◌then◌else◌}

module _ {ℓ} {V : Type ℓ} where
  unfoldable pub find : ℕ → List (ℕ × V) → Option V
  find k [] = none
  find k ((j, v) ∷ m) = if j == k then some v else find k m

  unfoldable pub insert : ℕ → V → List (ℕ × V) → List (ℕ × V)
  insert k v m = (k, v) ∷ m

  unfoldable pub erase : ℕ → List (ℕ × V) → List (ℕ × V)
  erase k [] = []
  erase k ((j, v) ∷ m) = let rest = erase k m in if j == k then rest else (j, v) ∷ rest

  unfoldable pub update : ℕ → V → List (ℕ × V) → List (ℕ × V)
  update k v [] = []
  update k v ((j, w) ∷ m) = let rest = update k v m in (j, if j == k then v else w) ∷ rest

  pub find-insert :
      (k j : ℕ) (v : V) (m : List (ℕ × V))
      → find j (insert k v m) ≡ (if k == j then some v else find j m)
  unfolding find insert
  find-insert k j v m = refl

  pub find-erase :
      (k j : ℕ) (m : List (ℕ × V)) → find j (erase k m) ≡ (if k == j then none else find j m)
  unfolding find erase
  find-erase k j [] = ground arith
  find-erase k j ((i, w) ∷ m) = ground (arith, find-erase k j m)

  -- `update` keeps an absent key absent.
  pub find-update_ne :
      (k j : ℕ) (v : V) (m : List (ℕ × V)) → (k == j) ≡ false → find j (update k v m) ≡ find j m
  unfolding find update
  find-update_ne k j v [] h = refl
  find-update_ne k j v ((i, w) ∷ m) h = ground (arith, find-update_ne k j v m)

  pub find-update_self :
      (k : ℕ) (v w : V) (m : List (ℕ × V)) → find k m ≡ some w → find k (update k v m) ≡ some v
  unfolding find update
  find-update_self k v w [] h = cc
  find-update_self k v w ((i, u) ∷ m) h = ground (arith, find-update_self k v w m)
