-- ===== src/ClientPort/Owned.antt =====
-- adsApp/src/adsAsynPortDriver.cpp, the map threadIdToAmsClientPortMap_: that its entries have open
-- ports of their own, where AdsLib's ports behave as documented.
use twincat_ads.Base.Int.{ℤ, pos}
use twincat_ads.Base.Map.{find, insert, erase, update, find-insert, find-erase}
use mathlib.Core.Path.{subst}
use mathlib.Core.Option.{get_or}
use twincat_ads.Base.{
  ℕ, ◌≡◌, ◌≢◌, refl, sym, ap, ◌∙◌, ◌⊎◌, inl, inr, false, some, arith, ◌==◌, Bool-cases, ==_iff,
}
use twincat_ads.ClientPort.{AmsClientPortEntry, PortMap, PortApi, is_invalid_port_number}
use twincat_ads.ClientPort.Laws.{find-update}

found-insert :
    (t u : ℕ) (x f : AmsClientPortEntry) (m : PortMap)
    → find u (insert t x m) ≡ some f
    → ((t ≡ u) × (x ≡ f)) ⊎ (find u m ≡ some f)
found-insert t u x f m at = ground (arith, at, find-insert t u x m)

found-update :
    (t u : ℕ) (x e f : AmsClientPortEntry) (m : PortMap)
    → x.port ≡ e.port
    → find t m ≡ some e
    → find u (update t x m) ≡ some f
    → (g : AmsClientPortEntry) × (find u m ≡ some g) × (g.port ≡ f.port)
found-update t u x e f m port h at = elim (Bool-cases (t == u)) [
  | inl same ↦
      let here : some x ≡ some f = ground (arith, at, same, find-update t u x e m h) in
      let value : x ≡ f = ap (λ o. get_or o x) here in
      (e, subst (λ k. find k m ≡ some e) ((==_iff t u).0 same) h, sym port ∙ ap (λ y. y.port) value)
  | inr other ↦ (f, ground (arith, at, other, find-update t u x e m h), refl)
]

found-erase :
    (t u : ℕ) (f : AmsClientPortEntry) (m : PortMap)
    → find u (erase t m) ≡ some f
    → (t ≢ u) × (find u m ≡ some f)
found-erase t u f m at = elim (Bool-cases (t == u)) [
  | inl same ↦ absurd (ground (arith, at, same, find-erase t u m))
  | inr other ↦
      (λ e. ground (arith, other, (==_iff t u).1 e), ground (arith, at, other, find-erase t u m))
]

module _ {W : Type 0} (api : PortApi W) where
  open api use {ads_port_open_ex, ads_port_close_ex}

  -- What AdsLib documents of its ports, `Open` being those that are open: opening gives a port that was
  -- not open and keeps the others open; closing an open port succeeds and keeps the others open.
  pub record PortContract (Open : ℤ → W → Type 0) : Type 0 where
    pub opens :
        (w : W)
        → is_invalid_port_number (ads_port_open_ex w).0 ≡ false
        → Open (ads_port_open_ex w).0 (ads_port_open_ex w).1
    pub fresh :
        (q : ℤ) (w : W)
        → is_invalid_port_number (ads_port_open_ex w).0 ≡ false
        → Open q w
        → q ≢ (ads_port_open_ex w).0
    pub open_kept : (q : ℤ) (w : W) → Open q w → Open q (ads_port_open_ex w).1
    pub closes : (p : ℤ) (w : W) → Open p w → (ads_port_close_ex p w).0 ≡ 0
    pub close_kept : (p q : ℤ) (w : W) → Open q w → q ≢ p → Open q (ads_port_close_ex p w).1

  -- Every entry has an open port, and no two entries have the same.
  pub record IsOwned (Open : ℤ → W → Type 0) (m : PortMap) (w : W) : Type 0 where
    pub is_open : (t : ℕ) (e : AmsClientPortEntry) → find t m ≡ some e → Open e.port w
    pub distinct :
        (t u : ℕ) (e f : AmsClientPortEntry)
        → find t m ≡ some e
        → find u m ≡ some f
        → e.port ≡ f.port
        → t ≡ u

  module _ {Open : ℤ → W → Type 0} (contract : PortContract Open) where
    pub insert-IsOwned :
        (t : ℕ) (m : PortMap) (w : W)
        → is_invalid_port_number (ads_port_open_ex w).0 ≡ false
        → IsOwned Open m w
        → IsOwned Open
            (insert t (record { port = (ads_port_open_ex w).0; live_count = pos 1 }) m)
            (ads_port_open_ex w).1
    insert-IsOwned t m w valid o =
        let p = (ads_port_open_ex w).0 in
        let x : AmsClientPortEntry = record { port = p; live_count = pos 1 } in
        record {
          is_open = λ u f at. elim (found-insert t u x f m at) [
            | inl (_, here) ↦
                subst (λ q. Open q (ads_port_open_ex w).1) (ap (λ y. y.port) here)
                  (contract.opens w valid)
            | inr there ↦ contract.open_kept f.port w (o.is_open u f there)
          ];
          distinct = λ u v f g at_u at_v same. elim (found-insert t u x f m at_u) [
            | inl (at_t, here) ↦ elim (found-insert t v x g m at_v) [
              | inl (at_t', _) ↦ sym at_t ∙ at_t'
              | inr there ↦ absurd (
                  contract.fresh g.port w valid (o.is_open v g there)
                    (sym same ∙ sym (ap (λ y. y.port) here)))
            ]
            | inr there_u ↦ elim (found-insert t v x g m at_v) [
              | inl (_, here) ↦ absurd (
                  contract.fresh f.port w valid (o.is_open u f there_u)
                    (same ∙ sym (ap (λ y. y.port) here)))
              | inr there_v ↦ o.distinct u v f g there_u there_v same
            ]
          ];
        }

    pub update-IsOwned :
        (t : ℕ) (n : ℤ) (e : AmsClientPortEntry) (m : PortMap) (w : W)
        → find t m ≡ some e
        → IsOwned Open m w
        → IsOwned Open (update t (record e { live_count = n }) m) w
    update-IsOwned t n e m w h o = record {
      is_open = λ u f at.
          let (g, there, port) = found-update t u _ e f m refl h at in
          subst (λ q. Open q w) port (o.is_open u g there);
      distinct = λ u v f g at_u at_v same.
          let (f', there_u, port_u) = found-update t u _ e f m refl h at_u in
          let (g', there_v, port_v) = found-update t v _ e g m refl h at_v in
          o.distinct u v f' g' there_u there_v (port_u ∙ same ∙ sym port_v);
    }

    pub erase-IsOwned :
        (t : ℕ) (e : AmsClientPortEntry) (m : PortMap) (w : W)
        → find t m ≡ some e
        → IsOwned Open m w
        → IsOwned Open (erase t m) (ads_port_close_ex e.port w).1
    erase-IsOwned t e m w h o = record {
      is_open = λ u f at.
          let (other, there) = found-erase t u f m at in
          contract.close_kept e.port f.port w (o.is_open u f there)
            (λ same. other (o.distinct t u e f h there (sym same)));
      distinct = λ u v f g at_u at_v same.
          o.distinct u v f g (found-erase t u f m at_u).1 (found-erase t v g m at_v).1 same;
    }
