-- ===== src/ClientPort/History.antt =====
-- Guards over time: which entries the map holds after any sequence of guard constructions and
-- destructions, on any threads.
use twincat_ads.Base.Int.{ℤ, pos, pred_ℤ, is_positive}
use twincat_ads.Base.Map.{find, insert, find-erase}
use twincat_ads.Base.{
  ℕ, zero, suc, ◌-◌, ◌≡◌, inl, inr, false, List, [], ◌∷◌, Option, none, some, arith, ◌==◌,
  if◌then◌else◌, Option-cases, Bool-cases,
}
use twincat_ads.ClientPort.{
  AmsClientPortEntry, PortMap, PortApi, is_invalid_port_number, open_for, add_ads_client_port,
  release_entry, del_ads_client_port,
}
use twincat_ads.ClientPort.Owned.{
  PortContract, IsOwned, insert-IsOwned, update-IsOwned, erase-IsOwned,
}
use twincat_ads.ClientPort.Laws.{find-update, add-held, add-absent, del-absent, del-held}

-- `AdsClientPortGuard` constructed and destroyed on a thread.
pub data GuardEvent : Type 0 where
  construct destroy : ℕ → GuardEvent

-- `held` counts, for each thread, the live guards that were given a port. A guard that was given none
-- was constructed when its thread had no entry; the guards of a thread are scoped, so it is destroyed
-- when those constructed after it are gone, and the thread has again no entry.
pub record Guarded (W : Type 0) : Type 0 where
  pub ports : PortMap
  pub world : W
  pub held : ℕ → ℕ

abbrev at : (ℕ → ℕ) → ℕ → ℕ → ℕ → ℕ
at held t n u = if t == u then n else held u

-- The entry of a thread with `n` such guards.
abbrev pub Entry : ℕ → Option AmsClientPortEntry → Type 0
Entry zero none = Unit {0}
Entry zero (some e) = ⊥
Entry (suc n) none = ⊥
Entry (suc n) (some e) = (is_invalid_port_number e.port ≡ false) × (e.live_count ≡ pos (suc n))

pub record IsCounted {W : Type 0} (s : Guarded W) : Type 0 where
  pub entries : (t : ℕ) → Entry (s.held t) (find t s.ports)

module _ {W : Type 0} (api : PortApi W) where
  open api use {ads_port_open_ex, ads_port_close_ex}

  pub step : Guarded W → GuardEvent → Guarded W
  step s (construct t) =
      let (p, m, w) = add_ads_client_port api t s.ports s.world in
      record {
        ports = m;
        world = w;
        held = if is_invalid_port_number p then s.held else at s.held t (suc (s.held t));
      }
  step s (destroy t) =
      let (r, m, w) = del_ads_client_port api t s.ports s.world in
      record { ports = m; world = w; held = at s.held t (s.held t - 1) }

  pub run : Guarded W → List GuardEvent → Guarded W
  run s [] = s
  run s (e ∷ es) = run (step s e) es

  -- What a run of the guards keeps.
  pub record IsGuarded (Open : ℤ → W → Type 0) (s : Guarded W) : Type 0 where
    pub counted : IsCounted s
    pub owned : IsOwned api Open s.ports s.world

  opened :
      (s : Guarded W) (t u : ℕ) (p : ℤ) (w : W)
      → IsCounted s
      → find t s.ports ≡ none
      → let (q, m, w') = open_for api t s.ports (p, w) in
        Entry
          ((if is_invalid_port_number q then s.held else at s.held t (suc (s.held t))) u)
          (find u m)
  unfolding open_for find insert
  opened s t u p w c h = ground (arith, c.entries u, c.entries t)

  construct-IsCounted : (s : Guarded W) (t : ℕ) → IsCounted s → IsCounted (step s (construct t))
  unfolding step
  construct-IsCounted s t c = record {
    entries = λ u. elim (Option-cases (find t s.ports)) [
      | inl h ↦
          rw (add-absent api t s.ports s.world h)
            (opened s t u (ads_port_open_ex s.world).0 (ads_port_open_ex s.world).1 c h)
      | inr (e, h) ↦
          rw (add-held api t s.ports s.world e h, find-update t u _ e s.ports h)
            (ground (arith, c.entries u, c.entries t, h))
    ];
  }

  module _ {Open : ℤ → W → Type 0} (contract : PortContract api Open) where
    construct-IsOwned :
        (s : Guarded W) (t : ℕ)
        → IsOwned api Open s.ports s.world
        → IsOwned api Open (step s (construct t)).ports (step s (construct t)).world
    unfolding step open_for
    construct-IsOwned s t o = elim (Option-cases (find t s.ports)) [
      | inl h ↦
          rw (add-absent api t s.ports s.world h)
            (elim (Bool-cases (is_invalid_port_number (ads_port_open_ex s.world).0)) [
              | inl bad ↦ rw bad (record {
                is_open = λ u f at. contract.open_kept f.port s.world (o.is_open u f at);
                distinct = o.distinct;
              })
              | inr valid ↦ rw valid (insert-IsOwned api contract t s.ports s.world valid o)
            ])
      | inr (e, h) ↦
          rw (add-held api t s.ports s.world e h)
            (update-IsOwned api contract t _ e s.ports s.world h o)
    ]

    released :
        (s : Guarded W) (t u : ℕ) (e : AmsClientPortEntry)
        → IsGuarded Open s
        → find t s.ports ≡ some e
        → Entry (at s.held t (s.held t - 1) u) (
            find u
              (release_entry api t s.ports
                (record e { live_count = pred_ℤ e.live_count })
                s.world).1)
    unfolding release_entry
    released s t u e g h = ground (
      arith,
      g.counted.entries u,
      g.counted.entries t,
      contract.closes e.port s.world (g.owned.is_open t e h),
      find-erase t u s.ports,
      find-update t u (record e { live_count = pred_ℤ e.live_count }) e s.ports h,
    )

    released-IsOwned :
        (s : Guarded W) (t : ℕ) (e : AmsClientPortEntry)
        → IsOwned api Open s.ports s.world
        → find t s.ports ≡ some e
        → let r =
            release_entry api t s.ports (record e { live_count = pred_ℤ e.live_count }) s.world in
          IsOwned api Open r.1 r.2
    unfolding release_entry
    released-IsOwned s t e o h = elim (Bool-cases (is_positive (pred_ℤ e.live_count))) [
      | inl held ↦ rw held (update-IsOwned api contract t _ e s.ports s.world h o)
      | inr last ↦
          rw (last, contract.closes e.port s.world (o.is_open t e h))
            (erase-IsOwned api contract t e s.ports s.world h o)
    ]

    destroy-IsGuarded :
        (s : Guarded W) (t : ℕ) → IsGuarded Open s → IsGuarded Open (step s (destroy t))
    unfolding step
    destroy-IsGuarded s t g = elim (Option-cases (find t s.ports)) [
      | inl h ↦ record {
        counted = record {
          entries = λ u.
              rw (del-absent api t s.ports s.world h)
                (ground (arith, g.counted.entries u, g.counted.entries t, h));
        };
        owned = rw (del-absent api t s.ports s.world h) g.owned;
      }
      | inr (e, h) ↦ record {
        counted = record {
          entries = λ u. rw (del-held api t s.ports s.world e h) (released s t u e g h);
        };
        owned = rw (del-held api t s.ports s.world e h) (released-IsOwned s t e g.owned h);
      }
    ]

    run-IsGuarded :
        (es : List GuardEvent) (s : Guarded W) → IsGuarded Open s → IsGuarded Open (run s es)
    unfolding run
    run-IsGuarded [] s g = g
    run-IsGuarded (construct t ∷ es) s g = run-IsGuarded es (step s (construct t)) (record {
      counted = construct-IsCounted s t g.counted;
      owned = construct-IsOwned s t g.owned;
    })
    run-IsGuarded (destroy t ∷ es) s g =
        run-IsGuarded es (step s (destroy t)) (destroy-IsGuarded s t g)

  -- No thread has a port yet.
  abbrev pub idle : W → Guarded W
  idle w = record { ports = []; world = w; held = λ _. 0 }

  -- Where AdsLib's ports behave as documented: after any sequence of constructions of guards and
  -- destructions of scoped guards on any threads, from an empty map on and with any results of opening
  -- ports, a thread has an entry exactly when a live guard of it was given a port; the entry's live count
  -- is the number of those guards, its port number is valid, the port is open, and no other thread has it.
  pub run-idle-IsGuarded :
      {Open : ℤ → W → Type 0}
      → PortContract api Open
      → (es : List GuardEvent) (w : W) → IsGuarded Open (run (idle w) es)
  unfolding find
  run-idle-IsGuarded contract es w = run-IsGuarded contract es (idle w) (record {
    counted = record { entries = λ t. tt };
    owned = record {
      is_open = λ t e h. absurd (ground (arith, h));
      distinct = λ t u e f h h' same. absurd (ground (arith, h));
    };
  })
