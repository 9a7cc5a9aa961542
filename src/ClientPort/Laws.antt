-- ===== src/ClientPort/Laws.antt =====
-- What the functions of the client port map do on each branch, entry by entry.
use twincat_ads.Base.Int.{suc_ℤ, pred_ℤ}
use twincat_ads.Base.Map.{find, update, find-update_ne, find-update_self}
use twincat_ads.Base.{
  ℕ, ◌≡◌, ◌⊎◌, inl, inr, none, some, asyn_success, ◌==◌, if◌then◌else◌, Option-cases, Bool-cases,
  ==_iff,
}
use twincat_ads.ClientPort.{
  AmsClientPortEntry, PortMap, PortApi, port_at, get_ads_client_port, open_for, add_ads_client_port,
  release_entry, del_ads_client_port,
}

-- What a search finds after `update`.
pub find-update :
    (k j : ℕ) (v w : AmsClientPortEntry) (m : PortMap)
    → find k m ≡ some w
    → find j (update k v m) ≡ (if k == j then some v else find j m)
find-update k j v w m h = elim (Bool-cases (k == j)) [
  | inl e ↦ rw (e, ← (==_iff k j).0 e) (find-update_self k v w m h)
  | inr e ↦ rw e (find-update_ne k j v m e)
]

-- The lookup by thread id as it is written: for a thread that has an entry it gives the port of the
-- default entry, or throws if there is none; for any other thread it throws.
pub get_ads_client_port_cases :
    (t : ℕ) (m : PortMap)
    → ((find t m ≡ none) × (get_ads_client_port t m ≡ none))
      ⊎ ((e : AmsClientPortEntry) × (find t m ≡ some e) × (get_ads_client_port t m ≡ port_at 0 m))
unfolding get_ads_client_port
get_ads_client_port_cases t m = elim (Option-cases (find t m)) [
  | inl h ↦ inl (h, rw (h, get_ads_client_port) (rw (h, port_at)))
  | inr (e, h) ↦ inr (e, h, rw (h, get_ads_client_port))
]

module _ {W : Type 0} (api : PortApi W) where
  open api use {ads_port_open_ex, ads_port_close_ex}

  -- A further guard of a thread counts up and opens nothing.
  pub add-held :
      (t : ℕ) (m : PortMap) (w : W) (e : AmsClientPortEntry)
      → find t m ≡ some e
      → add_ads_client_port api t m w
        ≡ (e.port, update t (record e { live_count = suc_ℤ e.live_count }) m, w)
  unfolding add_ads_client_port
  add-held t m w e h = rw (h, add_ads_client_port)

  pub add-absent :
      (t : ℕ) (m : PortMap) (w : W)
      → find t m ≡ none
      → add_ads_client_port api t m w ≡ open_for api t m (ads_port_open_ex w)
  unfolding add_ads_client_port
  add-absent t m w h = rw (h, add_ads_client_port)

  pub del-absent :
      (t : ℕ) (m : PortMap) (w : W)
      → find t m ≡ none
      → del_ads_client_port api t m w ≡ (asyn_success, m, w)
  unfolding del_ads_client_port
  del-absent t m w h = rw (h, del_ads_client_port)

  pub del-held :
      (t : ℕ) (m : PortMap) (w : W) (e : AmsClientPortEntry)
      → find t m ≡ some e
      → del_ads_client_port api t m w
        ≡ release_entry api t m (record e { live_count = pred_ℤ e.live_count }) w
  unfolding del_ads_client_port
  del-held t m w e h = rw (h, del_ads_client_port)
