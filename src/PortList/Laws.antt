-- ===== src/PortList/Laws.antt =====
-- adsApp/src/adsAsynPortDriver.cpp, addNewAmsPortToList: what adding an ams port does to the lookups
-- in the list of ports.
use twincat_ads.Ads.{AmsPortInfo}
use twincat_ads.PortList.{
  get_ams_port_object, is_known, new_port, add_new_ams_port_to_list, is_callback_allowed,
}
use twincat_ads.Base.{
  ℕ, ◌≡◌, ◌≢◌, refl, ◌⊎◌, inl, inr, true, false, List, [], ◌∷◌, ◌++◌, none, some, asyn_success,
  ◌==◌, Bool-cases, arith,
}

known-get :
    (p : ℕ) (ports : List AmsPortInfo)
    → is_known p ports ≡ true
    → (e : AmsPortInfo) × (get_ams_port_object p ports ≡ some e) × (e.ams_port ≡ p)
unfolding get_ams_port_object is_known
known-get p [] h = absurd (ground (arith, h))
known-get p (x ∷ xs) h = elim (Bool-cases (x.ams_port == p)) [
  | inl e ↦ (x, rw e refl, ground (arith, e))
  | inr e ↦
      let tail : is_known p xs ≡ true = ground (arith, h, e) in
      let (y, found, port) = known-get p xs tail in (y, rw e found, port)
]

unknown-get :
    (p : ℕ) (ports : List AmsPortInfo)
    → is_known p ports ≡ false
    → get_ams_port_object p ports ≡ none
unfolding get_ams_port_object is_known
unknown-get p [] h = refl
unknown-get p (x ∷ xs) h = ground (arith, h, unknown-get p xs)

appended-get :
    (p : ℕ) (ports : List AmsPortInfo) (n : AmsPortInfo)
    → is_known p ports ≡ false
    → n.ams_port ≡ p
    → n.params_ok ≡ false
    → (get_ams_port_object p (ports ++ n ∷ []) ≡ some n)
      × (is_callback_allowed p (ports ++ n ∷ []) ≡ false)
unfolding get_ams_port_object is_known is_callback_allowed
appended-get p [] n h e f = ground (arith, e, f)
appended-get p (x ∷ xs) n h e f = ground (arith, h, e, f, appended-get p xs n)

other-get :
    (p q : ℕ) (ports : List AmsPortInfo) (n : AmsPortInfo)
    → n.ams_port ≡ p
    → q ≢ p
    → (get_ams_port_object q (ports ++ n ∷ []) ≡ get_ams_port_object q ports)
      × (is_callback_allowed q (ports ++ n ∷ []) ≡ is_callback_allowed q ports)
unfolding get_ams_port_object is_callback_allowed
other-get p q [] n e h = ground (arith, e, h)
other-get p q (x ∷ xs) n e h = ground (arith, other-get p q xs n e h)

-- Adding a port always succeeds. A port that is in the list is found as an entry for it, and nothing
-- changes; one that is not gets a new entry, for which callbacks are not allowed. What is found for any
-- other port, and whether callbacks are allowed for it, stays the same.
pub add_new_ams_port_cases :
    (max_states p : ℕ) (ports : List AmsPortInfo)
    → let r = add_new_ams_port_to_list max_states p ports in
      (r.0 ≡ asyn_success)
      × (((r.1 ≡ ports)
            × ((e : AmsPortInfo) × (get_ams_port_object p r.1 ≡ some e) × (e.ams_port ≡ p)))
          ⊎ ((get_ams_port_object p ports ≡ none)
              × (get_ams_port_object p r.1 ≡ some (new_port max_states p))
              × (is_callback_allowed p r.1 ≡ false)))
      × ((q : ℕ)
          → q ≢ p
          → (get_ams_port_object q r.1 ≡ get_ams_port_object q ports)
            × (is_callback_allowed q r.1 ≡ is_callback_allowed q ports))
unfolding add_new_ams_port_to_list
add_new_ams_port_cases max_states p ports = elim (Bool-cases (is_known p ports)) [
  | inl known ↦ rw known (refl, inl (refl, known-get p ports known), λ q h. (refl, refl))
  | inr fresh ↦
      let n = new_port max_states p in
      let a = appended-get p ports n fresh refl refl in
      rw fresh
        (refl, inr (unknown-get p ports fresh, a.0, a.1), λ q h. other-get p q ports n refl h)
]
