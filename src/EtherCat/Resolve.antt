-- ===== src/EtherCat/Resolve.antt =====
-- adsApp/src/adsAsynPortDriver.cpp, resolveEthercatMasterAmsNetId: what it settles on.
use twincat_ads.Base.Int.{ℤ, pos, negsuc}
use twincat_ads.Ads.{AdsParamInfo, AdsApi}
use twincat_ads.DataType.{adst_uint16}
use twincat_ads.EtherCat.{
  EthercatDeviceState, init, pre_op, bootstrap, safe_op, op, state_code, is_code,
  adsigrp_ecat_slave_state, is_valid_ethercat_state_request, io_router, use_derived, use_discovered,
  use_none, is_ethercat_state_param, Master, derived, no_master, discovered, derived_id, le_number,
  complete_id, after_device_count, after_device_ids, after_net_id, resolve_ethercat_master,
  is_ethercat_state_param, check_ethercat_master_for_param, ads_target_net_id_for_param,
  io_device_state_index_group_base,
}
use native.Mathlib.Decide.{ℕ_discrete}
use twincat_ads.Base.{
  ℕ, ◌≡◌, refl, ◌≢◌, ◌⊎◌, inl, inr, ◌↔◌, true, false, ◌||◌, not, List, arith, ◌+◌, take, drop, ◌==◌,
  Bool-cases, Bool, ◌&&◌,
}

code-eq : (v : ℤ) (s : EthercatDeviceState) → is_code v s ≡ true → v ≡ pos (state_code s)
code-eq (pos n) s h = ground arith
code-eq (negsuc n) s h = cc

known_code :
    (v : ℤ)
    → (is_code v init
        || is_code v pre_op
        || is_code v bootstrap
        || is_code v safe_op
        || is_code v op)
      ≡ true
    → (s : EthercatDeviceState) × (v ≡ pos (state_code s))
known_code v h = elim (Bool-cases (is_code v init)) [
  | inl e ↦ (init, code-eq v init e)
  | inr a ↦ elim (Bool-cases (is_code v pre_op)) [
    | inl e ↦ (pre_op, code-eq v pre_op e)
    | inr b ↦ elim (Bool-cases (is_code v bootstrap)) [
      | inl e ↦ (bootstrap, code-eq v bootstrap e)
      | inr c ↦ elim (Bool-cases (is_code v safe_op)) [
        | inl e ↦ (safe_op, code-eq v safe_op e)
        | inr d ↦ (op, code-eq v op (ground arith))
      ]
    ]
  ]
]

valid_of_state :
    (group : ℕ) (s : EthercatDeviceState)
    → is_valid_ethercat_state_request group 2 adst_uint16 (pos (state_code s)) ≡ true
unfolding is_valid_ethercat_state_request
valid_of_state group init = ground arith
valid_of_state group pre_op = ground arith
valid_of_state group bootstrap = ground arith
valid_of_state group safe_op = ground arith
valid_of_state group op = ground arith

state_of_valid :
    (group size data_type : ℕ) (value : ℤ)
    → is_valid_ethercat_state_request group size data_type value ≡ true
    → group ≡ adsigrp_ecat_slave_state
    → (size ≡ 2)
      × (data_type ≡ adst_uint16)
      × ((s : EthercatDeviceState) × (value ≡ pos (state_code s)))
unfolding is_valid_ethercat_state_request
state_of_valid group size data_type value h g =
    (ground arith, ground arith, known_code value (ground arith))

other_group :
    (group size data_type : ℕ) (value : ℤ)
    → group ≢ adsigrp_ecat_slave_state
    → is_valid_ethercat_state_request group size data_type value ≡ true
unfolding is_valid_ethercat_state_request
other_group group size data_type value h = ground arith

-- A write to the EtherCAT slave state group is valid exactly if it is a two-byte unsigned number that is
-- the code of a device state; the check lets every other group pass.
pub is_valid_ethercat_state_request_iff :
    (group size data_type : ℕ) (value : ℤ)
    → (is_valid_ethercat_state_request group size data_type value ≡ true) ↔ (
        (group ≢ adsigrp_ecat_slave_state)
        ⊎ ((size ≡ 2)
            × (data_type ≡ adst_uint16)
            × ((s : EthercatDeviceState) × (value ≡ pos (state_code s)))))
is_valid_ethercat_state_request_iff group size data_type value = (
  λ h. elim (ℕ_discrete group adsigrp_ecat_slave_state) [
    | yes g ↦ inr (state_of_valid group size data_type value h g)
    | no n ↦ inl n
  ],
  elim [
    | inl n ↦ other_group group size data_type value n
    | inr (a, b, c) ↦ rw (a, b, c.1) (valid_of_state group c.0)
  ],
)

module _ {W : Type 0} (api : AdsApi W) (remote_net_id : List ℕ) (client : ℕ) where
  open api use {read_bytes}

  -- The replies to the requests, each in the world that the one before has left: the count of I/O
  -- devices, their ids, and the net id of the device whose id is the second word of these.
  abbrev pub count_reply : W → ℕ × List ℕ × ℕ × W
  count_reply w =
      read_bytes client (io_router api remote_net_id client) io_device_state_index_group_base 2 4 w

  abbrev pub ids_reply : W → ℕ × List ℕ × ℕ × W
  ids_reply w =
      let (_, _, _, w') = count_reply w in
      read_bytes client (io_router api remote_net_id client) io_device_state_index_group_base 1 4 w'

  abbrev pub net_id_reply : W → ℕ × List ℕ × ℕ × W
  net_id_reply w =
      let (_, ids, _, w') = ids_reply w in
      read_bytes client (io_router api remote_net_id client)
        (io_device_state_index_group_base + le_number (take 2 (drop 2 ids))) 5 6 w'

  -- A reply without an error that has `n` bytes.
  abbrev pub is_whole : ℕ → ℕ × List ℕ × ℕ × W → Bool
  is_whole n (status, bytes, bytes_read, w) = not (not (status == 0) || not (bytes_read == n))

  -- The PLC has said that it has one device, and reported the net id of that.
  abbrev pub is_reported : W → Bool
  is_reported w =
      is_whole 4 (count_reply w)
      && le_number (count_reply w).1 == 1
      && is_whole 4 (ids_reply w)
      && is_whole 6 (net_id_reply w)

  -- What a resolution in the world `w` leads to: by the replies, there is no master; or the PLC has
  -- reported its net id; or neither.
  pub data IsSettled (w : W) (m : Master) : Type 0 where
    absent :
        is_whole 4 (count_reply w) ≡ true
        → le_number (count_reply w).1 ≡ 0
        → m.source ≡ no_master
        → m.available ≡ false
        → IsSettled w m
    fallback :
        is_reported w ≡ false
        → m.source ≡ derived
        → m.available ≡ true
        → m.net_id ≡ derived_id remote_net_id
        → IsSettled w m
    found :
        is_reported w ≡ true
        → m.source ≡ discovered
        → m.available ≡ true
        → m.net_id ≡ complete_id remote_net_id (net_id_reply w).1
        → IsSettled w m

  abbrev IsEnd : W → Master × W → Type 0
  IsEnd v (m, w) = (m.resolved ≡ true) × IsSettled v m

  net_id-IsEnd :
      (w : W)
      → is_whole 4 (count_reply w) ≡ true
      → (le_number (count_reply w).1 == 1) ≡ true
      → is_whole 4 (ids_reply w) ≡ true
      → IsEnd w (after_net_id api remote_net_id client (net_id_reply w))
  unfolding after_net_id use_derived use_discovered
  net_id-IsEnd w whole one ids =
      let r = net_id_reply w in
      elim (Bool-cases (not (r.0 == 0) || not (r.2 == 6))) [
        | inl e ↦ rw e (refl, fallback (ground (arith, e)) refl refl refl)
        | inr e ↦ rw e (refl, found (ground (arith, e, whole, one, ids)) refl refl refl)
      ]

  device_ids-IsEnd :
      (w : W)
      → is_whole 4 (count_reply w) ≡ true
      → (le_number (count_reply w).1 == 1) ≡ true
      → IsEnd w (after_device_ids api remote_net_id client (ids_reply w))
  unfolding after_device_ids use_derived
  device_ids-IsEnd w whole one =
      let r = ids_reply w in
      elim (Bool-cases (not (r.0 == 0) || not (r.2 == 4))) [
        | inl e ↦ rw e (refl, fallback (ground (arith, e)) refl refl refl)
        | inr e ↦ rw e (net_id-IsEnd w whole one (ground (arith, e)))
      ]

  device_count-IsEnd :
      (w : W) → IsEnd w (after_device_count api remote_net_id client (count_reply w))
  unfolding after_device_count use_derived use_none
  device_count-IsEnd w =
      let r = count_reply w in
      elim (Bool-cases (not (r.0 == 0) || not (r.2 == 4))) [
        | inl e ↦ rw e (refl, fallback (ground (arith, e)) refl refl refl)
        | inr e ↦ rw e (elim (Bool-cases (le_number r.1 == 0)) [
          | inl z ↦ rw z (refl, absent (ground (arith, e)) (ground (arith, z)) refl refl)
          | inr nz ↦ rw nz (elim (Bool-cases (le_number r.1 == 1)) [
            | inl one ↦ rw one (device_ids-IsEnd w (ground (arith, e)) one)
            | inr more ↦ rw more (refl, fallback (ground (arith, more)) refl refl refl)
          ])
        ])
      ]

  resolve_first :
      (m : Master) (w : W)
      → m.resolved ≡ false
      → resolve_ethercat_master api remote_net_id client m w ≡ (
          let (n, w') = after_device_count api remote_net_id client (count_reply w) in
          (n.available, n, w'))
  unfolding resolve_ethercat_master
  resolve_first m w h = simp h

  resolve_again :
      (m : Master) (w : W)
      → m.resolved ≡ true
      → resolve_ethercat_master api remote_net_id client m w ≡ (m.available, m, w)
  unfolding resolve_ethercat_master
  resolve_again m w h = simp h

  pub resolve_ethercat_master-IsSettled :
      (m : Master) (w v : W)
      → m.resolved ≡ false
      → let (answer, n, w') = resolve_ethercat_master api remote_net_id client m w in
        (n.resolved ≡ true)
        × IsSettled w n
        × (answer ≡ n.available)
        × (resolve_ethercat_master api remote_net_id client n v ≡ (answer, n, v))
  resolve_ethercat_master-IsSettled m w v h =
      let (n, w') = after_device_count api remote_net_id client (count_reply w) in
      let e = device_count-IsEnd w in
      rw (resolve_first m w h) (e.0, e.1, refl, resolve_again n v e.0)

  -- A parameter outside of the EtherCAT slave state group passes the check with no request, and is
  -- addressed to the remote net id. One inside passes exactly if, after a resolution where it was still
  -- missing, a master is resolved and available; it is then addressed to that master.
  pub check_ethercat_master_cases :
      (p : AdsParamInfo) (m : Master) (w : W)
      → let (passes, n, w') = check_ethercat_master_for_param api remote_net_id client p m w in
        ((is_ethercat_state_param p ≡ false)
          × (passes ≡ true)
          × (n ≡ m)
          × (w' ≡ w)
          × (ads_target_net_id_for_param api remote_net_id client p n ≡ remote_net_id))
        ⊎ ((is_ethercat_state_param p ≡ true)
            × (n.resolved ≡ true)
            × (passes ≡ n.available)
            × (ads_target_net_id_for_param api remote_net_id client p n ≡ n.net_id)
            × ((m.resolved ≡ true) → (n ≡ m) × (w' ≡ w)))
  unfolding check_ethercat_master_for_param ads_target_net_id_for_param
  check_ethercat_master_cases p m w = elim (Bool-cases (is_ethercat_state_param p)) [
    | inl e ↦ elim (Bool-cases m.resolved) [
      | inl r ↦ ground (arith, e, r)
      | inr r ↦ let c = resolve_ethercat_master-IsSettled m w w r in ground (arith, e, r, c.0, c.2)
    ]
    | inr e ↦ ground (arith, e)
  ]
