-- ===== src/EtherCat.antt =====
-- EtherCAT state access. adsApp/src/adsEthercatState.h: adsIsValidEthercatStateRequest.
-- adsApp/src/adsAsynPortDriver.cpp: resolveEthercatMasterAmsNetId, ethercatMasterIsResolved,
-- ethercatMasterIsAvailable, checkEthercatMasterForParam, adsTargetNetIdForParam. A net id is the
-- list of its bytes. The mutex makes each function one step, so the atomic flag is a field like the
-- others.
pub mod Resolve
use mathlib.Core.Option.{get_or}
use twincat_ads.Base.Int.{ℤ, pos}
use twincat_ads.Ads.{AmsAddr, AdsParamInfo, AdsApi}
use twincat_ads.DataType.{adst_uint16}
use twincat_ads.Base.{
  ℕ, ◌+◌, ◌*◌, Bool, true, false, ◌&&◌, ◌||◌, not, List, [], ◌∷◌, ◌++◌, Option, none, some, ◌==◌,
  if◌then◌else◌, length, take, drop, set, get_elem?,
}

abbrev pub adsigrp_ecat_slave_state : ℕ
adsigrp_ecat_slave_state = 9

abbrev pub ecat_r0_io_ams_port : ℕ
ecat_r0_io_ams_port = 300

abbrev pub io_device_state_index_group_base : ℕ
io_device_state_index_group_base = 0x5000

-- AdsEthercatDeviceState
pub data EthercatDeviceState : Type 0 where
  init pre_op bootstrap safe_op op : EthercatDeviceState

abbrev pub state_code : EthercatDeviceState → ℕ
state_code init = 1
state_code pre_op = 2
state_code bootstrap = 3
state_code safe_op = 4
state_code op = 8

abbrev pub is_code : ℤ → EthercatDeviceState → Bool
is_code (pos n) s = n == state_code s
is_code _ s = false

unfoldable pub is_valid_ethercat_state_request : ℕ → ℕ → ℕ → ℤ → Bool
is_valid_ethercat_state_request group size data_type value =
    if not (group == adsigrp_ecat_slave_state)
    then true
    else if not (size == 2) || not (data_type == adst_uint16)
    then false
    else is_code value init
      || is_code value pre_op
      || is_code value bootstrap
      || is_code value safe_op
      || is_code value op

pub data Source : Type 0 where
  unresolved derived no_master discovered configured : Source

pub record Master : Type 0 where
  pub net_id : List ℕ
  pub resolved : Bool
  pub available : Bool
  pub source : Source

-- The number in `n` little-endian bytes of a reply.
unfoldable pub le_number : List ℕ → ℕ
le_number [] = 0
le_number (b ∷ bs) = b + 256 * le_number bs

unfoldable pub all_zero : List ℕ → Bool
all_zero [] = true
all_zero (b ∷ bs) = let rest = all_zero bs in if b == 0 then rest else false

-- The remote net id with its last two bytes replaced.
unfoldable pub derived_id : List ℕ → List ℕ
derived_id remote = set (set remote 4 2) 5 1

unfoldable pub use_derived : List ℕ → Master
unfolding derived_id
use_derived remote = record {
  net_id = derived_id remote;
  resolved = true;
  available = true;
  source = derived;
}

unfoldable pub use_none : Master
use_none = record {
  net_id = 0 ∷ 0 ∷ 0 ∷ 0 ∷ 0 ∷ 0 ∷ [];
  resolved = true;
  available = false;
  source = no_master;
}

unfoldable pub complete_id : List ℕ → List ℕ → List ℕ
unfolding all_zero
complete_id remote raw = if all_zero (take 4 raw) then take 4 remote ++ drop 4 raw else raw

unfoldable pub use_discovered : List ℕ → List ℕ → Master
unfolding complete_id
use_discovered remote raw = record {
  net_id = complete_id remote raw;
  resolved = true;
  available = true;
  source = discovered;
}

abbrev pub is_ethercat_state_param : AdsParamInfo → Bool
is_ethercat_state_param p = p.is_adr_command && p.plc_abs_adr_group == adsigrp_ecat_slave_state

abbrev pub ethercat_master_is_available : Master → Bool
ethercat_master_is_available m = m.resolved && m.available

module _ {W : Type 0} (api : AdsApi W) (remote_net_id : List ℕ) (client : ℕ) where
  open api use {read_bytes}

  abbrev pub io_router : AmsAddr
  io_router = record { net_id = remote_net_id; port = ecat_r0_io_ams_port }

  unfoldable pub after_net_id : ℕ × List ℕ × ℕ × W → Master × W
  after_net_id (status, raw, bytes_read, w) = (
    if not (status == 0) || not (bytes_read == 6)
        then use_derived remote_net_id
        else use_discovered remote_net_id raw,
    w,
  )

  -- The second word of the reply is the id of the only device.
  unfoldable pub after_device_ids : ℕ × List ℕ × ℕ × W → Master × W
  after_device_ids (status, ids, bytes_read, w) =
      if not (status == 0) || not (bytes_read == 4)
      then (use_derived remote_net_id, w)
      else after_net_id (
          read_bytes client io_router
            (io_device_state_index_group_base + le_number (take 2 (drop 2 ids))) 5 6 w)

  unfoldable pub after_device_count : ℕ × List ℕ × ℕ × W → Master × W
  after_device_count (status, count, bytes_read, w) =
      if not (status == 0) || not (bytes_read == 4)
      then (use_derived remote_net_id, w)
      else if le_number count == 0
      then (use_none, w)
      else if not (le_number count == 1)
      then (use_derived remote_net_id, w)
      else after_device_ids (read_bytes client io_router io_device_state_index_group_base 1 4 w)

  -- The answer is `available` of the new state.
  unfoldable pub resolve_ethercat_master : Master → W → Bool × Master × W
  resolve_ethercat_master m w =
      let (m', w') =
        if m.resolved
        then (m, w)
        else after_device_count
            (read_bytes client io_router io_device_state_index_group_base 2 4 w) in
      (m'.available, m', w')

  unfoldable pub check_ethercat_master_for_param : AdsParamInfo → Master → W → Bool × Master × W
  check_ethercat_master_for_param p m w =
      let (_, m', w') = resolve_ethercat_master m w in
      if not (is_ethercat_state_param p)
      then (true, m, w)
      else if m.resolved
      then (ethercat_master_is_available m, m, w)
      else (ethercat_master_is_available m', m', w')

  unfoldable pub ads_target_net_id_for_param : AdsParamInfo → Master → List ℕ
  ads_target_net_id_for_param p m = if is_ethercat_state_param p then m.net_id else remote_net_id
