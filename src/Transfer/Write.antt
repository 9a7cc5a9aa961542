-- ===== src/Transfer/Write.antt =====
-- adsApp/src/adsAsynPortDriver.cpp: writeInt32, writeInt64 and adsWriteState, a write from EPICS to
-- the PLC. `stop_threads` and the ADS client port are arguments; the alarm of the asynUser, which is
-- set for a bad index, is left out.
pub mod RoundTrip
pub mod Alarm
pub mod Double
use twincat_ads.Base.Int.{ℤ, pos, negsuc, is_positive}
use twincat_ads.Ads.{AdsParamInfo, AdsDataSource, plc, ams_state, AdsApi}
use twincat_ads.DataType.{
  adst_int8, adst_int16, adst_int32, adst_int64, adst_uint8, adst_uint16, adst_uint32, adst_uint64,
  adst_real32, adst_real64, adst_bit,
}
use twincat_ads.Asyn.{AsynApi, AlarmCodes, set_alarm_param}
use twincat_ads.Notify.{addr}
use twincat_ads.EtherCat.{Master, is_valid_ethercat_state_request}
use twincat_ads.Transfer.{ads_write_param}
use twincat_ads.Transfer.Decode.{Floats, pattern_of}
use twincat_ads.Base.{
  ℕ, zero, suc, ◌/◌, ◌%◌, ◌^◌, Bool, true, false, List, [], ◌∷◌, Option, none, some, AsynStatus,
  asyn_success, asyn_error, failed, ltb, ◌==◌, if◌then◌else◌, length, get_elem?, set, not, ◌&&◌,
  ◌||◌,
}

-- The `n` bytes of a number, the lowest first.
unfoldable pub le_bytes : ℕ → ℕ → List ℕ
le_bytes zero x = []
le_bytes (suc n) x = x % 256 ∷ le_bytes n (x / 256)

module _ {F : Type 0} (fl : Floats F) where
  open fl use {bits32_of_int, bits64_of_int}

  -- The first maxBytesToWrite bytes of `buffer`; `none` for a type that is not compatible.
  unfoldable pub encode_int32 : ℕ → ℤ → Option (List ℕ)
  unfolding le_bytes
  encode_int32 type value =
      if type == adst_int8
      then some (le_bytes 1 (pattern_of (2 ^ 8) value))
      else if type == adst_int16
      then some (le_bytes 2 (pattern_of (2 ^ 16) value))
      else if type == adst_int32
      then some (le_bytes 4 (pattern_of (2 ^ 32) value))
      else if type == adst_uint8
      then some (le_bytes 1 (pattern_of (2 ^ 8) value))
      else if type == adst_uint16
      then some (le_bytes 2 (pattern_of (2 ^ 16) value))
      else if type == adst_uint32
      then some (le_bytes 4 (pattern_of (2 ^ 32) value))
      else if type == adst_real32
      then some (le_bytes 4 (bits32_of_int value))
      else if type == adst_real64
      then some (le_bytes 8 (bits64_of_int value))
      else if type == adst_bit
      then some (le_bytes 1 (if is_positive value then 1 else 0))
      else none

unfoldable pub encode_int64 : ℕ → ℤ → Option (List ℕ)
unfolding le_bytes
encode_int64 type value =
    if type == adst_int64
    then some (le_bytes 8 (pattern_of (2 ^ 64) value))
    else if type == adst_uint64
    then some (le_bytes 8 (pattern_of (2 ^ 64) value))
    else none

-- The status, the parameter, and the state of the EtherCAT master and of the world after a write.
abbrev pub Write : Type 0 → Type 0
Write W = AsynStatus × AdsParamInfo × Master × W

unfoldable pub warned : ℕ → ℕ → AdsParamInfo → AdsParamInfo
warned value_size max_bytes p =
    if ltb max_bytes value_size || ltb p.plc_size value_size
    then record p { plc_data_type_warn = true }
    else p

abbrev pub is_ams_state : AdsDataSource → Bool
is_ams_state ams_state = true
is_ams_state plc = false

module _ {F W : Type 0} (asyn : AsynApi F W) (alarms : AlarmCodes) (api : AdsApi W)
    (remote_net_id : List ℕ) (client : ℕ) where
  open asyn use {base_write_int32, base_write_int64}
  open api use {write_control}
  open alarms use {no_alarm, write_alarm, invalid_alarm}

  unfoldable pub ads_write_state : ℕ → ℕ → W → AsynStatus × W
  ads_write_state ams_port ads_state w =
      let (status, w') =
        write_control client (addr api remote_net_id client ams_port) ads_state 0 w in
      (if status == 0 then asyn_success else asyn_error, w')

  -- `return setAlarmParam(...)`.
  unfoldable pub return_alarm : ℕ → ℕ → AdsParamInfo → Master → W → Write W
  return_alarm alarm severity p m w =
      let (st, p', w') = set_alarm_param asyn alarm severity p w in (st, p', m, w')

  -- `setAlarmParam(...); return asynError;`
  unfoldable pub fail_with_alarm : AdsParamInfo → Master → W → Write W
  fail_with_alarm p m w =
      let (_, p', w') = set_alarm_param asyn write_alarm invalid_alarm p w in
      (asyn_error, p', m, w')

  -- A write of the ADS state, a uint16_t.
  unfoldable pub state_written : AdsParamInfo → Master → AsynStatus × W → Write W
  state_written p m (status, w) =
      if failed status
      then return_alarm write_alarm invalid_alarm p m w
      else if p.alarm_status == write_alarm
      then return_alarm no_alarm no_alarm p m w
      else (asyn_success, p, m, w)

  unfoldable pub finish_write : (ℕ → W → AsynStatus × W) → Write W → Write W
  finish_write base (status, p, m, w) =
      if failed status
      then fail_with_alarm p m w
      else let (_, p', w') =
          if p.alarm_status == write_alarm
          then set_alarm_param asyn no_alarm no_alarm p w
          else (asyn_success, p, w) in
        let (st, w'') = base p.param_index w' in (st, p', m, w'')

  unfoldable pub write_buffer :
      Bool → (ℕ → W → AsynStatus × W) → AdsParamInfo → List ℕ → Master → W → Write W
  unfolding finish_write fail_with_alarm
  write_buffer stop_threads base p buffer m w =
      if not (length buffer == p.plc_size) || length buffer == 0
      then fail_with_alarm p m w
      else finish_write base (ads_write_param api remote_net_id client stop_threads p buffer m w)

  unfoldable pub write_encoded :
      Bool → (ℕ → W → AsynStatus × W) → ℕ → AdsParamInfo → Master → W → Option (List ℕ) → Write W
  unfolding write_buffer
  write_encoded stop_threads base value_size p m w none = (asyn_error, p, m, w)
  write_encoded stop_threads base value_size p m w (some buffer) =
      write_buffer stop_threads base (warned value_size (length buffer) p) buffer m w

  unfoldable pub write_int32_param : Floats F → Bool → ℤ → AdsParamInfo → Master → W → Write W
  write_int32_param fl stop_threads value p m w =
      if p.is_adr_command
        && not
            (is_valid_ethercat_state_request p.plc_abs_adr_group p.plc_size p.plc_data_type value)
      then return_alarm write_alarm invalid_alarm p m w
      else if is_ams_state p.data_source
      then state_written p m (ads_write_state p.ams_port (pattern_of (2 ^ 16) value) w)
      else write_encoded stop_threads (λ i w'. base_write_int32 i value w') 4 p m w
          (encode_int32 fl p.plc_data_type value)

  -- No check of an EtherCAT state request here.
  unfoldable pub write_int64_param : Bool → ℤ → AdsParamInfo → Master → W → Write W
  write_int64_param stop_threads value p m w =
      if is_ams_state p.data_source
      then state_written p m (ads_write_state p.ams_port (pattern_of (2 ^ 16) value) w)
      else write_encoded stop_threads (λ i w'. base_write_int64 i value w') 8 p m w
          (encode_int64 p.plc_data_type value)

  -- The parameter that the asynUser names.
  unfoldable pub at_param :
      (AdsParamInfo → Write W)
      → ℕ
      → List AdsParamInfo
      → Master
      → W
      → AsynStatus × List AdsParamInfo × Master × W
  at_param write i params m w = elim (get_elem? params i) [
    | none ↦ (asyn_error, params, m, w)
    | some p ↦ let (st, p', m', w') = write p in (st, set params i p', m', w')
  ]

  unfoldable pub write_int32 :
      Floats F
      → Bool
      → ℤ
      → ℕ
      → List AdsParamInfo
      → Master
      → W
      → AsynStatus × List AdsParamInfo × Master × W
  write_int32 fl stop_threads value i params m w =
      at_param (λ p. write_int32_param fl stop_threads value p m w) i params m w

  unfoldable pub write_int64 :
      Bool → ℤ → ℕ → List AdsParamInfo → Master → W → AsynStatus × List AdsParamInfo × Master × W
  write_int64 stop_threads value i params m w =
      at_param (λ p. write_int64_param stop_threads value p m w) i params m w
