-- ===== src/Transfer/Write/Double.antt =====
-- adsApp/src/adsAsynPortDriver.cpp: writeFloat64, a write of a double from EPICS to the PLC. The casts
-- of a double are parameters.
use twincat_ads.Ads.{AdsParamInfo, AdsApi}
use twincat_ads.DataType.{
  adst_int8, adst_int16, adst_int32, adst_int64, adst_uint8, adst_uint16, adst_uint32, adst_uint64,
  adst_real32, adst_real64, adst_bit,
}
use twincat_ads.Asyn.{AsynApi, AlarmCodes}
use twincat_ads.EtherCat.{Master}
use twincat_ads.Transfer.Decode.{Floats}
use twincat_ads.Transfer.Write.{
  le_bytes, Write, is_ams_state, ads_write_state, state_written, write_encoded, at_param,
}
use twincat_ads.Base.{ℕ, Bool, List, Option, none, some, AsynStatus, ◌==◌, ◌%◌, ◌^◌, if◌then◌else◌}

module _ {F : Type 0} (fl : Floats F) where
  open fl use {int_bits, bits32, bits64, is_above_zero}

  unfoldable pub encode_float64 : ℕ → F → Option (List ℕ)
  unfolding le_bytes
  encode_float64 type value =
      if type == adst_int8
      then some (le_bytes 1 (int_bits type value))
      else if type == adst_int16
      then some (le_bytes 2 (int_bits type value))
      else if type == adst_int32
      then some (le_bytes 4 (int_bits type value))
      else if type == adst_int64
      then some (le_bytes 8 (int_bits type value))
      else if type == adst_uint8
      then some (le_bytes 1 (int_bits type value))
      else if type == adst_uint16
      then some (le_bytes 2 (int_bits type value))
      else if type == adst_uint32
      then some (le_bytes 4 (int_bits type value))
      else if type == adst_uint64
      then some (le_bytes 8 (int_bits type value))
      else if type == adst_real32
      then some (le_bytes 4 (bits32 value))
      else if type == adst_real64
      then some (le_bytes 8 (bits64 value))
      else if type == adst_bit
      then some (le_bytes 1 (if is_above_zero value then 1 else 0))
      else none

module _ {F W : Type 0} (asyn : AsynApi F W) (alarms : AlarmCodes) (api : AdsApi W)
    (remote_net_id : List ℕ) (client : ℕ) where
  -- No check of an EtherCAT state request here. The state is the cast of the double to uint16_t.
  unfoldable pub write_float64_param : Floats F → Bool → F → AdsParamInfo → Master → W → Write W
  write_float64_param fl stop_threads value p m w =
      if is_ams_state p.data_source
      then state_written asyn alarms api remote_net_id client p m (
          ads_write_state asyn alarms api remote_net_id client p.ams_port
            (fl.int_bits adst_uint16 value % 2 ^ 16) w)
      else write_encoded asyn alarms api remote_net_id client stop_threads
          (λ i w'. asyn.base_write_float64 i value w') 8 p m w
          (encode_float64 fl p.plc_data_type value)

  unfoldable pub write_float64 :
      Floats F
      → Bool
      → F
      → ℕ
      → List AdsParamInfo
      → Master
      → W
      → AsynStatus × List AdsParamInfo × Master × W
  write_float64 fl stop_threads value i params m w =
      at_param asyn alarms api remote_net_id client
        (λ p. write_float64_param fl stop_threads value p m w) i params m w
