-- ===== src/Arrays.antt =====
-- adsApp/src/adsAsynPortDriver.cpp: adsGenericArrayRead, adsGenericArrayWrite, and the reads and writes
-- of arrays by element type. Numbers of bytes are `size_t`. EPICS' buffer is its bytes, as many as the
-- caller owns; `none` is the null pointer. The ADS client port is an argument.
pub mod Fire
pub mod Laws
pub mod Bounds
use twincat_ads.TimeStamp.{EpicsTimeStamp}
use twincat_ads.Ads.{AdsParamInfo, AdsApi}
use twincat_ads.DataType.{
  adst_int8, adst_int16, adst_int32, adst_int64, adst_uint64, adst_real32, adst_real64, adst_string,
  adst_bit,
}
use twincat_ads.Asyn.{AsynApi, AlarmCodes, set_alarm_param}
use twincat_ads.EtherCat.{Master}
use twincat_ads.Transfer.{ads_write_param}
use twincat_ads.Transfer.Value.{overlay}
use twincat_ads.Transfer.Write.{Write, fail_with_alarm, at_param}
use twincat_ads.Base.{
  ℕ, ◌*◌, ◌/◌, ◌%◌, ◌^◌, Bool, true, false, List, [], Option, none, some, AsynStatus, asyn_success,
  asyn_error, failed, ltb, ◌==◌, if◌then◌else◌, take, not, ◌&&◌, ◌||◌, get_elem?, set,
}

-- What a read of an array gives: the bytes put into EPICS' buffer, and the time of the asynUser.
pub record ArrayReading : Type 0 where
  pub bytes : List ℕ
  -- nBytesRead of adsGenericArrayRead, `*nIn` of the functions that call it.
  pub n_in : ℕ
  pub timestamp : EpicsTimeStamp

abbrev pub size_t : ℕ → ℕ
size_t n = n % 2 ^ 64

unfoldable pub is_allowed : ℕ → AdsParamInfo → Bool
is_allowed allowed_type p =
    p.plc_data_type == allowed_type || p.plc_data_type == adst_uint64 && allowed_type == adst_int64

-- `bytesToWrite`
abbrev pub bytes_to_write : ℕ → AdsParamInfo → ℕ
bytes_to_write n p = if ltb p.plc_size n then p.plc_size else n

-- The size that writeFloat64Array passes on.
abbrev pub float64_bytes : ℕ → ℕ
float64_bytes n_elements = size_t (size_t (n_elements * n_elements) * 8)

-- The types that an 8-bit array stands for.
unfoldable pub int8_type : AdsParamInfo → ℕ
int8_type p =
    if p.plc_data_type == adst_string
    then adst_string
    else if p.plc_data_type == adst_bit
    then adst_bit
    else adst_int8

abbrev pub is_null : Option ℕ → Bool
is_null none = true
is_null (some _) = false

module _ {F W : Type 0} (asyn : AsynApi F W) (alarms : AlarmCodes) where
  open alarms use {no_alarm, read_alarm, invalid_alarm}

  abbrev pub ReadArray : Type 0 → Type 0
  ReadArray V = AsynStatus × Option ArrayReading × V × W

  -- `setAlarmParam(...); return asynError;`
  unfoldable pub array_refused : AdsParamInfo → W → ReadArray AdsParamInfo
  array_refused p w =
      let (_, p', w') = set_alarm_param asyn read_alarm invalid_alarm p w in
      (asyn_error, none, p', w')

  unfoldable pub array_copied : ℕ → AdsParamInfo → W → ReadArray AdsParamInfo
  array_copied n p w =
      let (_, p', w') =
        if p.alarm_status == read_alarm
        then set_alarm_param asyn no_alarm no_alarm p w
        else (asyn_success, p, w) in
      (
        asyn_success,
        some (record { bytes = take n p.array_data; n_in = n; timestamp = p'.epics_timestamp }),
        p',
        w',
      )

  unfoldable pub ads_generic_array_read : ℕ → Bool → ℕ → AdsParamInfo → W → ReadArray AdsParamInfo
  unfolding is_allowed array_refused array_copied
  ads_generic_array_read allowed_type buffer_null n p w =
      if not (is_allowed allowed_type p)
      then array_refused p w
      else if is_null p.array_data_buffer || buffer_null
      then array_refused p w
      else array_copied (bytes_to_write n p) p w

  abbrev pub in_elements : ℕ → Option ArrayReading → Option ArrayReading
  in_elements size none = none
  in_elements size (some r) = some (record r { n_in = r.n_in / size })

  -- The parameter that the asynUser names, and the size of an element.
  unfoldable pub array_at :
      ℕ
      → (AdsParamInfo → ReadArray AdsParamInfo)
      → ℕ
      → List AdsParamInfo
      → W
      → ReadArray (List AdsParamInfo)
  array_at size read i params w = elim (get_elem? params i) [
    | none ↦ (asyn_error, none, params, w)
    | some p ↦ let (st, r, p', w') = read p in (st, in_elements size r, set params i p', w')
  ]

  unfoldable pub read_int8_array :
      Bool → ℕ → ℕ → List AdsParamInfo → W → ReadArray (List AdsParamInfo)
  unfolding array_at int8_type
  read_int8_array buffer_null n_elements i params w =
      array_at 1
        (λ p. ads_generic_array_read (int8_type p) buffer_null (size_t (n_elements * 1)) p w) i
        params w

  unfoldable pub read_int16_array :
      Bool → ℕ → ℕ → List AdsParamInfo → W → ReadArray (List AdsParamInfo)
  unfolding array_at
  read_int16_array buffer_null n_elements i params w =
      array_at 2 (λ p. ads_generic_array_read adst_int16 buffer_null (size_t (n_elements * 2)) p w)
        i params w

  unfoldable pub read_int32_array :
      Bool → ℕ → ℕ → List AdsParamInfo → W → ReadArray (List AdsParamInfo)
  unfolding array_at
  read_int32_array buffer_null n_elements i params w =
      array_at 4 (λ p. ads_generic_array_read adst_int32 buffer_null (size_t (n_elements * 4)) p w)
        i params w

  unfoldable pub read_float32_array :
      Bool → ℕ → ℕ → List AdsParamInfo → W → ReadArray (List AdsParamInfo)
  unfolding array_at
  read_float32_array buffer_null n_elements i params w =
      array_at 4 (λ p. ads_generic_array_read adst_real32 buffer_null (size_t (n_elements * 4)) p w)
        i params w

  unfoldable pub read_int64_array :
      Bool → ℕ → ℕ → List AdsParamInfo → W → ReadArray (List AdsParamInfo)
  unfolding array_at
  read_int64_array buffer_null n_elements i params w =
      array_at 8 (λ p. ads_generic_array_read adst_int64 buffer_null (size_t (n_elements * 8)) p w)
        i params w

  unfoldable pub read_float64_array :
      Bool → ℕ → ℕ → List AdsParamInfo → W → ReadArray (List AdsParamInfo)
  unfolding array_at
  read_float64_array buffer_null n_elements i params w =
      array_at 8 (λ p. ads_generic_array_read adst_real64 buffer_null (size_t (n_elements * 8)) p w)
        i params w

  module _ (api : AdsApi W) (remote_net_id : List ℕ) (client : ℕ) (stop_threads : Bool) where
    open alarms use {write_alarm}

    unfoldable pub array_stored : ℕ → List ℕ → AdsParamInfo → AdsParamInfo
    array_stored n data_bytes p =
        if is_null p.array_data_buffer
        then p
        else record p { array_data = overlay (take n data_bytes) p.array_data }

    unfoldable pub array_written : ℕ → List ℕ → Write W → Write W
    unfolding array_stored
    array_written n data_bytes (status, p, m, w) =
        if failed status
        then fail_with_alarm asyn alarms api remote_net_id client p m w
        else let q = array_stored n data_bytes p in
          let (_, q', w') =
            if q.alarm_status == write_alarm
            then set_alarm_param asyn no_alarm no_alarm q w
            else (asyn_success, q, w) in
          (asyn_success, q', m, w')

    unfoldable pub ads_generic_array_write : ℕ → List ℕ → ℕ → AdsParamInfo → Master → W → Write W
    unfolding is_allowed array_written
    ads_generic_array_write allowed_type data_bytes n p m w =
        if not (is_allowed allowed_type p)
        then fail_with_alarm asyn alarms api remote_net_id client p m w
        else array_written (bytes_to_write n p) data_bytes
            (ads_write_param api remote_net_id client stop_threads p data_bytes m w)

    -- The number of bytes that each write asks for; the last is as the source has it.
    abbrev pub WriteArray : Type 0
    WriteArray = ℕ → List AdsParamInfo → Master → W → AsynStatus × List AdsParamInfo × Master × W

    unfoldable pub write_int8_array : List ℕ → ℕ → WriteArray
    unfolding int8_type
    write_int8_array value n_elements i params m w =
        at_param asyn alarms api remote_net_id client
          (λ p. ads_generic_array_write (int8_type p) value (size_t (n_elements * 1)) p m w) i
          params m w

    unfoldable pub write_int16_array : List ℕ → ℕ → WriteArray
    write_int16_array value n_elements i params m w =
        at_param asyn alarms api remote_net_id client
          (λ p. ads_generic_array_write adst_int16 value (size_t (n_elements * 2)) p m w) i params m
          w

    unfoldable pub write_int32_array : List ℕ → ℕ → WriteArray
    write_int32_array value n_elements i params m w =
        at_param asyn alarms api remote_net_id client
          (λ p. ads_generic_array_write adst_int32 value (size_t (n_elements * 4)) p m w) i params m
          w

    unfoldable pub write_float32_array : List ℕ → ℕ → WriteArray
    write_float32_array value n_elements i params m w =
        at_param asyn alarms api remote_net_id client
          (λ p. ads_generic_array_write adst_real32 value (size_t (n_elements * 4)) p m w) i params
          m w

    unfoldable pub write_int64_array : List ℕ → ℕ → WriteArray
    write_int64_array value n_elements i params m w =
        at_param asyn alarms api remote_net_id client
          (λ p. ads_generic_array_write adst_int64 value (size_t (n_elements * 8)) p m w) i params m
          w

    unfoldable pub write_float64_array : List ℕ → ℕ → WriteArray
    write_float64_array value n_elements i params m w =
        at_param asyn alarms api remote_net_id client
          (λ p. ads_generic_array_write adst_real64 value (float64_bytes n_elements) p m w) i params
          m w
