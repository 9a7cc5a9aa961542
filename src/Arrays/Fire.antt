-- ===== src/Arrays/Fire.antt =====
-- adsApp/src/adsAsynPortDriver.cpp: fireCallbacksForArrayParam and fireAllCallbacksLock, which hand
-- the arrays that were updated to EPICS, and one turn of triggerEpicsIoIntrCallbacksThread.
use twincat_ads.Ads.{
  AdsParamInfo, AsynParamType, asyn_param_int8_array, asyn_param_int16_array,
  asyn_param_int32_array, asyn_param_int64_array, asyn_param_float32_array,
  asyn_param_float64_array,
}
use twincat_ads.DataType.{
  adst_int8, adst_int16, adst_int32, adst_int64, adst_uint64, adst_real32, adst_real64, adst_bit,
  adst_string,
}
use twincat_ads.Asyn.{AsynApi}
use twincat_ads.Transfer.Value.{Queue}
use twincat_ads.Base.{
  ℕ, ◌/◌, Bool, true, false, List, [], ◌∷◌, Option, none, some, AsynStatus, asyn_success,
  asyn_error, ◌==◌, if◌then◌else◌, not, get_elem?,
}

abbrev pub is_int8_array : AsynParamType → Bool
is_int8_array asyn_param_int8_array = true
is_int8_array _ = false

abbrev pub is_int16_array : AsynParamType → Bool
is_int16_array asyn_param_int16_array = true
is_int16_array _ = false

abbrev pub is_int32_array : AsynParamType → Bool
is_int32_array asyn_param_int32_array = true
is_int32_array _ = false

abbrev pub is_int64_array : AsynParamType → Bool
is_int64_array asyn_param_int64_array = true
is_int64_array _ = false

abbrev pub is_float32_array : AsynParamType → Bool
is_float32_array asyn_param_float32_array = true
is_float32_array _ = false

abbrev pub is_float64_array : AsynParamType → Bool
is_float64_array asyn_param_float64_array = true
is_float64_array _ = false

-- The callbacks that an array is handed to.
pub data ArrayCallback : Type 0 where
  int8_array int16_array int32_array int64_array float32_array float64_array : ArrayCallback

-- The two nested `switch`es: the callbacks and the number of elements, as the source has them.
unfoldable pub array_callback : ℕ → AsynParamType → ℕ → Option (ArrayCallback × ℕ)
array_callback type asyn_type size =
    if type == adst_int8
    then (if is_int8_array asyn_type then some (int8_array, size) else none)
    else if type == adst_int16
    then (if is_int16_array asyn_type then some (int16_array, size) else none)
    else if type == adst_int32
    then (if is_int32_array asyn_type then some (int32_array, size) else none)
    else if type == adst_int64
    then (if is_int64_array asyn_type then some (int64_array, size / 8) else none)
    else if type == adst_uint64
    then (if is_int64_array asyn_type then some (int64_array, size / 8) else none)
    else if type == adst_real32
    then (if is_float32_array asyn_type then some (float32_array, size) else none)
    else if type == adst_real64
    then (if is_float64_array asyn_type then some (float64_array, size) else none)
    else if type == adst_bit
    then (if is_int8_array asyn_type then some (int8_array, size) else none)
    else if type == adst_string
    then (if is_int8_array asyn_type then some (int8_array, size) else none)
    else none

module _ {F W : Type 0} (asyn : AsynApi F W) where
  open asyn use {
    call_param_callbacks, do_callbacks_int8_array, do_callbacks_int16_array,
    do_callbacks_int32_array, do_callbacks_int64_array, do_callbacks_float32_array,
    do_callbacks_float64_array,
  }

  unfoldable pub do_callbacks : ArrayCallback → List ℕ → ℕ → ℕ → W → AsynStatus × W
  do_callbacks int8_array = do_callbacks_int8_array
  do_callbacks int16_array = do_callbacks_int16_array
  do_callbacks int32_array = do_callbacks_int32_array
  do_callbacks int64_array = do_callbacks_int64_array
  do_callbacks float32_array = do_callbacks_float32_array
  do_callbacks float64_array = do_callbacks_float64_array

  unfoldable pub fired : AdsParamInfo → W → Option (ArrayCallback × ℕ) → AsynStatus × W
  unfolding do_callbacks
  fired p w none = (asyn_error, w)
  fired p w (some (callback, n)) = do_callbacks callback p.array_data n p.param_index w

  unfoldable pub fire_callbacks_for_array_param : AdsParamInfo → W → AsynStatus × W
  unfolding fired
  fire_callbacks_for_array_param p w =
      if not p.plc_data_is_array
      then (asyn_success, w)
      else if p.last_callback_size == 0
      then (asyn_success, w)
      else fired p w (array_callback p.plc_data_type p.asyn_type p.last_callback_size)

  -- The loop that empties the queue; an index in the queue always names a parameter.
  unfoldable pub fire_queued : List AdsParamInfo → Queue → W → W
  fire_queued params [] w = w
  fire_queued params (i ∷ q) w = elim (get_elem? params i) [
    | none ↦ fire_queued params q w
    | some p ↦ let (_, w') = fire_callbacks_for_array_param p w in fire_queued params q w'
  ]

  unfoldable pub fire_all_callbacks : List AdsParamInfo → Queue → W → AsynStatus × Queue × W
  unfolding fire_queued
  fire_all_callbacks params q w = (asyn_success, [], fire_queued params q (call_param_callbacks w))

  -- A turn of the thread; the Boolean says that it goes on.
  unfoldable pub trigger_turn : Bool → Bool → List AdsParamInfo → Queue → W → Bool × Queue × W
  unfolding fire_all_callbacks
  trigger_turn stop_threads allow_callback_epics_state params q w =
      if stop_threads
      then (false, q, w)
      else if not allow_callback_epics_state
      then (true, q, w)
      else let (_, q', w') = fire_all_callbacks params q w in (true, q', w')
