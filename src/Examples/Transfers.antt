-- ===== src/Examples/Transfers.antt =====
-- Examples of writes and reads.
use twincat_ads.Base.Int.{ℤ, pos, negsuc, is_positive}
use twincat_ads.Ads.{AdsParamInfo, asyn_param_int32}
use twincat_ads.DataType.{adst_int16}
use twincat_ads.Asyn.{AsynApi, set_alarm_param}
use twincat_ads.Bulk.{store}
use twincat_ads.EtherCat.{
  EthercatDeviceState, state_code, init, pre_op, bootstrap, safe_op, op, Master,
}
use twincat_ads.Transfer.{Reading, ads_write_param, ads_read_param}
use twincat_ads.Transfer.Decode.{Floats, pattern_of, posting, set_integer}
use twincat_ads.Transfer.Write.{encode_int32, write_int32_param, return_alarm}
use twincat_ads.Transfer.Write.RoundTrip.{in_int16, int32-write-read}
use twincat_ads.Transfer.Write.Alarm.{
  IsAlarmStore, IsMirrored, set_alarm_param-IsMirrored, write_int32-guards_state,
}
use twincat_ads.Examples.{no_time, a_plc, net_id, a_param, a_state, a_master, some_alarms}
use twincat_ads.Base.{
  ℕ, ◌^◌, ◌≡◌, ◌≢◌, refl, ap, false, List, [], ◌∷◌, some, AsynStatus, asyn_success, arith,
}

-- Doubles that are whole numbers.
abbrev pub whole : Floats ℤ
whole = record {
  of_int = λ z. z;
  of_bits32 = pos;
  of_bits64 = pos;
  to_int32 = λ z. z;
  bits32_of_int = λ _. 0;
  bits64_of_int = λ _. 0;
  int_bits = λ type z. pattern_of (2 ^ 64) z;
  bits32 = λ _. 0;
  bits64 = λ _. 0;
  is_above_zero = is_positive;
}

int32-write-read_example :
    (bytes : List ℕ) × (encode_int32 whole adst_int16 (negsuc 4) ≡ some bytes)
    × (posting whole adst_int16 asyn_param_int32 bytes ≡ some (set_integer (negsuc 4)))
int32-write-read_example = int32-write-read whole adst_int16 (negsuc 4) (in_int16 refl)

minus_five_bytes : encode_int32 whole adst_int16 (negsuc 4) ≡ some (0xfb ∷ 0xff ∷ [])
unfolding encode_int32
minus_five_bytes = refl

-- The alarm status and severity of each parameter.
abbrev pub Alarms : Type 0
Alarms = (ℕ → ℕ) × (ℕ → ℕ)

abbrev pub alarm_store : AsynApi ℤ Alarms
alarm_store = record {
  set_integer_param = λ i z w. (asyn_success, w);
  set_integer64_param = λ i z w. (asyn_success, w);
  set_double_param = λ i z w. (asyn_success, w);
  get_param_alarm_status = λ i w. (asyn_success, w.0 i);
  set_param_alarm_status = λ i a w. (asyn_success, (store w.0 i a, w.1));
  get_param_alarm_severity = λ i w. (asyn_success, w.1 i);
  set_param_alarm_severity = λ i a w. (asyn_success, (w.0, store w.1 i a));
  update_time_stamp = λ w. (asyn_success, w);
  set_time_stamp = λ ts w. (asyn_success, w);
  get_time_stamp = λ w. (asyn_success, no_time);
  base_write_int32 = λ i z w. (asyn_success, w);
  base_write_int64 = λ i z w. (asyn_success, w);
  base_write_float64 = λ i z w. (asyn_success, w);
  base_read_int32 = λ i w. (asyn_success, pos 0, w);
  base_read_int64 = λ i w. (asyn_success, pos 0, w);
  base_read_float64 = λ i w. (asyn_success, pos 0, w);
  call_param_callbacks = λ w. w;
  do_callbacks_int8_array = λ b n i w. (asyn_success, w);
  do_callbacks_int16_array = λ b n i w. (asyn_success, w);
  do_callbacks_int32_array = λ b n i w. (asyn_success, w);
  do_callbacks_int64_array = λ b n i w. (asyn_success, w);
  do_callbacks_float32_array = λ b n i w. (asyn_success, w);
  do_callbacks_float64_array = λ b n i w. (asyn_success, w);
}

store_here : (f : ℕ → ℕ) (i a : ℕ) → store f i a i ≡ a
store_here f i a = ground arith

pub alarm_store-IsAlarmStore : IsAlarmStore alarm_store
alarm_store-IsAlarmStore = record {
  status-set = λ i a w. (refl, ap (λ n. (asyn_success, n)) (store_here w.0 i a), refl);
  severity-set = λ i a w. (refl, ap (λ n. (asyn_success, n)) (store_here w.1 i a), refl);
}

abbrev pub no_alarms : Alarms
no_alarms = (λ _. 0, λ _. 0)

set_alarm_param-IsMirrored_example :
    let r = set_alarm_param alarm_store 2 3 a_param no_alarms in
    (r.0 ≡ asyn_success)
    × IsMirrored alarm_store r.1 r.2
    × (r.1.alarm_status ≡ 2)
    × (r.1.alarm_severity ≡ 3)
set_alarm_param-IsMirrored_example =
    set_alarm_param-IsMirrored alarm_store alarm_store-IsAlarmStore 2 3 a_param no_alarms
      (refl, refl)

-- A library that accepts everything, beside the PLC of the examples.
abbrev pub accepting : AsynApi ℤ ℕ
accepting = record {
  set_integer_param = λ i z w. (asyn_success, w);
  set_integer64_param = λ i z w. (asyn_success, w);
  set_double_param = λ i z w. (asyn_success, w);
  get_param_alarm_status = λ i w. (asyn_success, 0);
  set_param_alarm_status = λ i a w. (asyn_success, w);
  get_param_alarm_severity = λ i w. (asyn_success, 0);
  set_param_alarm_severity = λ i a w. (asyn_success, w);
  update_time_stamp = λ w. (asyn_success, w);
  set_time_stamp = λ ts w. (asyn_success, w);
  get_time_stamp = λ w. (asyn_success, no_time);
  base_write_int32 = λ i z w. (asyn_success, w);
  base_write_int64 = λ i z w. (asyn_success, w);
  base_write_float64 = λ i z w. (asyn_success, w);
  base_read_int32 = λ i w. (asyn_success, pos 0, w);
  base_read_int64 = λ i w. (asyn_success, pos 0, w);
  base_read_float64 = λ i w. (asyn_success, pos 0, w);
  call_param_callbacks = λ w. w;
  do_callbacks_int8_array = λ b n i w. (asyn_success, w);
  do_callbacks_int16_array = λ b n i w. (asyn_success, w);
  do_callbacks_int32_array = λ b n i w. (asyn_success, w);
  do_callbacks_int64_array = λ b n i w. (asyn_success, w);
  do_callbacks_float32_array = λ b n i w. (asyn_success, w);
  do_callbacks_float64_array = λ b n i w. (asyn_success, w);
}

five_is_no_state : (s : EthercatDeviceState) → pos 5 ≢ pos (state_code s)
five_is_no_state init e = ground arith
five_is_no_state pre_op e = ground arith
five_is_no_state bootstrap e = ground arith
five_is_no_state safe_op e = ground arith
five_is_no_state op e = ground arith

write_int32-guards_state_example :
    write_int32_param accepting some_alarms a_plc net_id 30000 whole false
      (pos 5)
      a_state
      a_master
      0
    ≡ return_alarm accepting some_alarms a_plc net_id 30000 2 3 a_state a_master 0
write_int32-guards_state_example =
    write_int32-guards_state accepting some_alarms a_plc net_id 30000 whole false (pos 5) a_state
      a_master 0 refl five_is_no_state

-- Two bytes are written to, and read from, the parameter `Main.a`, by its name.
abbrev written : AsynStatus × AdsParamInfo × Master × ℕ
written = ads_write_param a_plc net_id 30000 false a_param (1 ∷ 0 ∷ []) a_master 0

abbrev was_read : AsynStatus × AdsParamInfo × Reading × Master × ℕ
was_read = ads_read_param a_plc net_id 30000 false a_param a_master 0
