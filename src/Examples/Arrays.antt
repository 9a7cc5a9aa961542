-- ===== src/Examples/Arrays.antt =====
-- Examples of reads from EPICS and of arrays.
use twincat_ads.Ads.{AdsParamInfo, asyn_param_int16_array}
use twincat_ads.Arrays.{
  is_allowed, array_stored, array_written, ads_generic_array_read, ads_generic_array_write,
}
use twincat_ads.Arrays.Fire.{int16_array, array_callback}
use twincat_ads.Arrays.Laws.{array-write-read}
use twincat_ads.Arrays.Bounds.{Reads, array_callback-Reads}
use twincat_ads.DataType.{adst_int16, adst_real64}
use twincat_ads.EtherCat.{Master, check_ethercat_master_for_param}
use twincat_ads.Notify.{resolve_access, resolve_symbolic, ensure_handle}
use twincat_ads.Reads.{read_param}
use twincat_ads.Reads.Failure.{read_param_failure}
use twincat_ads.Transfer.{ads_write_param, write_checked, write_resolved, written, ads_read_param}
use twincat_ads.Transfer.Value.{ads_read_and_update_param}
use twincat_ads.Transfer.Write.Alarm.{IsMirrored}
use twincat_ads.Examples.{a_plc, silent, net_id, a_param, a_master, some_alarms}
use twincat_ads.Examples.Transfers.{
  whole, accepting, Alarms, alarm_store, alarm_store-IsAlarmStore, no_alarms,
}
use twincat_ads.Base.{
  ℕ, ◌≡◌, refl, true, false, List, [], ◌∷◌, none, some, AsynStatus, asyn_success, asyn_error,
  failed, arith,
}

-- An array of two INT whose handle is known.
abbrev two_ints : AdsParamInfo
two_ints = record a_param {
  plc_abs_adr_valid = true;
  symbolic_handle_valid = true;
  h_symbolic_handle = 7;
  plc_size = 4;
  plc_data_type = adst_int16;
  plc_data_is_array = true;
  array_data_buffer = some 4;
  array_data_buffer_size = 4;
  array_data = 0 ∷ 0 ∷ 0 ∷ 0 ∷ [];
}

abbrev some_bytes : List ℕ
some_bytes = 1 ∷ 0 ∷ 2 ∷ 0 ∷ []

abbrev sent : AsynStatus × AdsParamInfo × Master × ℕ
sent =
    ads_generic_array_write accepting some_alarms a_plc net_id 30000 false adst_int16 some_bytes 4
      two_ints a_master 0

sent_ok :
    ads_generic_array_write accepting some_alarms a_plc net_id 30000 false adst_int16 some_bytes 4
      two_ints a_master 0
    ≡ (asyn_success, sent.1, sent.2, sent.3)
unfolding ads_generic_array_write is_allowed array_written array_stored ads_write_param
    write_checked check_ethercat_master_for_param write_resolved written resolve_access
    resolve_symbolic ensure_handle
sent_ok = refl

array-write-read_example :
    let (st, r, _, _) =
      ads_generic_array_read accepting some_alarms adst_int16 false 4 sent.1 100 in
    (st ≡ asyn_success)
    × (r ≡ some (record { bytes = some_bytes; n_in = 4; timestamp = two_ints.epics_timestamp }))
array-write-read_example =
    array-write-read accepting some_alarms a_plc net_id 30000 adst_int16 4 some_bytes two_ints
      a_master 0 sent.1 sent.2 sent.3 100 (record { address = refl; handle = refl }) refl
      (omega arith) sent_ok

int16_callback : array_callback adst_int16 asyn_param_int16_array 20 ≡ some (int16_array, 20)
unfolding array_callback
int16_callback = refl

array_callback-Reads_example : Reads 20 (int16_array, 20)
array_callback-Reads_example =
    array_callback-Reads adst_int16 asyn_param_int16_array 20 (int16_array, 20) int16_callback

-- A variable of the PLC with 100 LREAL.
abbrev a_waveform : AdsParamInfo
a_waveform = record a_param { plc_size = 800; plc_data_type = adst_real64 }

-- A driver that is being destroyed fails every read.
failed_read :
    ads_read_and_update_param whole alarm_store some_alarms 0
      (silent Alarms)
      net_id
      30000
      true
      true
      a_param
      []
      a_master
      no_alarms
    ≡ (asyn_error, a_param, record { error = 0; bytes = [] }, [], a_master, no_alarms)
unfolding ads_read_and_update_param ads_read_param
failed_read = refl

failed_and_IsMirrored :
    let (status, p, _, _, _, w) =
      ads_read_and_update_param whole alarm_store some_alarms 0
        (silent Alarms)
        net_id
        30000
        true
        true
        a_param
        []
        a_master
        no_alarms in
    (failed status ≡ true) × IsMirrored alarm_store p w
failed_and_IsMirrored = rw failed_read (refl, (refl, refl))

read_param_failure_example :
    let (status, value, p, _, _, w) =
      read_param whole alarm_store some_alarms 0
        (silent Alarms)
        net_id
        30000
        true
        alarm_store.base_read_int32
        a_param
        []
        a_master
        no_alarms in
    (status ≡ asyn_success)
    × (value ≡ none)
    × IsMirrored alarm_store p w
    × (p.alarm_status ≡ 1)
    × (p.alarm_severity ≡ 3)
read_param_failure_example =
    read_param_failure whole alarm_store some_alarms 0 (silent Alarms) net_id 30000 true
      alarm_store.base_read_int32 alarm_store-IsAlarmStore a_param [] a_master no_alarms
      failed_and_IsMirrored
