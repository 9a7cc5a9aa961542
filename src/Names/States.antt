-- ===== src/Names/States.antt =====
-- adsApp/src/adsAsynPortDriverUtils.cpp, the names of states and types: adsStateToString,
-- epicsStateToString, asynTypeToString and dtypStringToAsynType. The numbers of AdsLib's and EPICS'
-- constants are parameters.
use twincat_ads.Names.{switch_name}
use twincat_ads.Ads.{
  AsynParamType, asyn_param_int32, asyn_param_int64, asyn_param_float64, asyn_param_uint32_digital,
  asyn_param_octet, asyn_param_generic_pointer, asyn_param_int8_array, asyn_param_int16_array,
  asyn_param_int32_array, asyn_param_int64_array, asyn_param_float32_array,
  asyn_param_float64_array, other,
}
use text.Mathlib.Text.{◌==◌ as str_eq}
use twincat_ads.Base.{ℕ, String, List, [], ◌∷◌, ◌||◌, if◌then◌else◌}

-- ADSSTATE, of AdsLib.
pub data AdsState : Type 0 where
  adsstate_invalid adsstate_idle adsstate_reset adsstate_init adsstate_start : AdsState
  adsstate_run adsstate_stop adsstate_savecfg adsstate_loadcfg adsstate_powerfailure : AdsState
  adsstate_powergood adsstate_error adsstate_shutdown adsstate_suspend adsstate_resume : AdsState
  adsstate_config adsstate_reconfig adsstate_stopping adsstate_incompatible : AdsState
  adsstate_exception adsstate_maxstates : AdsState

abbrev pub all_ads_states : List AdsState
all_ads_states =
    adsstate_invalid ∷ adsstate_idle ∷ adsstate_reset ∷ adsstate_init ∷ adsstate_start
    ∷ adsstate_run ∷ adsstate_stop ∷ adsstate_savecfg ∷ adsstate_loadcfg ∷ adsstate_powerfailure
    ∷ adsstate_powergood ∷ adsstate_error ∷ adsstate_shutdown ∷ adsstate_suspend ∷ adsstate_resume
    ∷ adsstate_config ∷ adsstate_reconfig ∷ adsstate_stopping ∷ adsstate_incompatible
    ∷ adsstate_exception ∷ adsstate_maxstates ∷ []

unfoldable pub ads_state_name : AdsState → String
ads_state_name adsstate_invalid = "ADSSTATE_INVALID"
ads_state_name adsstate_idle = "ADSSTATE_IDLE"
ads_state_name adsstate_reset = "ADSSTATE_RESET"
ads_state_name adsstate_init = "ADSSTATE_INIT"
ads_state_name adsstate_start = "ADSSTATE_START"
ads_state_name adsstate_run = "ADSSTATE_RUN"
ads_state_name adsstate_stop = "ADSSTATE_STOP"
ads_state_name adsstate_savecfg = "ADSSTATE_SAVECFG"
ads_state_name adsstate_loadcfg = "ADSSTATE_LOADCFG"
ads_state_name adsstate_powerfailure = "ADSSTATE_POWERFAILURE"
ads_state_name adsstate_powergood = "ADSSTATE_POWERGOOD"
ads_state_name adsstate_error = "ADSSTATE_ERROR"
ads_state_name adsstate_shutdown = "ADSSTATE_SHUTDOWN"
ads_state_name adsstate_suspend = "ADSSTATE_SUSPEND"
ads_state_name adsstate_resume = "ADSSTATE_RESUME"
ads_state_name adsstate_config = "ADSSTATE_CONFIG"
ads_state_name adsstate_reconfig = "ADSSTATE_RECONFIG"
ads_state_name adsstate_stopping = "ADSSTATE_STOPPING"
ads_state_name adsstate_incompatible = "ADSSTATE_INCOMPATIBLE"
ads_state_name adsstate_exception = "ADSSTATE_EXCEPTION"
ads_state_name adsstate_maxstates = "ADSSTATE_MAXSTATES"

-- initHookState, of EPICS.
pub data EpicsState : Type 0 where
  init_hook_at_ioc_build init_hook_at_beginning init_hook_after_callback_init : EpicsState
  init_hook_after_ca_link_init init_hook_after_init_drv_sup : EpicsState
  init_hook_after_init_rec_sup init_hook_after_init_dev_sup : EpicsState
  init_hook_after_init_database init_hook_after_finish_dev_sup : EpicsState
  init_hook_after_scan_init init_hook_after_initial_process init_hook_after_ioc_built : EpicsState
  init_hook_at_ioc_run init_hook_after_database_running : EpicsState
  init_hook_after_ca_server_running init_hook_after_ioc_running init_hook_at_ioc_pause : EpicsState
  init_hook_after_ca_server_paused init_hook_after_database_paused : EpicsState
  init_hook_after_ioc_paused init_hook_after_interrupt_accept : EpicsState

abbrev pub all_epics_states : List EpicsState
all_epics_states =
    init_hook_at_ioc_build ∷ init_hook_at_beginning ∷ init_hook_after_callback_init
    ∷ init_hook_after_ca_link_init ∷ init_hook_after_init_drv_sup ∷ init_hook_after_init_rec_sup
    ∷ init_hook_after_init_dev_sup ∷ init_hook_after_init_database ∷ init_hook_after_finish_dev_sup
    ∷ init_hook_after_scan_init ∷ init_hook_after_initial_process ∷ init_hook_after_ioc_built
    ∷ init_hook_at_ioc_run ∷ init_hook_after_database_running ∷ init_hook_after_ca_server_running
    ∷ init_hook_after_ioc_running ∷ init_hook_at_ioc_pause ∷ init_hook_after_ca_server_paused
    ∷ init_hook_after_database_paused ∷ init_hook_after_ioc_paused
    ∷ init_hook_after_interrupt_accept ∷ []

unfoldable pub epics_state_name : EpicsState → String
epics_state_name init_hook_at_ioc_build = "initHookAtIocBuild"
epics_state_name init_hook_at_beginning = "initHookAtBeginning"
epics_state_name init_hook_after_callback_init = "initHookAfterCallbackInit"
epics_state_name init_hook_after_ca_link_init = "initHookAfterCaLinkInit"
epics_state_name init_hook_after_init_drv_sup = "initHookAfterInitDrvSup"
epics_state_name init_hook_after_init_rec_sup = "initHookAfterInitRecSup"
epics_state_name init_hook_after_init_dev_sup = "initHookAfterInitDevSup"
epics_state_name init_hook_after_init_database = "initHookAfterInitDatabase"
epics_state_name init_hook_after_finish_dev_sup = "initHookAfterFinishDevSup"
epics_state_name init_hook_after_scan_init = "initHookAfterScanInit"
epics_state_name init_hook_after_initial_process = "initHookAfterInitialProcess"
epics_state_name init_hook_after_ioc_built = "initHookAfterIocBuilt"
epics_state_name init_hook_at_ioc_run = "initHookAtIocRun"
epics_state_name init_hook_after_database_running = "initHookAfterDatabaseRunning"
epics_state_name init_hook_after_ca_server_running = "initHookAfterCaServerRunning"
epics_state_name init_hook_after_ioc_running = "initHookAfterIocRunning"
epics_state_name init_hook_at_ioc_pause = "initHookAtIocPause"
epics_state_name init_hook_after_ca_server_paused = "initHookAfterCaServerPaused"
epics_state_name init_hook_after_database_paused = "initHookAfterDatabasePaused"
epics_state_name init_hook_after_ioc_paused = "initHookAfterIocPaused"
epics_state_name init_hook_after_interrupt_accept = "initHookAfterInterruptAccept"

unfoldable pub ads_state_to_string : (AdsState → ℕ) → ℕ → String
unfolding switch_name ads_state_name
ads_state_to_string value = switch_name value ads_state_name "UNKNOWN ADSSTATE" all_ads_states

unfoldable pub epics_state_to_string : (EpicsState → ℕ) → ℕ → String
unfolding switch_name epics_state_name
epics_state_to_string value = switch_name value epics_state_name "Unknown state" all_epics_states

unfoldable pub asyn_type_to_string : AsynParamType → String
asyn_type_to_string asyn_param_int32 = "asynParamInt32"
asyn_type_to_string asyn_param_float64 = "asynParamFloat64"
asyn_type_to_string asyn_param_uint32_digital = "asynParamUInt32Digital"
asyn_type_to_string asyn_param_octet = "asynParamOctet"
asyn_type_to_string asyn_param_int8_array = "asynParamInt8Array"
asyn_type_to_string asyn_param_int16_array = "asynParamInt16Array"
asyn_type_to_string asyn_param_int32_array = "asynParamInt32Array"
asyn_type_to_string asyn_param_float32_array = "asynParamFloat32Array"
asyn_type_to_string asyn_param_float64_array = "asynParamFloat64Array"
asyn_type_to_string asyn_param_generic_pointer = "asynParamGenericPointer"
asyn_type_to_string asyn_param_int64 = "asynParamInt64"
asyn_type_to_string asyn_param_int64_array = "asynParamInt64Array"
asyn_type_to_string (other n) = "asynUnknownType"

-- `undefined` is the number of asynParamNotDefined.
unfoldable pub dtyp_string_to_asyn_type : ℕ → String → AsynParamType
dtyp_string_to_asyn_type undefined dtype =
    if str_eq "asynFloat64" dtype
    then asyn_param_float64
    else if str_eq "asynInt32" dtype
    then asyn_param_int32
    else if str_eq "asynInt8ArrayIn" dtype || str_eq "asynInt8ArrayOut" dtype
    then asyn_param_int8_array
    else if str_eq "asynInt16ArrayIn" dtype || str_eq "asynInt16ArrayOut" dtype
    then asyn_param_int16_array
    else if str_eq "asynInt32ArrayIn" dtype || str_eq "asynInt32ArrayOut" dtype
    then asyn_param_int32_array
    else if str_eq "asynFloat32ArrayIn" dtype || str_eq "asynFloat32ArrayOut" dtype
    then asyn_param_float32_array
    else if str_eq "asynFloat64ArrayIn" dtype || str_eq "asynFloat64ArrayOut" dtype
    then asyn_param_float64_array
    else if str_eq "asynInt64" dtype
    then asyn_param_int64
    else if str_eq "asynInt64ArrayIn" dtype || str_eq "asynInt64ArrayOut" dtype
    then asyn_param_int64_array
    else other undefined
