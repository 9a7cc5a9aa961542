-- ===== src/Ads.antt =====
-- What the driver uses of AdsLib, which is not part of the repository: the synchronous requests, as
-- functions over a state `W` of that library and the PLC, and AdsLib's index group constants. Status
-- codes are numbers, 0 for success. Where a request fills a buffer, the value written is part of the
-- reply; `none` says that the buffer was left as it was.
-- The structures of adsApp/src/adsAsynPortDriverUtils.h: adsSymbolEntry, adsParamInfo, amsPortInfo.
use twincat_ads.Base.Int.{ℤ}
use twincat_ads.TimeStamp.{EpicsTimeStamp}
use twincat_ads.Base.{ℕ, Bool, List, Option, String}

pub record AmsAddr : Type 0 where
  pub net_id : List ℕ
  pub port : ℕ

-- The header of a symbol's description, and the text that follows it.
pub record AdsSymbolEntry : Type 0 where
  pub i_group : ℕ
  pub i_offset : ℕ
  pub size : ℕ
  pub data_type : ℕ
  pub name_length : ℕ
  pub type_length : ℕ
  pub buffer : List ℕ
  -- The pointers into `buffer`, as offsets; `none` is the null pointer.
  pub variable_name : Option ℕ
  pub sym_data_type : Option ℕ
  pub sym_comment : Option ℕ

pub record AdsNotificationAttrib : Type 0 where
  pub cb_length : ℕ
  pub n_max_delay : ℕ
  pub n_cycle_time : ℕ

pub data AdsDataSource : Type 0 where
  plc ams_state : AdsDataSource

-- ADSTIMESOURCE
pub data AdsTimeSource : Type 0 where
  time_base_plc time_base_epics : AdsTimeSource

-- asynParamType, as far as the driver names its values; `other` is any other value.
pub data AsynParamType : Type 0 where
  asyn_param_int32 asyn_param_int64 asyn_param_float64 : AsynParamType
  asyn_param_uint32_digital asyn_param_octet asyn_param_generic_pointer : AsynParamType
  asyn_param_int8_array asyn_param_int16_array asyn_param_int32_array : AsynParamType
  asyn_param_int64_array asyn_param_float32_array asyn_param_float64_array : AsynParamType
  other : ℕ → AsynParamType

-- adsParamInfo, without what only reports and records use. The two times in milliseconds, of type
-- double, stand as the number of 100 ns ticks that they are cast to for a notification. The array
-- buffer is its size if there is one.
pub record AdsParamInfo : Type 0 where
  pub ams_port : ℕ
  pub param_index : ℕ
  pub is_io_intr : Bool
  pub max_delay_ticks : ℕ
  pub sample_ticks : ℕ
  pub plc_abs_adr_valid : Bool
  pub is_adr_command : Bool
  pub is_bulk_read : Bool
  pub plc_adr_str : String
  pub plc_abs_adr_group : ℕ
  pub plc_abs_adr_offset : ℕ
  pub plc_size : ℕ
  pub plc_data_type : ℕ
  pub plc_data_is_array : Bool
  pub h_callback_notify : ℕ
  pub callback_notify_valid : Bool
  pub h_symbolic_handle : ℕ
  pub symbolic_handle_valid : Bool
  pub array_data_buffer : Option ℕ
  -- The content of the array buffer, longer than the buffer where a copy has written past its end, and
  -- the size of the last notification's data.
  pub array_data : List ℕ
  pub last_callback_size : ℕ
  pub array_data_buffer_size : ℕ
  pub refresh_needed : Bool
  pub data_source : AdsDataSource
  pub plc_time_stamp_raw : ℕ
  pub time_base : AdsTimeSource
  pub plc_time_stamp : EpicsTimeStamp
  pub epics_timestamp : EpicsTimeStamp
  pub asyn_type : AsynParamType
  pub alarm_status : ℕ
  pub alarm_severity : ℕ
  pub plc_data_type_warn : Bool
  pub first_read_done : Bool
  pub bulk_index : ℤ
  pub bulk_offset : ℤ

-- AdsVersion, of AdsLib.
pub record AdsVersion : Type 0 where
  pub version : ℕ
  pub revision : ℕ
  pub build : ℕ

-- amsPortInfo. The state is AdsLib's ADSSTATE. `param_info`, a pointer into adsParamArray_, is an index.
pub record AmsPortInfo : Type 0 where
  pub ams_port : ℕ
  pub connected_old : Bool
  pub connected : Bool
  pub params_ok : Bool
  pub version : AdsVersion
  pub dev_name : String
  pub param_info : Option ℕ
  pub ads_state : ℕ
  pub ads_state_old : ℕ
  pub h_callback_notify : ℕ
  pub callback_notify_valid : Bool
  pub refresh_needed : Bool

pub record AdsApi (W : Type 0) : Type 0 where
  -- ADSIGRP_SYM_HNDBYNAME, _VALBYHND, _RELEASEHND, _INFOBYNAMEEX, _VERSION and GLOBALERR codes.
  pub sym_hndbyname : ℕ
  pub sym_valbyhnd : ℕ
  pub sym_releasehnd : ℕ
  pub sym_infobynameex : ℕ
  pub sym_version : ℕ
  -- ADSSTATE_INVALID and ADSSTATE_RUN, and the status ADSERR_DEVICE_EXISTS.
  pub state_invalid : ℕ
  pub state_run : ℕ
  pub device_exists : ℕ
  -- AdsSyncReadWriteReqEx2 for a 4-byte number and for a symbol's description.
  pub read_write_u32 : ℕ → AmsAddr → ℕ → ℕ → String → W → ℕ × Option ℕ × W
  pub read_write_symbol : ℕ → AmsAddr → ℕ → ℕ → String → W → ℕ × Option AdsSymbolEntry × W
  -- AdsSyncWriteReqEx for a 4-byte number, and for a buffer of a given size.
  pub write_u32 : ℕ → AmsAddr → ℕ → ℕ → ℕ → W → ℕ × W
  pub write_bytes : ℕ → AmsAddr → ℕ → ℕ → ℕ → List ℕ → W → ℕ × W
  -- AdsSyncReadReqEx2: status, data and bytes read.
  pub read_bytes : ℕ → AmsAddr → ℕ → ℕ → ℕ → W → ℕ × List ℕ × ℕ × W
  -- AdsSyncAddDeviceNotificationReqEx and AdsSyncDelDeviceNotificationReqEx.
  pub add_notification : ℕ → AmsAddr → ℕ → ℕ → AdsNotificationAttrib → ℕ → W → ℕ × Option ℕ × W
  pub del_notification : ℕ → AmsAddr → ℕ → W → ℕ × W
  -- AdsSyncWriteControlReqEx without data: an ADS state and a device state.
  pub write_control : ℕ → AmsAddr → ℕ → ℕ → W → ℕ × W
  -- AdsSyncReadWriteReqEx2 with ADSIGRP_SUMUP_READ: the count, the size of the reply, and the group,
  -- offset and size of each request. The bytes are those written to the buffer.
  pub sum_up_read : ℕ → AmsAddr → ℕ → ℕ → List (ℕ × ℕ × ℕ) → W → ℕ × List ℕ × W
  -- AdsSyncReadWriteReqEx2 with ADSIGRP_SUMUP_READWRITE: the count, the size of the reply's buffer and
  -- the bytes written; the bytes put into that buffer, and how many AdsLib says it has read.
  pub sum_up_read_write : ℕ → AmsAddr → ℕ → ℕ → List ℕ → W → ℕ × List ℕ × ℕ × W
  -- AdsSyncReadStateReqEx: the ADS state. AdsSyncReadDeviceInfoReqEx: the name and the version.
  pub read_state : ℕ → AmsAddr → W → ℕ × ℕ × W
  pub read_device_info : ℕ → AmsAddr → W → ℕ × String × AdsVersion × W
  -- AdsSyncGetTimeoutEx (the status only) and AdsSyncSetTimeoutEx.
  pub get_timeout : ℕ → W → ℕ × W
  pub set_timeout : ℕ → ℕ → W → ℕ × W
  -- AdsAddRoute of a net id and an address, and AdsDelRoute.
  pub add_route : List ℕ → String → W → ℕ × W
  pub del_route : List ℕ → W → W
