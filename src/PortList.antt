-- ===== src/PortList.antt =====
-- adsApp/src/adsAsynPortDriver.cpp, the list of ams ports: getAmsPortObject, addNewAmsPortToList and
-- isCallbackAllowed. `max_states` is AdsLib's ADSSTATE_MAXSTATES. That `new` fails is left out.
pub mod Laws
use twincat_ads.Ads.{AdsParamInfo, AmsPortInfo}
use twincat_ads.Base.{
  ℕ, ◌+◌, Bool, true, false, List, [], ◌∷◌, ◌++◌, Option, none, some, AsynStatus, asyn_success,
  ◌==◌, if◌then◌else◌, not,
}

unfoldable pub get_ams_port_object : ℕ → List AmsPortInfo → Option AmsPortInfo
get_ams_port_object ams_port [] = none
get_ams_port_object ams_port (port ∷ ports) =
    let rest = get_ams_port_object ams_port ports in
    if port.ams_port == ams_port then some port else rest

unfoldable pub is_known : ℕ → List AmsPortInfo → Bool
is_known ams_port [] = false
is_known ams_port (port ∷ ports) =
    let rest = is_known ams_port ports in if port.ams_port == ams_port then true else rest

-- `memset` has set what is not set here to 0.
abbrev pub new_port : ℕ → ℕ → AmsPortInfo
new_port max_states ams_port = record {
  ams_port = ams_port;
  connected_old = false;
  connected = false;
  params_ok = false;
  version = record { version = 0; revision = 0; build = 0 };
  dev_name = "";
  param_info = none;
  ads_state = max_states + 1;
  ads_state_old = max_states + 1;
  h_callback_notify = 0;
  callback_notify_valid = false;
  refresh_needed = false;
}

unfoldable pub add_new_ams_port_to_list : ℕ → ℕ → List AmsPortInfo → AsynStatus × List AmsPortInfo
add_new_ams_port_to_list max_states ams_port ports =
    if is_known ams_port ports
    then (asyn_success, ports)
    else (asyn_success, ports ++ new_port max_states ams_port ∷ [])

unfoldable pub is_callback_allowed : ℕ → List AmsPortInfo → Bool
is_callback_allowed ams_port [] = false
is_callback_allowed ams_port (port ∷ ports) =
    let rest = is_callback_allowed ams_port ports in
    if port.ams_port == ams_port then port.params_ok else rest

abbrev pub is_callback_allowed_for_param : AdsParamInfo → Bool
is_callback_allowed_for_param p = not p.refresh_needed
