-- ===== src/Names.antt =====
-- adsApp/src/adsAsynPortDriverUtils.cpp, the names of codes: adsErrorToString. The numbers of AdsLib's
-- constants are parameters, as functions from their names; a `switch` over them is a search among the
-- names in the order of its cases.
pub mod Distinct
pub mod States
use twincat_ads.Base.{ℕ, String, List, [], ◌∷◌, ◌==◌, if◌then◌else◌}

-- The text of the first case with this number.
unfoldable pub switch_name : {C : Type 0} → (C → ℕ) → (C → String) → String → List C → ℕ → String
switch_name value name unknown [] n = unknown
switch_name value name unknown (c ∷ cs) n =
    let rest = switch_name value name unknown cs n in if value c == n then name c else rest

-- The errors that AdsLib names.
pub data AdsError : Type 0 where
  globalerr_target_port globalerr_missing_route globalerr_no_memory : AdsError
  globalerr_tcp_send adserr_device_error adserr_device_srvnotsupp : AdsError
  adserr_device_invalidgrp adserr_device_invalidoffset adserr_device_invalidaccess : AdsError
  adserr_device_invalidsize adserr_device_invaliddata adserr_device_notready : AdsError
  adserr_device_busy adserr_device_invalidcontext adserr_device_nomemory : AdsError
  adserr_device_invalidparm adserr_device_notfound adserr_device_syntax : AdsError
  adserr_device_incompatible adserr_device_exists adserr_device_symbolnotfound : AdsError
  adserr_device_symbolversioninvalid adserr_device_invalidstate adserr_device_transmodenotsupp :
      AdsError
  adserr_device_notifyhndinvalid adserr_device_clientunknown adserr_device_nomorehdls : AdsError
  adserr_device_invalidwatchsize adserr_device_notinit adserr_device_timeout : AdsError
  adserr_device_nointerface adserr_device_invalidinterface adserr_device_invalidclsid : AdsError
  adserr_device_invalidobjid adserr_device_pending adserr_device_aborted : AdsError
  adserr_device_warning adserr_device_invalidarrayidx adserr_device_symbolnotactive : AdsError
  adserr_device_accessdenied adserr_device_licensenotfound adserr_device_licenseexpired : AdsError
  adserr_device_licenseexceeded adserr_device_licenseinvalid adserr_device_licensesystemid :
      AdsError
  adserr_device_licensenotimelimit adserr_device_licensefutureissue
        adserr_device_licensetimetolong :
      AdsError
  adserr_device_exception adserr_device_licenseduplicated adserr_device_signatureinvalid : AdsError
  adserr_device_certificateinvalid adserr_client_error adserr_client_invalidparm : AdsError
  adserr_client_listempty adserr_client_varused adserr_client_duplinvokeid : AdsError
  adserr_client_synctimeout adserr_client_w32error adserr_client_timeoutinvalid : AdsError
  adserr_client_portnotopen adserr_client_noamsaddr adserr_client_syncinternal : AdsError
  adserr_client_addhash adserr_client_removehash adserr_client_nomoresym : AdsError
  adserr_client_syncresinvalid adserr_client_syncportlocked : AdsError

abbrev pub all_ads_errors : List AdsError
all_ads_errors =
    globalerr_target_port ∷ globalerr_missing_route ∷ globalerr_no_memory ∷ globalerr_tcp_send
    ∷ adserr_device_error ∷ adserr_device_srvnotsupp ∷ adserr_device_invalidgrp
    ∷ adserr_device_invalidoffset ∷ adserr_device_invalidaccess ∷ adserr_device_invalidsize
    ∷ adserr_device_invaliddata ∷ adserr_device_notready ∷ adserr_device_busy
    ∷ adserr_device_invalidcontext ∷ adserr_device_nomemory ∷ adserr_device_invalidparm
    ∷ adserr_device_notfound ∷ adserr_device_syntax ∷ adserr_device_incompatible
    ∷ adserr_device_exists ∷ adserr_device_symbolnotfound ∷ adserr_device_symbolversioninvalid
    ∷ adserr_device_invalidstate ∷ adserr_device_transmodenotsupp ∷ adserr_device_notifyhndinvalid
    ∷ adserr_device_clientunknown ∷ adserr_device_nomorehdls ∷ adserr_device_invalidwatchsize
    ∷ adserr_device_notinit ∷ adserr_device_timeout ∷ adserr_device_nointerface
    ∷ adserr_device_invalidinterface ∷ adserr_device_invalidclsid ∷ adserr_device_invalidobjid
    ∷ adserr_device_pending ∷ adserr_device_aborted ∷ adserr_device_warning
    ∷ adserr_device_invalidarrayidx ∷ adserr_device_symbolnotactive ∷ adserr_device_accessdenied
    ∷ adserr_device_licensenotfound ∷ adserr_device_licenseexpired ∷ adserr_device_licenseexceeded
    ∷ adserr_device_licenseinvalid ∷ adserr_device_licensesystemid
    ∷ adserr_device_licensenotimelimit ∷ adserr_device_licensefutureissue
    ∷ adserr_device_licensetimetolong ∷ adserr_device_exception ∷ adserr_device_licenseduplicated
    ∷ adserr_device_signatureinvalid ∷ adserr_device_certificateinvalid ∷ adserr_client_error
    ∷ adserr_client_invalidparm ∷ adserr_client_listempty ∷ adserr_client_varused
    ∷ adserr_client_duplinvokeid ∷ adserr_client_synctimeout ∷ adserr_client_w32error
    ∷ adserr_client_timeoutinvalid ∷ adserr_client_portnotopen ∷ adserr_client_noamsaddr
    ∷ adserr_client_syncinternal ∷ adserr_client_addhash ∷ adserr_client_removehash
    ∷ adserr_client_nomoresym ∷ adserr_client_syncresinvalid ∷ adserr_client_syncportlocked ∷ []

unfoldable pub ads_error_name : AdsError → String
ads_error_name globalerr_target_port = "GLOBALERR_TARGET_PORT"
ads_error_name globalerr_missing_route = "GLOBALERR_MISSING_ROUTE"
ads_error_name globalerr_no_memory = "GLOBALERR_NO_MEMORY"
ads_error_name globalerr_tcp_send = "GLOBALERR_TCP_SEND"
ads_error_name adserr_device_error = "ADSERR_DEVICE_ERROR"
ads_error_name adserr_device_srvnotsupp = "ADSERR_DEVICE_SRVNOTSUPP"
ads_error_name adserr_device_invalidgrp = "ADSERR_DEVICE_INVALIDGRP"
ads_error_name adserr_device_invalidoffset = "ADSERR_DEVICE_INVALIDOFFSET"
ads_error_name adserr_device_invalidaccess = "ADSERR_DEVICE_INVALIDACCESS"
ads_error_name adserr_device_invalidsize = "ADSERR_DEVICE_INVALIDSIZE"
ads_error_name adserr_device_invaliddata = "ADSERR_DEVICE_INVALIDDATA"
ads_error_name adserr_device_notready = "ADSERR_DEVICE_NOTREADY"
ads_error_name adserr_device_busy = "ADSERR_DEVICE_BUSY"
ads_error_name adserr_device_invalidcontext = "ADSERR_DEVICE_INVALIDCONTEXT"
ads_error_name adserr_device_nomemory = "ADSERR_DEVICE_NOMEMORY"
ads_error_name adserr_device_invalidparm = "ADSERR_DEVICE_INVALIDPARM"
ads_error_name adserr_device_notfound = "ADSERR_DEVICE_NOTFOUND"
ads_error_name adserr_device_syntax = "ADSERR_DEVICE_SYNTAX"
ads_error_name adserr_device_incompatible = "ADSERR_DEVICE_INCOMPATIBLE"
ads_error_name adserr_device_exists = "ADSERR_DEVICE_EXISTS"
ads_error_name adserr_device_symbolnotfound = "ADSERR_DEVICE_SYMBOLNOTFOUND"
ads_error_name adserr_device_symbolversioninvalid = "ADSERR_DEVICE_SYMBOLVERSIONINVALID"
ads_error_name adserr_device_invalidstate = "ADSERR_DEVICE_INVALIDSTATE"
ads_error_name adserr_device_transmodenotsupp = "ADSERR_DEVICE_TRANSMODENOTSUPP"
ads_error_name adserr_device_notifyhndinvalid = "ADSERR_DEVICE_NOTIFYHNDINVALID"
ads_error_name adserr_device_clientunknown = "ADSERR_DEVICE_CLIENTUNKNOWN"
ads_error_name adserr_device_nomorehdls = "ADSERR_DEVICE_NOMOREHDLS"
ads_error_name adserr_device_invalidwatchsize = "ADSERR_DEVICE_INVALIDWATCHSIZE"
ads_error_name adserr_device_notinit = "ADSERR_DEVICE_NOTINIT"
ads_error_name adserr_device_timeout = "ADSERR_DEVICE_TIMEOUT"
ads_error_name adserr_device_nointerface = "ADSERR_DEVICE_NOINTERFACE"
ads_error_name adserr_device_invalidinterface = "ADSERR_DEVICE_INVALIDINTERFACE"
ads_error_name adserr_device_invalidclsid = "ADSERR_DEVICE_INVALIDCLSID"
ads_error_name adserr_device_invalidobjid = "ADSERR_DEVICE_INVALIDOBJID"
ads_error_name adserr_device_pending = "ADSERR_DEVICE_PENDING"
ads_error_name adserr_device_aborted = "ADSERR_DEVICE_ABORTED"
ads_error_name adserr_device_warning = "ADSERR_DEVICE_WARNING"
ads_error_name adserr_device_invalidarrayidx = "ADSERR_DEVICE_INVALIDARRAYIDX"
ads_error_name adserr_device_symbolnotactive = "ADSERR_DEVICE_SYMBOLNOTACTIVE"
ads_error_name adserr_device_accessdenied = "ADSERR_DEVICE_ACCESSDENIED"
ads_error_name adserr_device_licensenotfound = "ADSERR_DEVICE_LICENSENOTFOUND"
ads_error_name adserr_device_licenseexpired = "ADSERR_DEVICE_LICENSEEXPIRED"
ads_error_name adserr_device_licenseexceeded = "ADSERR_DEVICE_LICENSEEXCEEDED"
ads_error_name adserr_device_licenseinvalid = "ADSERR_DEVICE_LICENSEINVALID"
ads_error_name adserr_device_licensesystemid = "ADSERR_DEVICE_LICENSESYSTEMID"
ads_error_name adserr_device_licensenotimelimit = "ADSERR_DEVICE_LICENSENOTIMELIMIT"
ads_error_name adserr_device_licensefutureissue = "ADSERR_DEVICE_LICENSEFUTUREISSUE"
ads_error_name adserr_device_licensetimetolong = "ADSERR_DEVICE_LICENSETIMETOLONG"
ads_error_name adserr_device_exception = "ADSERR_DEVICE_EXCEPTION"
ads_error_name adserr_device_licenseduplicated = "ADSERR_DEVICE_LICENSEDUPLICATED"
ads_error_name adserr_device_signatureinvalid = "ADSERR_DEVICE_SIGNATUREINVALID"
ads_error_name adserr_device_certificateinvalid = "ADSERR_DEVICE_CERTIFICATEINVALID"
ads_error_name adserr_client_error = "ADSERR_CLIENT_ERROR"
ads_error_name adserr_client_invalidparm = "ADSERR_CLIENT_INVALIDPARM"
ads_error_name adserr_client_listempty = "ADSERR_CLIENT_LISTEMPTY"
ads_error_name adserr_client_varused = "ADSERR_CLIENT_VARUSED"
ads_error_name adserr_client_duplinvokeid = "ADSERR_CLIENT_DUPLINVOKEID"
ads_error_name adserr_client_synctimeout = "ADSERR_CLIENT_SYNCTIMEOUT"
ads_error_name adserr_client_w32error = "ADSERR_CLIENT_W32ERROR"
ads_error_name adserr_client_timeoutinvalid = "ADSERR_CLIENT_TIMEOUTINVALID"
ads_error_name adserr_client_portnotopen = "ADSERR_CLIENT_PORTNOTOPEN"
ads_error_name adserr_client_noamsaddr = "ADSERR_CLIENT_NOAMSADDR"
ads_error_name adserr_client_syncinternal = "ADSERR_CLIENT_SYNCINTERNAL"
ads_error_name adserr_client_addhash = "ADSERR_CLIENT_ADDHASH"
ads_error_name adserr_client_removehash = "ADSERR_CLIENT_REMOVEHASH"
ads_error_name adserr_client_nomoresym = "ADSERR_CLIENT_NOMORESYM"
ads_error_name adserr_client_syncresinvalid = "ADSERR_CLIENT_SYNCRESINVALID"
ads_error_name adserr_client_syncportlocked = "ADSERR_CLIENT_SYNCPORTLOCKED"

unfoldable pub ads_error_to_string : (AdsError → ℕ) → ℕ → String
unfolding switch_name ads_error_name
ads_error_to_string value = switch_name value ads_error_name "ADSERR_ERROR_UNKNOWN" all_ads_errors
