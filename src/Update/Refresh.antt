-- ===== src/Update/Refresh.antt =====
-- adsApp/src/adsAsynPortDriver.cpp: refreshParams, which updates the parameters that need it, and
-- invalidateParams, which marks them.
use twincat_ads.Ads.{AdsParamInfo, AmsPortInfo, AdsApi}
use twincat_ads.Notify.{ads_add_symbols_changed_callback, ads_del_symbols_changed_callback}
use twincat_ads.Bulk.{BulkState, BulkReadInfo, TsEntry, maxbulk}
use twincat_ads.Base.{
  ℕ, zero, suc, Bool, true, false, ◌&&◌, ◌||◌, List, [], ◌∷◌, map, AsynStatus, asyn_success, ltb,
  ◌==◌, if◌then◌else◌,
}
use twincat_ads.Update.{UpdateEnv, update_param_info_with_plc_info}

-- What these functions use of the driver: the used part of adsParamArray_, the port list, the table of
-- bulk reads and two flags.
pub record Driver : Type 0 where
  pub params : List AdsParamInfo
  pub ports : List AmsPortInfo
  pub bulks : BulkState
  pub connected_ads : Bool
  pub bulk_ok : Bool

-- Port 0 stands for all ports.
abbrev pub concerns : ℕ → ℕ → Bool
concerns ams_port port = ams_port == 0 || port == ams_port

-- The loop over adsParamArray_[1 ..]: the first parameter belongs to the octet interface.
abbrev pub on_tail {ℓ} : {A : Type ℓ} → (List A → List A) → List A → List A
on_tail f [] = []
on_tail f (x ∷ xs) = x ∷ f xs

unfoldable pub invalidate_list : ℕ → List AdsParamInfo → List AdsParamInfo
invalidate_list ams_port = map {A = AdsParamInfo} λ p. record p {
  refresh_needed = if concerns ams_port p.ams_port then true else p.refresh_needed;
}

unfoldable pub invalidate_stamps : ℕ → BulkState → ℕ → TsEntry
invalidate_stamps ams_port s i =
    if ltb i s.bulk_ts_cnt && concerns ams_port (s.bulk_ts i).ams_port
    then record (s.bulk_ts i) { refresh_needed = true }
    else s.bulk_ts i

-- The loop stops at the first unused entry.
unfoldable pub invalidate_bulks : ℕ → ℕ → ℕ → (ℕ → BulkReadInfo) → ℕ → BulkReadInfo
invalidate_bulks zero ams_port i bulk = bulk
invalidate_bulks (suc n) ams_port i bulk =
    let rest = invalidate_bulks n ams_port (suc i) (λ j.
      if i == j && concerns ams_port (bulk i).ams_port
      then record (bulk i) { read_size = 16 }
      else bulk j) in
    if (bulk i).cnt == 0 then bulk else rest

unfoldable pub invalidate_params : Driver → ℕ → AsynStatus × Driver
unfolding invalidate_list invalidate_stamps
invalidate_params d ams_port = (
  asyn_success,
  record d {
    bulk_ok = false;
    params = on_tail (invalidate_list ams_port) d.params;
    bulks = record {
      bulk_ts = invalidate_stamps ams_port d.bulks;
      bulk_ts_cnt = d.bulks.bulk_ts_cnt;
      overrun = d.bulks.overrun;
      bulk = invalidate_bulks maxbulk ams_port 0 d.bulks.bulk;
    };
  },
)

module _ {W : Type 0} (api : AdsApi W) (remote_net_id : List ℕ) (client : ℕ) (env : UpdateEnv) where
  unfoldable pub refresh_param : ℕ → AdsParamInfo → BulkState → W → AdsParamInfo × BulkState × W
  refresh_param ams_port p s w =
      let (status, p', s', w') =
        update_param_info_with_plc_info api remote_net_id client env p s w in
      if concerns ams_port p.ams_port && p.refresh_needed then (p', s', w') else (p, s, w)

  unfoldable pub refresh_list :
      ℕ → List AdsParamInfo → BulkState → W → List AdsParamInfo × BulkState × W
  refresh_list ams_port [] s w = ([], s, w)
  refresh_list ams_port (p ∷ ps) s w =
      let (p', s', w') = refresh_param ams_port p s w in
      let (ps', t, v) = refresh_list ams_port ps s' w' in (p' ∷ ps', t, v)

  unfoldable pub refresh_tail :
      ℕ → List AdsParamInfo → BulkState → W → List AdsParamInfo × BulkState × W
  unfolding refresh_list
  refresh_tail ams_port [] s w = ([], s, w)
  refresh_tail ams_port (p ∷ ps) s w =
      let (ps', t, v) = refresh_list ams_port ps s w in (p ∷ ps', t, v)

  unfoldable pub renew_version_callback : AsynStatus × AmsPortInfo × W → AmsPortInfo × W
  renew_version_callback (_, port, w) =
      let (r, port', w') =
        ads_add_symbols_changed_callback api remote_net_id client env.notify port w in
      (port', w')

  -- Here port 0 does not stand for all ports.
  unfoldable pub refresh_port : ℕ → AmsPortInfo → W → AmsPortInfo × W
  unfolding renew_version_callback
  refresh_port ams_port port w =
      if port.ams_port == ams_port && port.refresh_needed
      then renew_version_callback (
          if port.callback_notify_valid
          then ads_del_symbols_changed_callback api remote_net_id client port w
          else (asyn_success, port, w))
      else (port, w)

  unfoldable pub refresh_ports : ℕ → List AmsPortInfo → W → List AmsPortInfo × W
  unfolding refresh_port
  refresh_ports ams_port [] w = ([], w)
  refresh_ports ams_port (port ∷ ports) w =
      let (port', w') = refresh_port ams_port port w in
      let (ports', v) = refresh_ports ams_port ports w' in (port' ∷ ports', v)

  unfoldable pub refresh_connected : ℕ → Driver → W → Driver × W
  unfolding refresh_tail refresh_ports
  refresh_connected ams_port d w =
      let (ps, s, w') = refresh_tail ams_port d.params d.bulks w in
      let (ports, v) = refresh_ports ams_port d.ports w' in
      (record d { params = ps; ports = ports; bulks = s }, v)

  unfoldable pub refresh_params : ℕ → Driver → W → AsynStatus × Driver × W
  unfolding refresh_connected
  refresh_params ams_port d w =
      let (d', w') = if d.connected_ads then refresh_connected ams_port d w else (d, w) in
      (asyn_success, record d' { bulk_ok = true }, w')
