-- ===== src/Transfer/Laws.antt =====
-- adsApp/src/adsAsynPortDriver.cpp, adsWriteParam and adsReadParam: what a synchronous write or read
-- asks of the PLC.
use twincat_ads.Ads.{AmsAddr, AdsParamInfo, AdsApi}
use twincat_ads.Notify.{resolve_access, access_group, access_offset}
use twincat_ads.EtherCat.{Master, check_ethercat_master_for_param, ads_target_net_id_for_param}
use twincat_ads.Transfer.{server, written, write_resolved, write_checked, ads_write_param}
use twincat_ads.Base.{
  ℕ, ◌≡◌, sym, Bool, true, false, List, AsynStatus, asyn_success, asyn_error, asyn_timeout, arith,
}

module _ {W : Type 0} (api : AdsApi W) (remote_net_id : List ℕ) (client : ℕ) where
  open api use {read_bytes, write_bytes}

  -- The access that a write or read of `p` makes, if it makes one: the parameter and the state of the
  -- world once the EtherCAT check has passed and the access is resolved.
  pub data IsResolved (p : AdsParamInfo) (m : Master) (w : W)
      : AdsParamInfo → Master → W → Type 0 where
    resolved :
        (m' : Master) (q : AdsParamInfo) (w' w'' : W)
        → check_ethercat_master_for_param api remote_net_id client p m w ≡ (true, m', w')
        → resolve_access api remote_net_id client p w' ≡ (asyn_success, q, w'')
        → IsResolved p m w q m' w''

  write_resolved-success :
      (a : AmsAddr) (buffer : List ℕ) (st : AsynStatus) (p : AdsParamInfo) (w : W)
      (q : AdsParamInfo) (w' : W)
      → write_resolved api remote_net_id client a buffer (st, p, w) ≡ (asyn_success, q, w')
      → (st ≡ asyn_success)
        × (p ≡ q)
        × (write_bytes client a
              (access_group api remote_net_id client p)
              (access_offset api remote_net_id client p)
              p.plc_size
              buffer
              w
            ≡ (0, w'))
  unfolding write_resolved written
  write_resolved-success a buffer asyn_error p w q w' h = ground arith
  write_resolved-success a buffer asyn_timeout p w q w' h = ground arith
  write_resolved-success a buffer asyn_success p w q w' h = ground arith

  write_checked-success :
      (p : AdsParamInfo) (buffer : List ℕ) (ok : Bool) (m : Master) (w : W) (q : AdsParamInfo)
      (m' : Master) (w' : W)
      → write_checked api remote_net_id client p buffer (ok, m, w) ≡ (asyn_success, q, m', w')
      → (ok ≡ true)
        × (m ≡ m')
        × (write_resolved api remote_net_id client
              (server api remote_net_id client m p)
              buffer
              (resolve_access api remote_net_id client p w)
            ≡ (asyn_success, q, w'))
  unfolding write_checked
  write_checked-success p buffer false m w q m' w' h = ground arith
  write_checked-success p buffer true m w q m' w' h = ground arith

  pub ads_write_param_success :
      (p : AdsParamInfo) (buffer : List ℕ) (m : Master) (w : W) (q : AdsParamInfo) (m' : Master)
      (w' : W)
      → ads_write_param api remote_net_id client false p buffer m w ≡ (asyn_success, q, m', w')
      → (w'' : W) × IsResolved p m w q m' w''
        × (write_bytes client
              (record {
                net_id = ads_target_net_id_for_param api remote_net_id client p m';
                port = p.ams_port;
              })
              (access_group api remote_net_id client q)
              (access_offset api remote_net_id client q)
              q.plc_size
              buffer
              w''
            ≡ (0, w'))
  unfolding ads_write_param server
  ads_write_param_success p buffer m w q m' w' h =
      let (ok, m1, w1) = check_ethercat_master_for_param api remote_net_id client p m w in
      let c = write_checked-success p buffer ok m1 w1 q m' w' h in
      let (st, q1, w2) = resolve_access api remote_net_id client p w1 in
      let d =
        write_resolved-success (server api remote_net_id client m1 p) buffer st q1 w2 q w' c.2 in
      (
        w2,
        resolved m' q w1 w2 (λ i. (c.0 i, c.1 i, w1)) (λ i. (d.0 i, d.1 i, w2)),
        rw (sym c.1, sym d.1) d.2,
      )
