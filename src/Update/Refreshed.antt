-- ===== src/Update/Refreshed.antt =====
-- adsApp/src/adsAsynPortDriver.cpp, refreshParams: what a refresh does to each parameter of the
-- driver.
use twincat_ads.Ads.{AdsParamInfo, AdsApi, plc}
use twincat_ads.Bulk.{BulkState}
use twincat_ads.Update.{UpdateEnv, update_param_info_with_plc_info}
use twincat_ads.Update.Outcome.{IsOutcome}
use twincat_ads.Update.Refresh.{concerns}
use twincat_ads.Base.{ℕ, ◌≡◌, Bool, true, false, ◌&&◌, List}

-- The parameters that a refresh of `ams_port` updates.
abbrev pub is_due : ℕ → AdsParamInfo → Bool
is_due ams_port p = concerns ams_port p.ams_port && p.refresh_needed

module _ {W : Type 0} (api : AdsApi W) (remote_net_id : List ℕ) (client : ℕ) (env : UpdateEnv) where
  -- What a refresh makes of the parameter `p`: it is kept if it is not due; otherwise it is what an
  -- update from some table and world makes of it, and so, if its data is in the PLC, is left with the
  -- outcome of that update's status.
  pub data IsRefreshed (ams_port : ℕ) (p : AdsParamInfo) : AdsParamInfo → Type 0 where
    kept : is_due ams_port p ≡ false → IsRefreshed ams_port p p
    updated :
        (s : BulkState) (w : W)
        → is_due ams_port p ≡ true
        → (p.data_source ≡ plc
            → IsOutcome
                (update_param_info_with_plc_info api remote_net_id client env p s w).0
                p
                (update_param_info_with_plc_info api remote_net_id client env p s w).1)
        → IsRefreshed ams_port p
            (update_param_info_with_plc_info api remote_net_id client env p s w).1
