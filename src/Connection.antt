-- ===== src/Connection.antt =====
-- adsApp/src/adsAsynPortDriver.cpp, the connection to the PLC's router: adsAddRoute,
-- adsAddEthercatRoute, adsDelRoute, adsConnect, adsDisconnect, connect and disconnect. asyn's own
-- connect and disconnect are parameters. `client` is the port of connect's AdsClientPortGuard.
pub mod Laws
use twincat_ads.Ads.{AdsApi}
use twincat_ads.EtherCat.{Master, ethercat_master_is_available}
use twincat_ads.Base.{
  ℕ, Bool, true, false, List, [], ◌∷◌, String, AsynStatus, asyn_success, asyn_error, failed, ◌==◌,
  if◌then◌else◌, not, ◌&&◌, ◌||◌,
}

-- The fields of the driver that the connection keeps.
pub record Routes : Type 0 where
  pub route_added : Bool
  pub ethercat_route_added : Bool
  pub connected_ads : Bool

-- memcmp on the bytes of two net ids.
unfoldable pub same_net_id : List ℕ → List ℕ → Bool
same_net_id [] [] = true
same_net_id (x ∷ xs) (y ∷ ys) = x == y && same_net_id xs ys
same_net_id _ _ = false

-- asynPortDriver::connect and asynPortDriver::disconnect.
pub record BaseConnect (W : Type 0) : Type 0 where
  pub base_connect : W → AsynStatus × W
  pub base_disconnect : W → AsynStatus × W

module _ {W : Type 0} (api : AdsApi W) (remote_net_id : List ℕ) (ipaddr : String) where
  open api use {add_route, del_route, get_timeout, set_timeout, device_exists}

  unfoldable pub route_answered : Routes → ℕ × W → AsynStatus × Routes × W
  route_answered r (status, w) =
      if not (status == 0)
      then (asyn_error, r, w)
      else (asyn_success, record r { route_added = true }, w)

  unfoldable pub ads_add_route : Routes → W → AsynStatus × Routes × W
  unfolding route_answered
  ads_add_route r w = route_answered r (add_route remote_net_id ipaddr w)

  unfoldable pub ethercat_route_answered : Routes → ℕ × W → AsynStatus × Routes × W
  ethercat_route_answered r (status, w) =
      if status == device_exists
      then (asyn_success, r, w)
      else if not (status == 0)
      then (asyn_error, r, w)
      else (asyn_success, record r { ethercat_route_added = true }, w)

  unfoldable pub ads_add_ethercat_route : Master → Routes → W → AsynStatus × Routes × W
  unfolding ethercat_route_answered same_net_id
  ads_add_ethercat_route m r w =
      if not (ethercat_master_is_available m)
        || same_net_id m.net_id remote_net_id
        || r.ethercat_route_added
      then (asyn_success, r, w)
      else ethercat_route_answered r (add_route m.net_id ipaddr w)

  unfoldable pub remote_route_deleted : Bool → Routes → W → Routes × W
  remote_route_deleted force r w =
      if r.route_added || force
      then (record r { route_added = false }, del_route remote_net_id w)
      else (r, w)

  unfoldable pub ethercat_route_deleted : Master → Routes → W → Routes × W
  ethercat_route_deleted m r w =
      if r.ethercat_route_added
      then (record r { ethercat_route_added = false }, del_route m.net_id w)
      else (r, w)

  unfoldable pub ads_del_route : Bool → Master → Routes → W → AsynStatus × Routes × W
  unfolding remote_route_deleted ethercat_route_deleted
  ads_del_route force m r w =
      let (r', w') = remote_route_deleted force r w in
      let (r'', w'') = ethercat_route_deleted m r' w' in (asyn_success, r'', w'')

  unfoldable pub ads_disconnect : Master → Routes → W → AsynStatus × Routes × W
  unfolding ads_del_route
  ads_disconnect m r w = let (_, r', w') = ads_del_route true m r w in (asyn_success, r', w')

  unfoldable pub route_tried : Master → AsynStatus × Routes × W → Routes × W
  unfolding ads_del_route
  route_tried m (status, r, w) =
      let (_, r', w') = ads_del_route true m r w in if failed status then (r', w') else (r, w)

  unfoldable pub timeout_set : Routes → ℕ × W → AsynStatus × Routes × W
  timeout_set r (status, w) = (if not (status == 0) then asyn_error else asyn_success, r, w)

  unfoldable pub timeout_updated : ℕ → ℕ → Routes → ℕ × W → AsynStatus × Routes × W
  unfolding timeout_set
  timeout_updated client timeout r (status, w) =
      if not (status == 0) then (asyn_error, r, w) else timeout_set r (set_timeout client timeout w)

  -- A route that could not be added does not stop the function.
  unfoldable pub ads_connect : ℕ → ℕ → Master → Routes → W → AsynStatus × Routes × W
  unfolding ads_add_route route_tried timeout_updated
  ads_connect client timeout m r w =
      let (r', w') = if r.route_added then (r, w) else route_tried m (ads_add_route r w) in
      timeout_updated client timeout r' (get_timeout client w')

  module _ (base : BaseConnect W) where
    open base use {base_connect, base_disconnect}

    unfoldable pub base_connected : Routes → AsynStatus × W → AsynStatus × Routes × W
    base_connected r (status, w) =
        if failed status
        then (asyn_error, r, w)
        else (asyn_success, record r { connected_ads = true }, w)

    unfoldable pub ethercat_routed : AsynStatus × Routes × W → AsynStatus × Routes × W
    unfolding base_connected
    ethercat_routed (status, r, w) =
        if failed status then (asyn_error, r, w) else base_connected r (base_connect w)

    unfoldable pub ads_connected : Master → AsynStatus × Routes × W → AsynStatus × Routes × W
    unfolding ethercat_routed ads_add_ethercat_route
    ads_connected m (status, r, w) =
        if failed status
        then (asyn_error, r, w)
        else ethercat_routed (
            if ethercat_master_is_available m
            then ads_add_ethercat_route m r w
            else (asyn_success, r, w))

    unfoldable pub connect : ℕ → ℕ → Master → Routes → W → AsynStatus × Routes × W
    unfolding ads_connect ads_connected
    connect client timeout m r w = ads_connected m (ads_connect client timeout m r w)

    -- The routes are kept.
    unfoldable pub disconnect : Routes → W → AsynStatus × Routes × W
    disconnect r w =
        let (status, w') = base_disconnect w in
        (if failed status then asyn_error else asyn_success, r, w')
