-- ===== src/Callback.antt =====
-- adsApp/src/adsAsynPortDriver.cpp: adsDataCallback, which AdsLib's thread runs and which queues a
-- notification, dataCallbackThread, which takes them from the queue, and adsSymbolsChangedCallback.
-- A pointer to a parameter is its index. The times that only traces use are left out.
pub mod Order
pub mod Drain
use twincat_ads.Ads.{AdsApi, AdsParamInfo}
use twincat_ads.Asyn.{AsynApi, AlarmCodes}
use twincat_ads.Poll.{get_ads_param_info}
use twincat_ads.Transfer.Decode.{Floats}
use twincat_ads.Transfer.Value.{Queue, ads_update_parameter}
use twincat_ads.Update.{UpdateEnv}
use twincat_ads.Update.Refresh.{Driver, refresh_params, invalidate_params}
use twincat_ads.Base.{
  ℕ, ◌+◌, ◌-◌, ◌%◌, ◌^◌, Bool, true, false, List, [], ◌∷◌, ◌++◌, Option, none, some, ltb, ◌==◌,
  if◌then◌else◌, length, take, set, not, ◌||◌,
}

-- AdsNotificationHeader, of AdsLib, and the data behind it.
pub record Notification : Type 0 where
  pub time_stamp : ℕ
  pub sample_size : ℕ
  pub bytes : List ℕ

pub record DataCbInfo : Type 0 where
  pub param : ℕ
  pub bytes : List ℕ
  pub time_stamp : ℕ
  pub sample_size : ℕ

abbrev pub maxcbqsize : ℕ
maxcbqsize = 10000

-- The parameters, datacbqueue, the parameters whose array callbacks are due, and the world.
pub record CallbackState (W : Type 0) : Type 0 where
  pub params : List AdsParamInfo
  pub datacbqueue : List DataCbInfo
  pub queue : Queue
  pub world : W

-- `table_size - 1` is cast to `uint32_t`.
unfoldable pub in_table : ℕ → ℕ → Bool
in_table table_size h_user = not (ltb ((table_size + (2 ^ 32 - 1)) % 2 ^ 32) h_user)

abbrev pub queued_info : ℕ → Notification → DataCbInfo
queued_info h_user n = record {
  param = h_user;
  bytes = take n.sample_size n.bytes;
  time_stamp = n.time_stamp;
  sample_size = n.sample_size;
}

-- The entry that a notification adds to a queue of this length, if any.
unfoldable pub accepted : ℕ → Bool → List AdsParamInfo → ℕ → ℕ → Notification → Option DataCbInfo
accepted table_size malloc_succeeds params len h_user n =
    if not (in_table table_size h_user) then none else elim (get_ads_param_info h_user params) [
      | none ↦ none
      | some p ↦
          if ltb maxcbqsize len || not (h_user == p.param_index) || not malloc_succeeds
          then none
          else some (queued_info h_user n)
    ]

abbrev pub pushed : List DataCbInfo → Option DataCbInfo → List DataCbInfo
pushed queue none = queue
pushed queue (some info) = queue ++ info ∷ []

unfoldable pub ads_data_callback :
    {W : Type 0} → ℕ → Bool → ℕ → Notification → CallbackState W → CallbackState W
ads_data_callback table_size malloc_succeeds h_user n s = record s {
  datacbqueue =
      pushed s.datacbqueue
        (accepted table_size malloc_succeeds s.params (length s.datacbqueue) h_user n);
}

-- What a turn of the thread does: it ends, waits, or takes the first entry.
pub data Turn : Type 0 where
  ended waited : Turn
  took : DataCbInfo → Turn

module _ {F W : Type 0} (fl : Floats F) (asyn : AsynApi F W) (alarms : AlarmCodes)
    (posix_at_epics : ℕ) where
  unfoldable pub delivered_to :
      DataCbInfo → List DataCbInfo → AdsParamInfo → CallbackState W → CallbackState W
  delivered_to info rest p s =
      let (_, p', q, w) =
        ads_update_parameter fl asyn alarms posix_at_epics info.bytes s.queue
          (record p { plc_time_stamp_raw = info.time_stamp; last_callback_size = info.sample_size })
          s.world in
      record { params = set s.params info.param p'; datacbqueue = rest; queue = q; world = w }

  -- The pointer of an entry always points to a parameter.
  unfoldable pub delivered : DataCbInfo → List DataCbInfo → CallbackState W → CallbackState W
  unfolding delivered_to
  delivered info rest s = elim (get_ads_param_info info.param s.params) [
    | none ↦ record s { datacbqueue = rest }
    | some p ↦ delivered_to info rest p s
  ]

  unfoldable pub take_first : List DataCbInfo → CallbackState W → Turn × CallbackState W
  take_first [] s = (waited, s)
  take_first (info ∷ rest) s = (took info, delivered info rest s)

  unfoldable pub data_callback_turn : Bool → Bool → CallbackState W → Turn × CallbackState W
  unfolding take_first
  data_callback_turn stop_threads allow_callback_epics_state s =
      if stop_threads
      then (ended, s)
      else if not allow_callback_epics_state
      then (waited, s)
      else take_first s.datacbqueue s

module _ {W : Type 0} (api : AdsApi W) (remote_net_id : List ℕ) (client : ℕ) (env : UpdateEnv) where
  unfoldable pub ads_symbols_changed_callback : ℕ → Driver → W → Driver × W
  ads_symbols_changed_callback port d w =
      let (_, d') = invalidate_params d port in
      let (_, d'', w') = refresh_params api remote_net_id client env port d' w in (d'', w')
