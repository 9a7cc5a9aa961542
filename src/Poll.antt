-- ===== src/Poll.antt =====
-- adsApp/src/adsAsynPortDriver.cpp: getAdsParamInfo, and bulkReadThread, one pass over the table of
-- bulk reads. `bulk_ok` gives the flag bulkOK as the pass finds it at each entry, since other threads
-- change it. The waits and the shutdown of the thread are left out.
pub mod Aligned
use twincat_ads.Ads.{AdsParamInfo, AdsApi}
use twincat_ads.Asyn.{AsynApi, AlarmCodes}
use twincat_ads.Notify.{addr}
use twincat_ads.EtherCat.{le_number}
use twincat_ads.Bulk.{SumEntry, BulkReadInfo, maxbulk}
use twincat_ads.Transfer.Decode.{Floats}
use twincat_ads.Transfer.Value.{Queue, ads_update_parameter}
use twincat_ads.Base.{
  ℕ, zero, suc, ◌+◌, ◌-◌, ◌*◌, Bool, true, false, List, [], ◌∷◌, ◌++◌, Option, none, some, ◌==◌,
  if◌then◌else◌, length, take, drop, get_elem?, set, not, ◌||◌,
}

pub record PollState (W : Type 0) : Type 0 where
  pub params : List AdsParamInfo
  pub queue : Queue
  pub bulkdata : List ℕ
  pub world : W

abbrev pub get_ads_param_info : ℕ → List AdsParamInfo → Option AdsParamInfo
get_ads_param_info i params = get_elem? params i

-- The requests of an entry, from the `i`-th on.
unfoldable pub requests : ℕ → ℕ → (ℕ → SumEntry) → List (ℕ × ℕ × ℕ)
requests zero i sum = []
requests (suc n) i sum =
    ((sum i).i_group, (sum i).i_offset, (sum i).i_size) ∷ requests n (suc i) sum

module _ {F W : Type 0} (fl : Floats F) (asyn : AsynApi F W) (alarms : AlarmCodes)
    (posix_at_epics : ℕ) where
  -- A slot whose request failed updates its parameter too.
  unfoldable pub update_slot : Bool → List ℕ → AdsParamInfo → Queue → W → AdsParamInfo × Queue × W
  update_slot slot_failed srd p q w =
      let (status, p', q', w') =
        ads_update_parameter fl asyn alarms posix_at_epics srd q
          (record p {
            refresh_needed = if slot_failed then true else p.refresh_needed;
            plc_time_stamp_raw = 0;
            last_callback_size = p.plc_size;
          })
          w in
      (p', q', w')

  abbrev pub with_slot : PollState W → ℕ → AdsParamInfo × Queue × W → PollState W
  with_slot s i (p, q, w) = record s { params = set s.params i p; queue = q; world = w }

  -- The loop over the slots from `j` on, with its two pointers into the reply. A slot without a
  -- parameter moves neither pointer.
  unfoldable pub read_slots : ℕ → ℕ → List ℕ → List ℕ → BulkReadInfo → PollState W → PollState W
  read_slots zero j stat srd b s = s
  read_slots (suc n) j stat srd b s = elim (get_ads_param_info (b.param_id j) s.params) [
    | none ↦ read_slots n (suc j) stat srd b s
    | some p ↦
        let r = update_slot (not (le_number (take 4 stat) == 0)) srd p s.queue s.world in
        read_slots n (suc j) (drop 4 stat) (drop r.0.last_callback_size srd) b
          (with_slot s (b.param_id j) r)
  ]

  -- The two time stamp slots are skipped.
  unfoldable pub read_reply : BulkReadInfo → PollState W → PollState W
  unfolding read_slots
  read_reply b s =
      read_slots (b.cnt - 2) 2 (drop 8 s.bulkdata)
        (drop ((b.sum 1).i_size) (drop ((b.sum 0).i_size) (drop (b.cnt * 4) s.bulkdata))) b s

  module _ (api : AdsApi W) (remote_net_id : List ℕ) (client : ℕ) where
    open api use {sum_up_read}

    -- The reply overwrites the start of `bulkdata`.
    unfoldable pub replied : BulkReadInfo → PollState W → ℕ × List ℕ × W → PollState W
    unfolding read_reply
    replied b s (status, reply, w) =
        let s' = record s { bulkdata = reply ++ drop (length reply) s.bulkdata; world = w } in
        if status == 0 then read_reply b s' else s'

    unfoldable pub poll_entry : BulkReadInfo → PollState W → PollState W
    poll_entry b s = replied b s (
        sum_up_read client (addr api remote_net_id client b.ams_port) b.cnt b.read_size
          (requests b.cnt 0 b.sum) s.world)

    -- `n` entries are left in the array.
    unfoldable pub poll_from : ℕ → ℕ → (ℕ → Bool) → (ℕ → BulkReadInfo) → PollState W → PollState W
    poll_from zero i bulk_ok bulk s = s
    poll_from (suc n) i bulk_ok bulk s =
        let rest = poll_from n (suc i) bulk_ok bulk (poll_entry (bulk i) s) in
        if (bulk i).cnt == 0 || not (bulk_ok i) then s else rest

    abbrev pub poll : (ℕ → Bool) → (ℕ → BulkReadInfo) → PollState W → PollState W
    poll bulk_ok bulk s = poll_from maxbulk 0 bulk_ok bulk s
