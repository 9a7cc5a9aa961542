-- ===== src/Poll/Aligned.antt =====
-- adsApp/src/adsAsynPortDriver.cpp, bulkReadThread: the two pointers that a pass moves through the
-- reply of a bulk read, and the reply read by position.
use twincat_ads.Ads.{AdsParamInfo}
use twincat_ads.Asyn.{AsynApi, AlarmCodes}
use twincat_ads.EtherCat.{le_number}
use twincat_ads.Bulk.{SumEntry, BulkReadInfo}
use twincat_ads.Transfer.Decode.{Floats}
use twincat_ads.Poll.{PollState, update_slot, with_slot}
use twincat_ads.Base.{
  ℕ, zero, suc, ◌+◌, ◌*◌, ◌≤◌, ◌<◌, ◌≡◌, List, Option, none, some, ◌==◌, take, drop, get_elem?, not,
}

-- Where the data of slot `j` starts, behind the status words: the sizes of the requests before it.
unfoldable pub data_offset : ℕ → (ℕ → SumEntry) → ℕ
data_offset zero sum = 0
data_offset (suc j) sum = data_offset j sum + (sum j).i_size

-- Every slot behind the two for time stamps belongs to a parameter, of the size that the slot asks for.
abbrev pub IsSized : BulkReadInfo → List AdsParamInfo → Type 0
IsSized b params =
    (j : ℕ)
    → 2 ≤ j
    → j < b.cnt
    → (p : AdsParamInfo) × (get_elem? params (b.param_id j) ≡ some p)
      × (p.plc_size ≡ (b.sum j).i_size)

module _ {F W : Type 0} (fl : Floats F) (asyn : AsynApi F W) (alarms : AlarmCodes)
    (posix_at_epics : ℕ) where
  -- The reply read by position: the status of slot `j` is word `j`, and its data follow the data of
  -- the slots before it.
  unfoldable pub read_slots_by_position : ℕ → ℕ → List ℕ → BulkReadInfo → PollState W → PollState W
  read_slots_by_position zero j reply b s = s
  read_slots_by_position (suc n) j reply b s = elim (get_elem? s.params (b.param_id j)) [
    | none ↦ s
    | some p ↦ read_slots_by_position n (suc j) reply b (
        with_slot fl asyn alarms posix_at_epics s (b.param_id j) (
          update_slot fl asyn alarms posix_at_epics
            (not (le_number (take 4 (drop (j * 4) reply)) == 0))
            (drop (b.cnt * 4 + data_offset j b.sum) reply) p s.queue s.world))
  ]

  -- An update of the asyn value keeps the sizes of its parameter.
  abbrev IsKept : AdsParamInfo → AdsParamInfo → Type 0
  IsKept p q = (q.plc_size ≡ p.plc_size) × (q.last_callback_size ≡ p.last_callback_size)

  abbrev size_of : Option AdsParamInfo → ℕ
  size_of none = 0
  size_of (some p) = p.plc_size
