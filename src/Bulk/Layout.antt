-- ===== src/Bulk/Layout.antt =====
-- adsApp/src/adsAsynPortDriver.cpp, adsAddToBulkRead: the shape of the table of bulk reads, and where
-- the slot of a parameter lies in it.
use twincat_ads.Base.Int.{pos}
use twincat_ads.Ads.{AdsParamInfo, AdsApi}
use twincat_ads.Bulk.{
  SumEntry, BulkReadInfo, BulkState, search_from, maxbulk, bulksiz, open_bulk, append_param,
  fill_slot, allocate, slot_of,
}
use native.Mathlib.Decide.{dec_lt}
use twincat_ads.Base.{
  ℕ, zero, suc, ◌+◌, ◌%◌, ◌^◌, ◌≤◌, ◌<◌, ◌≡◌, ◌⊎◌, Bool, true, false, List, arith,
}

pub search_from_bounds :
    (n : ℕ) (test : ℕ → Bool) (i : ℕ) → (i ≤ search_from n test i) × (search_from n test i ≤ i + n)
unfolding search_from
search_from_bounds zero test i = omega arith
search_from_bounds (suc n) test i = ground (arith, search_from_bounds n test (suc i))

pub search_from_hit :
    (n : ℕ) (test : ℕ → Bool) (i : ℕ)
    → search_from n test i < i + n
    → test (search_from n test i) ≡ true
unfolding search_from
search_from_hit zero test i h = absurd (omega arith)
search_from_hit (suc n) test i h = ground (arith, search_from_hit n test (suc i))

pub search_from_first :
    (n : ℕ) (test : ℕ → Bool) (i j : ℕ) → i ≤ j → j < search_from n test i → test j ≡ false
unfolding search_from
search_from_first zero test i j lo hi = absurd (omega arith)
search_from_first (suc n) test i j lo hi = elim (dec_lt i j) [
  | yes later ↦ ground (arith, search_from_first n test (suc i) j later)
  | no first ↦ let here : i ≡ j = omega arith in rw (← here) (ground arith)
]

-- Bytes of the reply: a status and the data for each slot.
pub total : ℕ → (ℕ → SumEntry) → ℕ
total zero sum = 0
total (suc n) sum = total n sum + ((sum n).i_size + 4)

-- A used entry.
pub record IsFilled (b : BulkReadInfo) : Type 0 where
  pub two_stamps : 2 ≤ b.cnt
  pub fits : b.cnt ≤ bulksiz
  pub reply_size : b.read_size ≡ total b.cnt b.sum % 2 ^ 32

pub record IsLaidOut (s : BulkState) : Type 0 where
  pub entries : (i : ℕ) → ((s.bulk i).cnt ≡ 0) ⊎ IsFilled (s.bulk i)
  -- The loops over `bulk` stop at the first unused entry.
  pub in_order : (i : ℕ) → (s.bulk i).cnt ≡ 0 → (s.bulk (suc i)).cnt ≡ 0
  -- Nothing was written behind the end of bulkTS.
  pub intact : s.overrun ≡ false

module _ {W : Type 0} (api : AdsApi W) (remote_net_id : List ℕ) (client : ℕ) where
  -- The entry that a new request goes to, after its time stamp slots are there.
  record IsOpen (ams_port : ℕ) (b : BulkReadInfo) : Type 0 where
    stamps : 2 ≤ b.cnt
    room : b.cnt < bulksiz
    size : b.read_size ≡ total b.cnt b.sum % 2 ^ 32
    port : b.ams_port ≡ ams_port

  -- What the new slot of a parameter holds.
  pub record IsPlaced (p q : AdsParamInfo) (i : ℕ) (s : BulkState) : Type 0 where
    pub offset : ℕ
    pub assigned : (q.bulk_index ≡ pos i) × (q.bulk_offset ≡ pos offset)
    pub in_arrays : (i < maxbulk) × (2 ≤ offset) × (offset < bulksiz)
    pub counted : (s.bulk i).cnt ≡ suc offset
    pub request : (s.bulk i).sum offset ≡ slot_of api remote_net_id client p
    pub owner : (s.bulk i).param_id offset ≡ p.param_index
    pub same_port : (s.bulk i).ams_port ≡ p.ams_port

  allocated :
      (p : AdsParamInfo) (s : BulkState) (w : W) (i : ℕ)
      → i < maxbulk
      → allocate api remote_net_id client p s w i
        ≡ fill_slot api remote_net_id client (
            append_param api remote_net_id client i p
              (open_bulk api remote_net_id client i p.ams_port s w))
  unfolding allocate
  allocated p s w i h = ground arith
