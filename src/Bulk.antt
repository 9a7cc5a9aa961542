-- ===== src/Bulk.antt =====
-- adsApp/src/adsAsynPortDriver.cpp and adsAsynPortDriver.h, the table of bulk (SUMUP) reads:
-- adsAddToBulkRead and adsFindBulkTimeStamp. The C arrays `bulk`, `bulkTS`, `sum` and `paramID` are
-- functions on indices; a write behind the end of bulkTS is noted in the state.
pub mod Layout
pub mod Stamps
use mathlib.Core.Option.{get_or}
use twincat_ads.Base.Int.{ℤ, pos, negsuc}
use twincat_ads.Ads.{AmsAddr, AdsParamInfo, AdsApi}
use twincat_ads.Base.{
  ℕ, zero, suc, ◌+◌, ◌*◌, ◌≡◌, Bool, true, false, ◌&&◌, ◌||◌, not, List, Option, none, some,
  AsynStatus, asyn_success, asyn_error, ltb, ◌%◌, ◌^◌, ◌==◌, if◌then◌else◌,
}

abbrev pub maxtsentry : ℕ
maxtsentry = 10

abbrev pub maxbulk : ℕ
maxbulk = 2000

abbrev pub bulksiz : ℕ
bulksiz = 500

pub record TsEntry : Type 0 where
  pub ams_port : ℕ
  pub i_handle_h : ℕ
  pub i_handle_l : ℕ
  pub refresh_needed : Bool

pub record SumEntry : Type 0 where
  pub i_group : ℕ
  pub i_offset : ℕ
  pub i_size : ℕ

-- `read_size` is the 32-bit pattern of readSize, an `int` that is only read as a `uint32_t`.
pub record BulkReadInfo : Type 0 where
  pub cnt : ℕ
  pub ams_port : ℕ
  pub sum : ℕ → SumEntry
  pub param_id : ℕ → ℕ
  pub read_size : ℕ

-- `overrun` says that an entry was written behind the end of bulkTS, over bulkTScnt and the first entry of
-- bulk, after which C says nothing of the table.
pub record BulkState : Type 0 where
  pub bulk_ts : ℕ → TsEntry
  pub bulk_ts_cnt : ℕ
  pub overrun : Bool
  pub bulk : ℕ → BulkReadInfo

-- An assignment to a[i].
abbrev pub store {ℓ} : {A : Type ℓ} → (ℕ → A) → ℕ → A → ℕ → A
store a i v j = if i == j then v else a j

-- Where an `int` index is not negative, the index.
abbrev pub index : ℤ → ℕ
index (pos n) = n
index (negsuc n) = 0

abbrev pub is_negative : ℤ → Bool
is_negative (pos n) = false
is_negative (negsuc n) = true

-- `for (i = i0; i < i0 + n; i++) if (test(i)) break;`
unfoldable pub search_from : ℕ → (ℕ → Bool) → ℕ → ℕ
search_from zero test i = i
search_from (suc n) test i = let rest = search_from n test (suc i) in if test i then i else rest

-- An unused entry or a non-full entry for this port.
abbrev pub has_room : ℕ → BulkReadInfo → Bool
has_room ams_port b = b.cnt == 0 || not (b.cnt == bulksiz) && b.ams_port == ams_port

unfoldable pub find_bulk : ℕ → BulkState → ℕ
unfolding search_from
find_bulk ams_port s = search_from maxbulk (λ i. has_room ams_port (s.bulk i)) 0

unfoldable pub find_stamp : ℕ → BulkState → ℕ
unfolding search_from
find_stamp ams_port s = search_from s.bulk_ts_cnt (λ i. ams_port == (s.bulk_ts i).ams_port) 0

-- A new entry, behind those in use.
unfoldable pub add_stamp : ℕ → BulkState → BulkState
add_stamp ams_port s =
    let i = s.bulk_ts_cnt in
    record s {
      bulk_ts_cnt = suc i;
      overrun = if ltb i maxtsentry then s.overrun else true;
      bulk_ts =
          store s.bulk_ts i (record (s.bulk_ts i) { ams_port = ams_port; refresh_needed = true });
    }

module _ {W : Type 0} (api : AdsApi W) (remote_net_id : List ℕ) (client : ℕ) where
  open api use {sym_hndbyname, sym_valbyhnd, read_write_u32}

  unfoldable pub request_handles : ℕ → TsEntry → W → TsEntry × W
  request_handles ams_port e w =
      let a : AmsAddr = record { net_id = remote_net_id; port = ams_port } in
      let (stat_h, h, w1) =
        read_write_u32 client a sym_hndbyname 0 "MAIN.fbSystemTime.timeHiDW" w in
      let (stat_l, l, w2) =
        read_write_u32 client a sym_hndbyname 0 "MAIN.fbSystemTime.timeLoDW" w1 in
      (
        record e {
          i_handle_h = get_or h e.i_handle_h;
          i_handle_l = get_or l e.i_handle_l;
          refresh_needed = if stat_h == 0 && stat_l == 0 then false else e.refresh_needed;
        },
        w2,
      )

  unfoldable pub refresh_stamp : ℕ → ℕ → BulkState → W → ℕ × BulkState × W
  unfolding request_handles
  refresh_stamp ams_port i s w =
      let (e, w') = request_handles ams_port (s.bulk_ts i) w in
      if (s.bulk_ts i).refresh_needed
      then (i, record s { bulk_ts = store s.bulk_ts i e }, w')
      else (i, s, w)

  -- The index is not compared with the size of `bulkTS`.
  unfoldable pub ads_find_bulk_time_stamp : ℕ → BulkState → W → ℕ × BulkState × W
  ads_find_bulk_time_stamp ams_port s w =
      let i = find_stamp ams_port s in
      refresh_stamp ams_port i (if i == s.bulk_ts_cnt then add_stamp ams_port s else s) w

  unfoldable pub stamp_slots : TsEntry → SumEntry × SumEntry
  stamp_slots e =
      if e.refresh_needed
      then (
        record { i_group = 0x4020; i_offset = 0; i_size = 4 },
        record { i_group = 0x4020; i_offset = 0; i_size = 4 },
      )
      else (
        record { i_group = sym_valbyhnd; i_offset = e.i_handle_h; i_size = 4 },
        record { i_group = sym_valbyhnd; i_offset = e.i_handle_l; i_size = 4 },
      )

  -- The first variable of a bulk request: the two slots of the time stamp.
  unfoldable pub first_in_bulk : BulkReadInfo → ℕ → TsEntry → BulkReadInfo
  unfolding stamp_slots
  first_in_bulk b ams_port e =
      let (slot0, slot1) = stamp_slots e in
      record b {
        ams_port = ams_port;
        sum = store (store b.sum 0 slot0) 1 slot1;
        cnt = 2;
        read_size = 16;
      }

  unfoldable pub open_bulk : ℕ → ℕ → BulkState → W → BulkState × W
  unfolding first_in_bulk
  open_bulk i ams_port s w =
      let (j, s', w') = ads_find_bulk_time_stamp ams_port s w in
      if (s.bulk i).cnt == 0
      then (
        record s' { bulk = store s'.bulk i (first_in_bulk (s'.bulk i) ams_port (s'.bulk_ts j)) },
        w',
      )
      else (s, w)

  unfoldable pub append_param : ℕ → AdsParamInfo → BulkState × W → AdsParamInfo × BulkState × W
  append_param i p (s, w) =
      let b = s.bulk i in
      (
        record p { bulk_index = pos i; bulk_offset = pos b.cnt },
        record s {
          bulk =
              store s.bulk i
                (record b { param_id = store b.param_id b.cnt p.param_index; cnt = suc b.cnt });
        },
        w,
      )

  -- The request for a parameter's value in its slot.
  abbrev pub slot_of : AdsParamInfo → SumEntry
  slot_of p = record {
    i_group = if p.is_adr_command then p.plc_abs_adr_group else sym_valbyhnd;
    i_offset = if p.is_adr_command then p.plc_abs_adr_offset else p.h_symbolic_handle;
    i_size = p.plc_size;
  }

  unfoldable pub fill_slot :
      AdsParamInfo × BulkState × W → AsynStatus × AdsParamInfo × BulkState × W
  fill_slot (p, s, w) =
      let i = index p.bulk_index in
      let b = s.bulk i in
      (
        asyn_success,
        p,
        record s {
          bulk = store s.bulk i (record b {
            sum = store b.sum (index p.bulk_offset) (slot_of p);
            read_size = (b.read_size + (p.plc_size + 4)) % 2 ^ 32;
          });
        },
        w,
      )

  unfoldable pub allocate :
      AdsParamInfo → BulkState → W → ℕ → AsynStatus × AdsParamInfo × BulkState × W
  allocate p s w i =
      if i == maxbulk
      then (asyn_error, p, s, w)
      else fill_slot (append_param i p (open_bulk i p.ams_port s w))

  unfoldable pub ads_add_to_bulk_read :
      AdsParamInfo → BulkState → W → AsynStatus × AdsParamInfo × BulkState × W
  unfolding allocate fill_slot
  ads_add_to_bulk_read p s w =
      if is_negative p.bulk_index
      then allocate p s w (find_bulk p.ams_port s)
      else fill_slot (p, s, w)
