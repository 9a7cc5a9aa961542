-- ===== src/Examples/Lists.antt =====
-- Examples of the port list, of an invalidation, and of a pass over the bulk reads.
use twincat_ads.Ads.{AmsPortInfo}
use twincat_ads.Bulk.{BulkReadInfo}
use twincat_ads.DataType.{adst_int16}
use twincat_ads.PortList.{new_port}
use twincat_ads.Update.Refresh.{Driver}
use twincat_ads.Poll.{PollState}
use twincat_ads.Examples.{a_param}
use twincat_ads.Examples.Bulks.{with_stamps}
use twincat_ads.Base.{ℕ, true, List, [], ◌∷◌}

abbrev pub one_port : List AmsPortInfo
one_port = new_port 15 851 ∷ []

abbrev pub a_driver : Driver
a_driver = record {
  params = a_param ∷ a_param ∷ [];
  ports = one_port;
  bulks = with_stamps 3;
  connected_ads = true;
  bulk_ok = true;
}

-- One parameter of two bytes behind the time stamp slots.
abbrev one_slot : BulkReadInfo
one_slot = record {
  cnt = 3;
  ams_port = 851;
  sum = λ _. record { i_group = 0xf005; i_offset = 7; i_size = 2 };
  param_id = λ _. 0;
  read_size = 18;
}

abbrev polled : PollState ℕ
polled = record {
  params = record a_param { plc_size = 2; plc_data_type = adst_int16 } ∷ [];
  queue = [];
  bulkdata = 0 ∷ 0 ∷ 0 ∷ 0 ∷ 0 ∷ 0 ∷ 0 ∷ 0 ∷ 0 ∷ 0 ∷ 0 ∷ 0 ∷ 9 ∷ 9 ∷ 9 ∷ 9 ∷ 5 ∷ 0 ∷ [];
  world = 0;
}
