-- ===== src/Examples/Constructs.antt =====
-- Examples of the constructor of the driver.
use twincat_ads.Ads.{time_base_plc}
use twincat_ads.Base.Int.{pos}
use twincat_ads.Connection.{BaseConnect, Routes}
use twincat_ads.Construct.{Arguments, bulk_delay, connect_until}
use twincat_ads.Construct.Whole.{ConstructEnv, Constructed, connected, constructor}
use twincat_ads.Construct.Whole.Complete.{Ends, constructor-Ends}
use twincat_ads.Construct.Running.{IsUp, connect_until-ends}
use twincat_ads.EtherCat.{Master}
use twincat_ads.Examples.{a_plc, net_id, a_master, a_param}
use twincat_ads.Examples.Bulks.{an_env}
use twincat_ads.Base.{
  ℕ, suc, Bool, true, false, List, [], ◌∷◌, Option, none, some, asyn_success, length, ◌≡◌, refl,
}

abbrev base : BaseConnect ℕ
base = record { base_connect = λ w. (asyn_success, w); base_disconnect = λ w. (asyn_success, w) }

abbrev a_constructor : ConstructEnv ℕ
a_constructor = record {
  api = a_plc;
  ports = record {
    ads_port_open_ex = λ w. (pos 30000, suc w);
    ads_port_close_ex = λ p w. (0, suc w);
  };
  base = base;
  update = an_env;
  create_default = λ w. (asyn_success, 0, suc w);
  create_thread = λ worker w. (true, suc w);
  scan_hhu = λ text. (6, net_id);
  scan_u = λ text. (6, net_id);
  max_states = 21;
  fresh = a_param;
  own = 7;
}

abbrev an_ioc : Arguments
an_ioc = record {
  ipaddr = "192.168.1.10";
  amsaddr = "192.168.1.10.1.1";
  amsport = 851;
  param_table_size = pos 1000;
  default_sample_time_ms = pos 2000;
  max_delay_time_ms = pos 100;
  ads_timeout_ms = pos 1000;
  default_time_source = time_base_plc;
  ethercat_master_override = none;
}

constructor-Ends_example : Ends a_constructor an_ioc (constructor a_constructor an_ioc 1 0)
constructor-Ends_example = constructor-Ends a_constructor an_ioc 1 0

abbrev n_workers : Constructed ℕ → Option ℕ
n_workers (connected s w) = some (length s.workers)
n_workers _ = none

four_workers : n_workers (constructor a_constructor an_ioc 1 0) ≡ some 4
unfolding constructor twincat_ads.Base.Map.find twincat_ads.Base.Map.insert
four_workers = refl

a_second_and_more : bulk_delay (pos 2000) ≡ pos 2000000
unfolding bulk_delay
a_second_and_more = refl

-- AdsLib and the PLC of the examples always answer.
always : IsUp a_plc base (λ w. Unit)
always = record {
  added = λ n ip w h. (refl, tt);
  got = λ c w h. (refl, tt);
  set_timeout = λ c t w h. (refl, tt);
  connected = λ w h. (refl, tt);
  runs = λ c to w h. (refl, refl);
}

abbrev no_routes : Routes
no_routes = record { route_added = false; ethercat_route_added = false; connected_ads = false }

connect_until-ends_example :
    (x : Master × Routes × ℕ) × (connect_until a_plc base an_env net_id "192.168.1.10" 30000 1000
        851 1 a_master no_routes 0
      ≡ some x)
connect_until-ends_example =
    connect_until-ends a_plc base (λ w. Unit) always an_env net_id "192.168.1.10" 30000 1000 851 0
      a_master no_routes 0 tt
