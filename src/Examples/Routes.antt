-- ===== src/Examples/Routes.antt =====
-- Examples of the routes, over a routing table that is a function from net ids.
use twincat_ads.Ads.{AdsApi}
use twincat_ads.Connection.{Routes, BaseConnect, same_net_id, connect, ads_disconnect}
use twincat_ads.Connection.Laws.{
  IsRouter, IsRouted, no_call, connecting, ads_disconnecting, Calls-IsRouted, same_net_id_refl,
}
use twincat_ads.Examples.{silent, net_id, a_master}
use twincat_ads.Base.{
  ℕ, ◌≡◌, refl, Bool, true, false, List, [], ◌∷◌, asyn_success, if-intro, if◌then◌else◌, arith,
}

abbrev Table : Type 0
Table = List ℕ → Bool

abbrev has : List ℕ → Table → Bool
has n w = w n

-- AdsLib with a routing table.
abbrev a_router : AdsApi Table
a_router = record (silent Table) {
  add_route = λ n ip w. (0, λ k. if same_net_id k n then true else w k);
  del_route = λ n w. λ k. if same_net_id k n then false else w k;
}

abbrev base : BaseConnect Table
base = record { base_connect = λ w. (asyn_success, w); base_disconnect = λ w. (asyn_success, w) }

same-eq : (k n : List ℕ) → same_net_id k n ≡ true → k ≡ n
unfolding same_net_id
same-eq [] [] h = refl
same-eq [] (y ∷ n) h = absurd (ground (arith, h))
same-eq (x ∷ k) [] h = absurd (ground (arith, h))
same-eq (x ∷ k) (y ∷ n) h =
    let first : x ≡ y = ground (arith, h) in
    let rest : same_net_id k n ≡ true = ground (arith, h) in λ i. (first i ∷ same-eq k n rest i)

a_router-IsRouter : IsRouter a_router base has
a_router-IsRouter = record {
  added = λ n ip w ok. rw (same_net_id_refl n) refl;
  add_kept = λ n ip w k h. if-intro (λ (b : Bool). b ≡ true) (same_net_id k n) (λ _. refl) (λ _. h);
  del_kept = λ n w k other h.
      if-intro (λ (b : Bool). b ≡ true) (same_net_id k n)
        (λ same. absurd (other (same-eq k n same))) (λ _. h);
  get_kept = λ client w k h. h;
  set_kept = λ client timeout w k h. h;
  connect_kept = λ w k h. h;
  disconnect_kept = λ w k h. h;
}

abbrev no_routes : Routes
no_routes = record { route_added = false; ethercat_route_added = false; connected_ads = false }

abbrev no_table : Table
no_table n = false

abbrev Routed : Routes → Table → Type 0
Routed = IsRouted a_router base has a_router-IsRouter net_id "192.168.1.10" a_master

nothing-Routed : Routed no_routes no_table
nothing-Routed = record {
  remote = λ e. absurd (ground (arith, e));
  ethercat = λ e. absurd (ground (arith, e));
  apart = λ e. absurd (ground (arith, e));
}

calls-IsRouted_example :
    let (_, r, w) =
      connect a_router net_id "192.168.1.10" base 30000 1000 a_master no_routes no_table in
    let (_, s, v) = ads_disconnect a_router net_id "192.168.1.10" a_master r w in Routed s v
calls-IsRouted_example =
    Calls-IsRouted a_router base has a_router-IsRouter net_id "192.168.1.10" a_master nothing-Routed
      (ads_disconnecting (connecting 30000 1000 no_call))
