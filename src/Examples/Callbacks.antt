-- ===== src/Examples/Callbacks.antt =====
-- Examples of the queue of notifications.
use twincat_ads.Callback.{
  Notification, DataCbInfo, maxcbqsize, CallbackState, accepted, in_table, queued_info,
  ads_data_callback, data_callback_turn, take_first,
}
use twincat_ads.Callback.Order.{Run, begun, notified, Run-in_order, Run-bounded}
use twincat_ads.Callback.Drain.{From, at_once, turned as turned_from, drained}
use twincat_ads.Examples.{a_param, some_alarms}
use twincat_ads.Examples.Transfers.{whole, accepting}
use twincat_ads.Base.{ℕ, suc, ◌≤◌, ◌≡◌, refl, true, false, List, [], ◌∷◌, ◌++◌, arith}

abbrev a_note : Notification
a_note = record { time_stamp = 0; sample_size = 2; bytes = 1 ∷ 0 ∷ [] }

abbrev empty_queue : CallbackState ℕ
empty_queue = record { params = a_param ∷ []; datacbqueue = []; queue = []; world = 0 }

abbrev an_entry : DataCbInfo
an_entry = queued_info 0 a_note

-- A notification is queued, and a turn takes it.
one_notified :
    Run whole accepting some_alarms 0
      (an_entry ∷ [])
      []
      (record empty_queue { datacbqueue = an_entry ∷ [] })
unfolding ads_data_callback accepted in_table
one_notified = notified (begun empty_queue refl) 1000 true 0 a_note

Run-in_order_example : ◌≡◌ {A = List DataCbInfo} (an_entry ∷ []) ([] ++ an_entry ∷ [])
Run-in_order_example = Run-in_order whole accepting some_alarms 0 one_notified

Run-bounded_example : 1 ≤ suc maxcbqsize
Run-bounded_example = Run-bounded whole accepting some_alarms 0 one_notified

abbrev one_queued : CallbackState ℕ
one_queued = record empty_queue { datacbqueue = an_entry ∷ [] }

one_turn :
    From whole accepting some_alarms 0 one_queued 1
      (an_entry ∷ [])
      (data_callback_turn whole accepting some_alarms 0 false true one_queued).1
unfolding data_callback_turn take_first
one_turn = turned_from at_once

drained_example :
    (later : List DataCbInfo) × (◌≡◌ {A = List DataCbInfo} (an_entry ∷ []) (an_entry ∷ [] ++ later))
drained_example = drained whole accepting some_alarms 0 {s = one_queued} one_turn (omega arith)
