-- ===== src/Callback/Order.antt =====
-- adsApp/src/adsAsynPortDriver.cpp, adsDataCallback and dataCallbackThread: the queue between them,
-- under any order of the steps of the two threads and the others. The queue has no lock, so that a
-- callback and a turn are one step each is an assumption.
use twincat_ads.Ads.{AdsParamInfo}
use twincat_ads.Asyn.{AsynApi, AlarmCodes}
use twincat_ads.Poll.{get_ads_param_info}
use twincat_ads.Transfer.Decode.{Floats}
use twincat_ads.Callback.{
  Notification, DataCbInfo, maxcbqsize, CallbackState, in_table, queued_info, accepted, pushed,
  ads_data_callback, Turn, took, delivered, delivered_to, take_first, data_callback_turn,
}
use mathlib.Core.List.{append-nil, append_assoc}
use twincat_ads.Base.{
  ℕ, suc, ◌+◌, ◌≤◌, ◌≡◌, refl, sym, ap, ◌∙◌, inl, inr, Bool, true, false, not, ◌||◌, List, [], ◌∷◌,
  ◌++◌, Option, none, some, length, length-append, ltb, ◌==◌, Option-cases, if-intro, arith,
}

-- The entries that a notification, and a turn of the thread, add to the logs.
abbrev pub as_list : Option DataCbInfo → List DataCbInfo
as_list none = []
as_list (some info) = info ∷ []

abbrev pub taken : Turn → List DataCbInfo
taken (took info) = info ∷ []
taken _ = []

module _ {F W : Type 0} (fl : Floats F) (asyn : AsynApi F W) (alarms : AlarmCodes)
    (posix_at_epics : ℕ) where
  -- A run of the driver from an empty queue: callbacks of AdsLib's thread, turns of
  -- dataCallbackThread, and changes by other threads, which leave the queue alone. The first two
  -- indices are what was queued and what was taken so far, oldest first.
  pub data Run : List DataCbInfo → List DataCbInfo → CallbackState W → Type 0 where
    begun : (s : CallbackState W) → s.datacbqueue ≡ [] → Run [] [] s
    notified :
        {ins outs : List DataCbInfo} {s : CallbackState W}
        → Run ins outs s
        → (table_size : ℕ) (malloc_succeeds : Bool) (h_user : ℕ) (n : Notification)
        → Run
            (ins
              ++ as_list
                  (accepted table_size malloc_succeeds s.params (length s.datacbqueue) h_user n))
            outs
            (ads_data_callback table_size malloc_succeeds h_user n s)
    turned :
        {ins outs : List DataCbInfo} {s : CallbackState W}
        → Run ins outs s
        → (stop_threads allow : Bool)
        → Run ins
            (outs
              ++ taken (data_callback_turn fl asyn alarms posix_at_epics stop_threads allow s).0)
            (data_callback_turn fl asyn alarms posix_at_epics stop_threads allow s).1
    interfered :
        {ins outs : List DataCbInfo} {s : CallbackState W}
        → Run ins outs s
        → (t : CallbackState W) → t.datacbqueue ≡ s.datacbqueue
        → Run ins outs t

  pub pushed_lem :
      (queue : List DataCbInfo) (o : Option DataCbInfo) → pushed queue o ≡ queue ++ as_list o
  pushed_lem queue none = sym (append-nil queue)
  pushed_lem queue (some info) = refl

  delivered-queue :
      (info : DataCbInfo) (rest : List DataCbInfo) (s : CallbackState W)
      → (delivered fl asyn alarms posix_at_epics info rest s).datacbqueue ≡ rest
  unfolding delivered delivered_to
  delivered-queue info rest s = elim (Option-cases (get_ads_param_info info.param s.params)) [
    | inl e ↦ rw (delivered, e) refl
    | inr (p, e) ↦ rw (delivered, e) refl
  ]

  pub take_first-queue :
      (xs : List DataCbInfo) (s : CallbackState W)
      → s.datacbqueue ≡ xs
      → let (turn, t) = take_first fl asyn alarms posix_at_epics xs s in
        taken turn ++ t.datacbqueue ≡ xs
  unfolding take_first
  take_first-queue [] s e = e
  take_first-queue (info ∷ rest) s e = ap (◌∷◌ info) (delivered-queue info rest s)

  pub turn-queue :
      (stop_threads allow : Bool) (s : CallbackState W)
      → let (turn, t) = data_callback_turn fl asyn alarms posix_at_epics stop_threads allow s in
        taken turn ++ t.datacbqueue ≡ s.datacbqueue
  unfolding data_callback_turn
  turn-queue true allow s = refl
  turn-queue false false s = refl
  turn-queue false true s = take_first-queue s.datacbqueue s refl

  -- Each callback and each turn of dataCallbackThread being one step, in whatever order the steps of
  -- the threads come, what was queued is, in this order, what dataCallbackThread took and what is
  -- still in the queue: no accepted notification is lost, doubled or overtaken.
  pub Run-in_order :
      {ins outs : List DataCbInfo} {s : CallbackState W}
      → Run ins outs s
      → ins ≡ outs ++ s.datacbqueue
  unfolding ads_data_callback
  Run-in_order (begun s e) = sym e
  Run-in_order (notified {ins} {outs} {s} r table_size ok h_user n) =
      let o = accepted table_size ok s.params (length s.datacbqueue) h_user n in
      ap (λ xs. xs ++ as_list o) (Run-in_order r)
      ∙ append_assoc outs s.datacbqueue (as_list o)
      ∙ ap (λ xs. outs ++ xs) (sym (pushed_lem s.datacbqueue o))
  Run-in_order (turned {ins} {outs} {s} r stop_threads allow) =
      let (turn, t) = data_callback_turn fl asyn alarms posix_at_epics stop_threads allow s in
      Run-in_order r
      ∙ ap (λ xs. outs ++ xs) (sym (turn-queue stop_threads allow s))
      ∙ sym (append_assoc outs (taken turn) t.datacbqueue)
  Run-in_order (interfered {ins} {outs} {s} r t e) = Run-in_order r ∙ ap (λ xs. outs ++ xs) (sym e)

  accepted-le :
      (table_size : ℕ) (ok : Bool) (params : List AdsParamInfo) (queue : List DataCbInfo)
      (h_user : ℕ) (n : Notification)
      → length queue ≤ suc maxcbqsize
      → length (pushed queue (accepted table_size ok params (length queue) h_user n))
        ≤ suc maxcbqsize
  unfolding accepted
  accepted-le table_size ok params queue h_user n le =
      let Small = λ (o : Option DataCbInfo). length (pushed queue o) ≤ suc maxcbqsize in
      if-intro Small (not (in_table table_size h_user)) (λ _. le)
        (λ _. elim (Option-cases (get_ads_param_info h_user params)) [
          | inl e ↦ rw e le
          | inr (p, e) ↦ rw e (
              if-intro Small
                (ltb maxcbqsize (length queue) || not (h_user == p.param_index) || not ok) (λ _. le)
                (λ room.
                  rw (length-append queue (queued_info h_user n ∷ [])) (ground (arith, room))))
        ])

  -- In every state that a run reaches, the queue holds at most 10001 entries: one more than MAXCBQSIZE.
  pub Run-bounded :
      {ins outs : List DataCbInfo} {s : CallbackState W}
      → Run ins outs s
      → length s.datacbqueue ≤ suc maxcbqsize
  unfolding ads_data_callback
  Run-bounded (begun s e) = rw e (omega arith)
  Run-bounded (notified {s} r table_size ok h_user n) =
      accepted-le table_size ok s.params s.datacbqueue h_user n (Run-bounded r)
  Run-bounded (turned {s} r stop_threads allow) =
      let (turn, t) = data_callback_turn fl asyn alarms posix_at_epics stop_threads allow s in
      let whole : length s.datacbqueue ≡ length (taken turn) + length t.datacbqueue =
        ap length (sym (turn-queue stop_threads allow s))
        ∙ length-append (taken turn) t.datacbqueue in
      omega (arith, whole, Run-bounded r)
  Run-bounded (interfered r t e) = rw e (Run-bounded r)
