-- ===== src/Callback/Drain.antt =====
-- adsApp/src/adsAsynPortDriver.cpp, dataCallbackThread: that it reaches every entry of the queue.
use twincat_ads.Asyn.{AsynApi, AlarmCodes}
use twincat_ads.Transfer.Decode.{Floats}
use twincat_ads.Callback.{
  Notification, DataCbInfo, CallbackState, accepted, ads_data_callback, data_callback_turn,
  take_first,
}
use twincat_ads.Callback.Order.{as_list, taken, turn-queue, pushed_lem}
use mathlib.Core.List.{append-nil, append_assoc}
use mathlib.Core.Option.{get_or}
use twincat_ads.Base.{
  ℕ, suc, ◌+◌, ◌≤◌, ◌≡◌, refl, sym, ap, ◌∙◌, ◌⊎◌, inl, inr, Bool, true, false, List, [], ◌∷◌, ◌++◌,
  length, length-append, get_elem?, drop, arith,
}

-- The shorter of two prefixes of a list is a prefix of the longer one.
prefix_of :
    {A : Type 0} (xs ys a b : List A)
    → xs ++ a ≡ ys ++ b
    → length xs ≤ length ys
    → (c : List A) × (ys ≡ xs ++ c)
prefix_of [] ys a b e le = (ys, refl)
prefix_of (x ∷ xs) [] a b e le = absurd (omega (arith, le))
prefix_of (x ∷ xs) (y ∷ ys) a b e le =
    let first : x ≡ y = ap (λ l. get_or (get_elem? l 0) x) e in
    let (c, rest) = prefix_of xs ys a b (ap (drop 1) e) (omega (arith, le)) in
    (c, λ i. (sym first i ∷ rest i))

module _ {F W : Type 0} (fl : Floats F) (asyn : AsynApi F W) (alarms : AlarmCodes)
    (posix_at_epics : ℕ) where
  abbrev turn_of : CallbackState W → List DataCbInfo × CallbackState W
  turn_of s =
      let (turn, t) = data_callback_turn fl asyn alarms posix_at_epics false true s in
      (taken turn, t)

  -- A run from `s`, in which EPICS has started and the driver is not being destroyed, with the number
  -- of turns of dataCallbackThread in it and what these took.
  pub data From (s : CallbackState W) : ℕ → List DataCbInfo → CallbackState W → Type 0 where
    at_once : From s 0 [] s
    notified :
        {k : ℕ} {outs : List DataCbInfo} {t : CallbackState W}
        → From s k outs t
        → (table_size : ℕ) (malloc_succeeds : Bool) (h_user : ℕ) (n : Notification)
        → From s k outs (ads_data_callback table_size malloc_succeeds h_user n t)
    turned :
        {k : ℕ} {outs : List DataCbInfo} {t : CallbackState W}
        → From s k outs t
        → From s
            (suc k)
            (outs ++ taken (data_callback_turn fl asyn alarms posix_at_epics false true t).0)
            (data_callback_turn fl asyn alarms posix_at_epics false true t).1
    interfered :
        {k : ℕ} {outs : List DataCbInfo} {t : CallbackState W}
        → From s k outs t
        → (u : CallbackState W) → u.datacbqueue ≡ t.datacbqueue
        → From s k outs u

  From-in_order :
      {s : CallbackState W} {k : ℕ} {outs : List DataCbInfo} {t : CallbackState W}
      → From s k outs t
      → (new : List DataCbInfo) × (s.datacbqueue ++ new ≡ outs ++ t.datacbqueue)
  unfolding ads_data_callback
  From-in_order {s} at_once = ([], append-nil s.datacbqueue)
  From-in_order {s} (notified {outs} {t} r table_size ok h_user n) =
      let (new, e) = From-in_order r in
      let o = accepted table_size ok t.params (length t.datacbqueue) h_user n in
      (
        new ++ as_list o,
        sym (append_assoc s.datacbqueue new (as_list o))
            ∙ ap (λ xs. xs ++ as_list o) e
            ∙ append_assoc outs t.datacbqueue (as_list o)
            ∙ ap (λ xs. outs ++ xs)
                (sym (pushed_lem fl asyn alarms posix_at_epics t.datacbqueue o)),
      )
  From-in_order (turned {outs} {t} r) =
      let (new, e) = From-in_order r in
      let (turn, u) = data_callback_turn fl asyn alarms posix_at_epics false true t in
      (
        new,
        e
            ∙ ap (λ xs. outs ++ xs) (sym (turn-queue fl asyn alarms posix_at_epics false true t))
            ∙ sym (append_assoc outs (taken turn) u.datacbqueue),
      )
  From-in_order (interfered {outs} r u e) =
      let (new, h) = From-in_order r in (new, h ∙ ap (λ xs. outs ++ xs) (sym e))

  -- A turn takes an entry, or finds the queue empty.
  turn_cases :
      (t : CallbackState W)
      → (length (turn_of t).0 ≡ 1) ⊎ ((t.datacbqueue ≡ []) × (length (turn_of t).0 ≡ 0))
  unfolding data_callback_turn take_first
  turn_cases t = go t.datacbqueue refl
    where
      go :
          (xs : List DataCbInfo)
          → t.datacbqueue ≡ xs
          → (length (taken (take_first fl asyn alarms posix_at_epics xs t).0) ≡ 1)
            ⊎ ((t.datacbqueue ≡ [])
                × (length (taken (take_first fl asyn alarms posix_at_epics xs t).0) ≡ 0))
      go [] e = inr (e, refl)
      go (x ∷ xs) e = inl refl

  From-cases :
      {s : CallbackState W} {k : ℕ} {outs : List DataCbInfo} {t : CallbackState W}
      → From s k outs t
      → (length s.datacbqueue ≤ length outs) ⊎ (k ≡ length outs)
  From-cases at_once = inr refl
  From-cases (notified r table_size ok h_user n) = From-cases r
  From-cases (interfered r u e) = From-cases r
  From-cases {s} (turned {k} {outs} {t} r) =
      let longer = length-append outs (turn_of t).0 in
      elim (turn_cases t) [
        | inl one ↦ elim (From-cases r) [
          | inl le ↦ inl (omega (arith, longer, le))
          | inr same ↦ inr (omega (arith, longer, one, same))
        ]
        | inr (empty, none_taken) ↦
            let (new, e) = From-in_order r in
            let all : s.datacbqueue ++ new ≡ outs =
              e ∙ ap (λ xs. outs ++ xs) empty ∙ append-nil outs in
            let sizes : length s.datacbqueue + length new ≡ length outs =
              sym (length-append s.datacbqueue new) ∙ ap length all in
            inl (omega (arith, longer, sizes))
      ]

  -- While EPICS has started and the driver is not being destroyed, and each callback and each turn
  -- is one step: once dataCallbackThread has had as many turns as the queue had entries, it has
  -- taken all of these, first and in their order, whatever callbacks come in between and whatever
  -- other threads do that leaves the queue alone.
  pub drained :
      {s : CallbackState W} {k : ℕ} {outs : List DataCbInfo} {t : CallbackState W}
      → From s k outs t
      → length s.datacbqueue ≤ k
      → (later : List DataCbInfo) × (outs ≡ s.datacbqueue ++ later)
  drained {s} {k} {outs} {t} r le =
      let (new, e) = From-in_order r in
      let enough : length s.datacbqueue ≤ length outs = elim (From-cases r) [
        | inl h ↦ h
        | inr same ↦ omega (arith, same, le)
      ] in
      prefix_of s.datacbqueue outs new t.datacbqueue e enough
