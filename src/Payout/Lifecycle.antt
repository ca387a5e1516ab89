-- ===== src/Payout/Lifecycle.antt =====
-- The methods of Payout.ts over a life of a payout: the fields that belong to each status.
use ops_marketplace_server.Base.{
  sym, inl, ◌≡◌, refl, ◌∙◌, ◌⊎◌, ◌↔◌, arith, List, [], ◌∷◌, Option, none, is_some, inr, All, Bool,
  true, false, ok, Void, String, Action,
}
use ops_marketplace_server.Ids.{PayoutId, UserId, Date}
use ops_marketplace_server.Money.{Money}
use ops_marketplace_server.Payout.{
  Payout, Error, PayoutMethod, PayoutStatus, paid, failed, can_transition_to, create, mark_paid,
  mark_failed, set_state, clear_events,
}

-- `setting` is the public `setState`, which asks no state object.
pub data Call : Type 0 where
  paying : String → Date → Call
  failing : Date → Call
  setting : PayoutStatus → Call
  clearing : Call

unfoldable pub apply : Call → Action Payout Error Void
apply (paying r t) = mark_paid r t
apply (failing t) = mark_failed t
apply (setting s) = set_state s
apply clearing = clear_events

unfoldable pub run : List Call → Payout → Payout
run [] p = p
run (c ∷ cs) p = run cs (apply c p).1

-- A payout has a reference and a time of payment exactly when it was paid.
abbrev pub Fits : PayoutStatus → Payout → Type 0
Fits paid p = (is_some p.reference ≡ true) × (is_some p.paid_at ≡ true)
Fits _ p = (p.reference ≡ none) × (p.paid_at ≡ none)

abbrev pub IsValid : Payout → Type 0
IsValid p = Fits p.state p

abbrev is_paid : PayoutStatus → Bool
is_paid paid = true
is_paid _ = false

abbrev pub is_setting : Call → Bool
is_setting (setting s) = true
is_setting _ = false

-- `setState` with the state of a paid payout.
abbrev pub is_paid_by_hand : Call → Bool
is_paid_by_hand (setting paid) = true
is_paid_by_hand _ = false

apply-IsValid : (c : Call) (p : Payout) → is_setting c ≡ false → IsValid p → IsValid (apply c p).1
unfolding apply mark_paid mark_failed set_state clear_events
apply-IsValid clearing p h v = ground arith
apply-IsValid (setting s) p h v = ground arith
apply-IsValid _ p h v = ground arith

run-IsValid_from :
    (cs : List Call) (p : Payout)
    → All (λ c. is_setting c ≡ false) cs
    → IsValid p
    → IsValid (run cs p)
unfolding run
run-IsValid_from [] p h v = v
run-IsValid_from (c ∷ cs) p h v = run-IsValid_from cs (apply c p).1 h.1 (apply-IsValid c p h.0 v)

-- A payout that is paid has a reference, and one with a reference has a time of payment, and the
-- other way round.
abbrev pub IsSettled : Payout → Type 0
IsSettled p =
    ((is_some p.reference ≡ true) ⊎ (is_paid p.state ≡ false))
    × (is_some p.reference ≡ is_some p.paid_at)

apply-IsSettled :
    (c : Call) (p : Payout) → is_paid_by_hand c ≡ false → IsSettled p → IsSettled (apply c p).1
unfolding apply mark_paid mark_failed set_state clear_events
apply-IsSettled clearing p h v = v
apply-IsSettled (setting s) p h v = ground arith
apply-IsSettled _ p h v = ground arith

run-IsSettled_from :
    (cs : List Call) (p : Payout)
    → All (λ c. is_paid_by_hand c ≡ false) cs
    → IsSettled p
    → IsSettled (run cs p)
unfolding run
run-IsSettled_from [] p h v = v
run-IsSettled_from (c ∷ cs) p h v =
    run-IsSettled_from cs (apply c p).1 h.1 (apply-IsSettled c p h.0 v)

Fits-IsSettled : (st : PayoutStatus) (p : Payout) → p.state ≡ st → Fits st p → IsSettled p
Fits-IsSettled paid p is_st v = (inl v.0, v.0 ∙ sym v.1)
Fits-IsSettled _ p is_st v = (inr (rw is_st refl), rw (v.0, v.1) refl)

-- After any sequence of calls of markPaid, markFailed and clearEvents on a new payout, of which each
-- may throw, it has a reference and a time of payment when its state is paid, and neither in the
-- other states. After any further calls in which setState is not called with the paid state, a retry
-- of a failed payout by setState(pending) among them, it has a reference if its state is paid, and a
-- time of payment exactly when it has a reference.
pub run_payout-Fits :
    (cs later : List Call) (id : PayoutId) (user_id : UserId) (amount : Money)
    (method : Option PayoutMethod) (now : Date)
    → All (λ c. is_setting c ≡ false) cs
    → All (λ c. is_paid_by_hand c ≡ false) later
    → let p = run cs (create id user_id amount method now) in IsValid p × IsSettled (run later p)
run_payout-Fits cs later id user_id amount method now h by_calls =
    let p = run cs (create id user_id amount method now) in
    let v =
      run-IsValid_from cs (create id user_id amount method now) h (unfold create in (refl, refl)) in
    (v, run-IsSettled_from later p by_calls (Fits-IsSettled p.state p refl v))

mark_paid_iff :
    (r : String) (t : Date) (p : Payout)
    → ((mark_paid r t p).0 ≡ ok tt) ↔ (can_transition_to p.state paid ≡ true)
unfolding mark_paid can_transition_to
mark_paid_iff r t p = (λ h. ground arith, λ h. ground arith)

mark_failed_iff :
    (t : Date) (p : Payout)
    → ((mark_failed t p).0 ≡ ok tt) ↔ (can_transition_to p.state failed ≡ true)
unfolding mark_failed can_transition_to
mark_failed_iff t p = (λ h. ground arith, λ h. ground arith)

-- `markPaid` returns exactly when the table of transitions leads from the payout's state to paid, and
-- `markFailed` exactly when it leads to failed.
pub can_transition_to_mark_iff :
    (r : String) (t : Date) (p : Payout)
    → (((mark_paid r t p).0 ≡ ok tt) ↔ (can_transition_to p.state paid ≡ true))
      × (((mark_failed t p).0 ≡ ok tt) ↔ (can_transition_to p.state failed ≡ true))
can_transition_to_mark_iff r t p = (mark_paid_iff r t p, mark_failed_iff t p)

apply_decided :
    (c : Call) (p : Payout)
    → is_setting c ≡ false
    → (p.state ≡ paid) ⊎ (p.state ≡ failed)
    → ((apply c p).1.state ≡ p.state)
      × ((apply c p).1.reference ≡ p.reference)
      × ((apply c p).1.paid_at ≡ p.paid_at)
unfolding apply mark_paid mark_failed set_state clear_events
apply_decided clearing p n h = (refl, refl, refl)
apply_decided (setting s) p n h = absurd (ground arith)
apply_decided _ p n h = (ground arith, ground arith, ground arith)

-- A payout that was paid or has failed keeps its state, its reference and its time of payment under
-- every sequence of method calls without setState: in particular a failed payout is then never
-- pending again, though the table of transitions leads from failed to pending.
pub run_decided :
    (cs : List Call) (p : Payout)
    → All (λ c. is_setting c ≡ false) cs
    → (p.state ≡ paid) ⊎ (p.state ≡ failed)
    → ((run cs p).state ≡ p.state)
      × ((run cs p).reference ≡ p.reference)
      × ((run cs p).paid_at ≡ p.paid_at)
unfolding run
run_decided [] p n h = (refl, refl, refl)
run_decided (c ∷ cs) p n h =
    let (same, reference, time) = apply_decided c p n.0 h in
    let later = run_decided cs (apply c p).1 n.1 (rw same h) in
    (later.0 ∙ same, later.1 ∙ reference, later.2 ∙ time)
