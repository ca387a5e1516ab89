-- ===== src/Payment/Lifecycle.antt =====
-- The methods of Payment.ts against the diagram of the status, and the fields that belong to each
-- status.
use ops_marketplace_server.Base.{
  ◌≡◌, refl, ◌∙◌, ◌⊎◌, inl, inr, arith, List, [], ◌∷◌, Option, none, is_some, Bool, true, false,
  err, String,
}
use ops_marketplace_server.Ids.{PaymentId, OrderId, Date}
use ops_marketplace_server.Money.{Money}
use ops_marketplace_server.Metadata.{Metadata}
use ops_marketplace_server.Payment.{
  Payment, Error, PaymentMethod, PaymentStatus, pending, succeeded, failed, refunded, create,
  mark_as_paid, mark_as_failed, refund, update_payment_intent_id, update_metadata, set_metadata_key,
  clear_events,
}
use ops_marketplace_server.Payment.History.{Call, clearing, apply, run}

infix 40 ◌⟶◌
pub data ◌⟶◌ : PaymentStatus → PaymentStatus → Type 0 where
  settle : pending ⟶ succeeded
  reject : pending ⟶ failed
  give_back : succeeded ⟶ refunded

ruleset edges = (settle, reject, give_back)

-- Every call leaves the status of the payment as it is or moves it along one edge of the diagram.
pub status-apply :
    (c : Call) (p : Payment) → ((apply c p).1.status ≡ p.status) ⊎ (p.status ⟶ (apply c p).1.status)
unfolding apply mark_as_paid mark_as_failed refund update_payment_intent_id update_metadata
    set_metadata_key clear_events
status-apply clearing p = inl refl
status-apply _ p = grind (arith, edges)

-- A method that throws leaves the payment exactly as it was.
pub payment_atomic :
    (c : Call) (p : Payment) {e : Error} → (apply c p).0 ≡ err e → (apply c p).1 ≡ p
unfolding apply mark_as_paid mark_as_failed refund update_payment_intent_id update_metadata
    set_metadata_key clear_events
payment_atomic clearing p h = cc
payment_atomic _ p h = ground arith

-- No call changes the identity of a payment, its order or its amount.
pub amount-apply :
    (c : Call) (p : Payment)
    → ((apply c p).1.id ≡ p.id)
      × ((apply c p).1.order_id ≡ p.order_id)
      × ((apply c p).1.amount ≡ p.amount)
unfolding apply mark_as_paid mark_as_failed refund update_payment_intent_id update_metadata
    set_metadata_key clear_events
amount-apply clearing p = (refl, refl, refl)
amount-apply _ p = (ground arith, ground arith, ground arith)

-- The fields that each status promises.
abbrev pub Fits : PaymentStatus → Payment → Type 0
Fits pending p = (p.paid_at ≡ none) × (p.refunded_at ≡ none) × (p.error_message ≡ none)
Fits succeeded p = (is_some p.paid_at ≡ true) × (p.refunded_at ≡ none) × (p.error_message ≡ none)
Fits failed p = (p.paid_at ≡ none) × (p.refunded_at ≡ none) × (is_some p.error_message ≡ true)
Fits refunded p =
    (is_some p.paid_at ≡ true) × (is_some p.refunded_at ≡ true) × (p.error_message ≡ none)

abbrev pub IsValid : Payment → Type 0
IsValid p = Fits p.status p

apply-IsValid : (c : Call) (p : Payment) → IsValid p → IsValid (apply c p).1
unfolding apply mark_as_paid mark_as_failed refund update_payment_intent_id update_metadata
    set_metadata_key clear_events
apply-IsValid clearing p v = ground arith
apply-IsValid _ p v = ground arith

run-IsValid_from : (cs : List Call) (p : Payment) → IsValid p → IsValid (run cs p)
unfolding run
run-IsValid_from [] p v = v
run-IsValid_from (c ∷ cs) p v = run-IsValid_from cs (apply c p).1 (apply-IsValid c p v)

-- After any sequence of method calls on a new payment, of which each may throw, the fields fit the
-- status: a time of payment exactly when it was paid, a time of refund exactly when it was refunded,
-- and an error message exactly when it failed.
pub run_payment-Fits :
    (cs : List Call) (id : PaymentId) (order_id : OrderId) (amount : Money) (method : PaymentMethod)
    (intent gateway : String) (metadata : Option Metadata) (now : Date)
    → IsValid (run cs (create id order_id amount method intent gateway metadata now))
run_payment-Fits cs id order_id amount method intent gateway metadata now =
    run-IsValid_from cs (create id order_id amount method intent gateway metadata now)
      (unfold create in (refl, refl, refl))

-- No edge leaves the statuses failed and refunded.
final : {s t : PaymentStatus} → s ⟶ t → (s ≡ failed) ⊎ (s ≡ refunded) → ⊥
final settle h = ground arith
final reject h = ground arith
final give_back h = ground arith

apply_final :
    (c : Call) (p : Payment)
    → (p.status ≡ failed) ⊎ (p.status ≡ refunded)
    → (apply c p).1.status ≡ p.status
apply_final c p h = elim (status-apply c p) [ inl same ↦ same | inr e ↦ absurd (final e h) ]

-- Once a payment has failed or has been refunded, no sequence of method calls changes its status.
pub run_final :
    (cs : List Call) (p : Payment)
    → (p.status ≡ failed) ⊎ (p.status ≡ refunded)
    → (run cs p).status ≡ p.status
unfolding run
run_final [] p h = refl
run_final (c ∷ cs) p h =
    let same = apply_final c p h in run_final cs (apply c p).1 (rw same h) ∙ same

abbrev is_settled : PaymentStatus → Bool
is_settled succeeded = true
is_settled refunded = true
is_settled _ = false

apply_settled :
    (c : Call) (p : Payment)
    → is_settled p.status ≡ true
    → ((apply c p).1.payment_intent_id ≡ p.payment_intent_id)
      × ((apply c p).1.paid_at ≡ p.paid_at)
      × (is_settled (apply c p).1.status ≡ true)
unfolding apply mark_as_paid mark_as_failed refund update_payment_intent_id update_metadata
    set_metadata_key clear_events
apply_settled clearing p h = (refl, refl, h)
apply_settled _ p h = (ground arith, ground arith, ground arith)

run_settled_from :
    (cs : List Call) (p : Payment)
    → is_settled p.status ≡ true
    → ((run cs p).payment_intent_id ≡ p.payment_intent_id) × ((run cs p).paid_at ≡ p.paid_at)
unfolding run
run_settled_from [] p h = (refl, refl)
run_settled_from (c ∷ cs) p h =
    let (intent, paid, still) = apply_settled c p h in
    let later = run_settled_from cs (apply c p).1 still in (later.0 ∙ intent, later.1 ∙ paid)

-- Once a payment has succeeded, no sequence of method calls, a refund among them, changes its intent
-- or the time at which it was paid.
pub run_settled :
    (cs : List Call) (p : Payment)
    → p.status ≡ succeeded
    → ((run cs p).payment_intent_id ≡ p.payment_intent_id) × ((run cs p).paid_at ≡ p.paid_at)
run_settled cs p h = run_settled_from cs p (rw h refl)
