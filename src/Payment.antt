-- ===== src/Payment.antt =====
-- src/domain/entities/orders/Payment.ts and src/domain/events/PaymentEvents.ts: a payment and its
-- methods. `timestamp` is always given (its default is the clock's value at the call).
mod Status
mod History
mod Lifecycle
mod Settlement
mod Guards
mod Tests
unfoldable pub use Status.*
use ops_marketplace_server.Base.{
  Bool, true, false, ◌||◌, not, if◌then◌else◌, get_or, Option, none, some, List, [], push, String,
  ◌==◌, Action, Void, self, pure, throw_if, modify, ◌>>=◌, ◌>>◌,
}
use ops_marketplace_server.Ids.{PaymentId, OrderId, Date}
use ops_marketplace_server.Money.{Money}
use ops_marketplace_server.Metadata
use ops_marketplace_server.Metadata.{Metadata}

pub data PaymentMethod : Type 0 where
  credit_card debit_card stripe momo bank_transfer cod online : PaymentMethod

pub data Event : Type 0 where
  payment_created : PaymentId → OrderId → Money → String → Date → Event
  payment_succeeded : PaymentId → OrderId → Money → Date → Event
  payment_failed : PaymentId → OrderId → String → Date → Event
  payment_refunded : PaymentId → OrderId → Money → Option String → Date → Event
  payment_intent_updated : PaymentId → OrderId → String → Date → Event
  payment_metadata_updated : PaymentId → OrderId → Metadata → Date → Event

pub data Error : Type 0 where
  already_paid failed_as_paid refunded_as_paid paid_as_failed refunded_as_failed : Error
  only_paid_refunded already_refunded intent_settled : Error
  state_cannot_pay state_cannot_fail state_cannot_refund : PaymentStatus → Error

pub record Payment : Type 0 where
  pub id : PaymentId
  pub order_id : OrderId
  pub amount : Money
  pub method : PaymentMethod
  pub status : PaymentStatus
  pub payment_intent_id : String
  pub gateway : String
  pub metadata : Metadata
  pub created_at : Date
  pub updated_at : Date
  pub paid_at : Option Date
  pub refunded_at : Option Date
  pub error_message : Option String
  pub refund_reason : Option String
  pub events : List Event

unfoldable pub create :
    PaymentId → OrderId → Money → PaymentMethod → String → String → Option Metadata → Date → Payment
create id order_id amount method intent gateway metadata now = record {
  id = id;
  order_id = order_id;
  amount = amount;
  method = method;
  status = pending;
  payment_intent_id = intent;
  gateway = gateway;
  metadata = get_or metadata [];
  created_at = now;
  updated_at = now;
  paid_at = none;
  refunded_at = none;
  error_message = none;
  refund_reason = none;
  events = push [] (payment_created id order_id amount gateway now);
}

abbrev pub touch : Date → Payment → Payment
touch timestamp p = record p { updated_at = timestamp }

abbrev pub add_event : Event → Payment → Payment
add_event e p = record p { events = push p.events e }

unfoldable pub mark_as_paid : Option Date → Date → Action Payment Error Void
unfolding is_paid is_failed is_refunded
mark_as_paid paid_at timestamp = do
  p ← self
  throw_if (is_paid p.status) already_paid
  throw_if (is_failed p.status) failed_as_paid
  throw_if (is_refunded p.status) refunded_as_paid
  modify (λ p. record p { status = succeeded })
  modify (λ p. record p { paid_at = some (get_or paid_at timestamp) })
  modify (λ p. record p { error_message = none })
  modify (touch timestamp)
  modify (add_event (payment_succeeded p.id p.order_id p.amount timestamp))

unfoldable pub mark_as_failed : String → Date → Action Payment Error Void
unfolding is_paid is_failed is_refunded
mark_as_failed message timestamp = do
  p ← self
  throw_if (is_paid p.status) paid_as_failed
  throw_if (is_refunded p.status) refunded_as_failed
  if is_failed p.status
      then (do modify (λ p. record p { error_message = some message }); modify (touch timestamp))
      else (do
        modify (λ p. record p { status = failed })
        modify (λ p. record p { error_message = some message })
        modify (touch timestamp)
        modify (add_event (payment_failed p.id p.order_id message timestamp)))

unfoldable pub refund : Option Date → Option String → Date → Action Payment Error Void
unfolding is_paid is_refunded
refund refunded_at reason timestamp = do
  p ← self
  throw_if (not (is_paid p.status)) only_paid_refunded
  throw_if (is_refunded p.status) already_refunded
  modify (λ p. record p { status = refunded })
  modify (λ p. record p { refunded_at = some (get_or refunded_at timestamp) })
  modify (λ p. record p { refund_reason = reason })
  modify (touch timestamp)
  modify (add_event (payment_refunded p.id p.order_id p.amount reason timestamp))

unfoldable pub update_payment_intent_id : String → Date → Action Payment Error Void
unfolding is_paid is_refunded
update_payment_intent_id intent timestamp = do
  p ← self
  throw_if (is_paid p.status || is_refunded p.status) intent_settled
  if p.payment_intent_id == intent then pure tt else (do
    modify (λ p. record p { payment_intent_id = intent })
    modify (touch timestamp)
    modify (add_event (payment_intent_updated p.id p.order_id intent timestamp)))

unfoldable pub update_metadata : Metadata → Date → Action Payment Error Void
update_metadata metadata timestamp = do
  p ← self
  if Metadata.equals p.metadata metadata then pure tt else (do
    modify (λ p. record p { metadata = metadata })
    modify (touch timestamp)
    modify (add_event (payment_metadata_updated p.id p.order_id metadata timestamp)))

unfoldable pub set_metadata_key : String → String → Date → Action Payment Error Void
unfolding update_metadata
set_metadata_key key val timestamp = do
  p ← self
  update_metadata (Metadata.set key val p.metadata) timestamp

unfoldable pub clear_events : Action Payment Error Void
clear_events = modify (λ p. record p { events = [] })

unfoldable pub equals : Payment → Payment → Bool
equals a b = a.id == b.id

-- `BasePaymentState.markAsPaid` and the two below, of the state that stands for the status of the
-- payment: the state's guard, then the payment's own method.
unfoldable pub state_mark_as_paid : PaymentStatus → Date → Date → Action Payment Error Void
unfolding can_mark_as_paid mark_as_paid
state_mark_as_paid s paid_at now = do
  throw_if (not (can_mark_as_paid s)) (state_cannot_pay s)
  mark_as_paid (some paid_at) now

unfoldable pub state_mark_as_failed : PaymentStatus → String → Date → Action Payment Error Void
unfolding can_mark_as_failed mark_as_failed
state_mark_as_failed s message now = do
  throw_if (not (can_mark_as_failed s)) (state_cannot_fail s)
  mark_as_failed message now

unfoldable pub state_refund :
    PaymentStatus → Date → Option String → Date → Action Payment Error Void
unfolding can_refund refund
state_refund s refunded_at reason now = do
  throw_if (not (can_refund s)) (state_cannot_refund s)
  refund (some refunded_at) reason now
