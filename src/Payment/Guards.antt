-- ===== src/Payment/Guards.antt =====
-- The guards of the state classes against the methods of the payment, and the metadata.
use ops_marketplace_server.Base.{
  ◌≡◌, ◌⊎◌, ◌↔◌, arith, Option, some, true, ok, String, ◌==◌, if◌then◌else◌,
}
use ops_marketplace_server.Ids.{Date}
use ops_marketplace_server.Metadata
use ops_marketplace_server.Metadata.{Metadata}
use ops_marketplace_server.Payment.{
  Payment, failed, can_mark_as_paid, can_mark_as_failed, can_refund, can_update_intent_id,
  mark_as_paid, mark_as_failed, refund, update_payment_intent_id, set_metadata_key,
  state_mark_as_paid, state_refund,
}

-- `markAsPaid` of a payment returns exactly when the class of its state allows it.
pub can_mark_as_paid_iff :
    (d : Option Date) (t : Date) (p : Payment)
    → ((mark_as_paid d t p).0 ≡ ok tt) ↔ (can_mark_as_paid p.status ≡ true)
unfolding mark_as_paid can_mark_as_paid
can_mark_as_paid_iff d t p = (λ h. ground arith, λ h. ground arith)

-- `refund` of a payment returns exactly when the class of its state allows it.
pub can_refund_iff :
    (d : Option Date) (r : Option String) (t : Date) (p : Payment)
    → ((refund d r t p).0 ≡ ok tt) ↔ (can_refund p.status ≡ true)
unfolding refund can_refund
can_refund_iff d r t p = (λ h. ground arith, λ h. ground arith)

-- `updatePaymentIntentId` returns exactly when the class of the state allows it.
pub can_update_intent_id_iff :
    (i : String) (t : Date) (p : Payment)
    → ((update_payment_intent_id i t p).0 ≡ ok tt) ↔ (can_update_intent_id p.status ≡ true)
unfolding update_payment_intent_id can_update_intent_id
can_update_intent_id_iff i t p = (λ h. ground arith, λ h. ground arith)

-- `markAsFailed` of a payment returns exactly when the class of its state allows it or the payment has
-- failed before: a second failure replaces the message, and the class of the failed state forbids it.
pub can_mark_as_failed_iff :
    (m : String) (t : Date) (p : Payment)
    → ((mark_as_failed m t p).0 ≡ ok tt)
      ↔ ((can_mark_as_failed p.status ≡ true) ⊎ (p.status ≡ failed))
unfolding mark_as_failed can_mark_as_failed
can_mark_as_failed_iff m t p = (λ h. ground arith, λ h. ground arith)

-- Driven through the class of its own state, a payment is paid and refunded as by its own methods.
pub state_guards :
    (d : Date) (r : Option String) (now : Date) (p : Payment)
    → ((state_mark_as_paid p.status d now p).1 ≡ (mark_as_paid (some d) now p).1)
      × ((state_refund p.status d r now p).1 ≡ (refund (some d) r now p).1)
unfolding state_mark_as_paid state_refund
state_guards d r now p = (ground arith, ground arith)

-- After `setMetadataKey` the key has the value and every other key what it had; the status, the
-- intent and the amount stay.
pub set_metadata_key_lem :
    (key val j : String) (t : Date) (p : Payment)
    → let p' = (set_metadata_key key val t p).1 in
      (Metadata.lookup j p'.metadata
        ≡ (if key == j then some val else Metadata.lookup j p.metadata))
      × (p'.status ≡ p.status)
      × (p'.payment_intent_id ≡ p.payment_intent_id)
      × (p'.amount ≡ p.amount)
unfolding set_metadata_key
set_metadata_key_lem key val j t p = (
  ground (
    arith,
    Metadata.equals-true p.metadata (Metadata.set key val p.metadata),
    Metadata.lookup-set j key val p.metadata,
  ),
  ground arith,
  ground arith,
  ground arith,
)
