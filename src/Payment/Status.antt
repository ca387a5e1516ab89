-- ===== src/Payment/Status.antt =====
-- src/domain/state/PaymentState.ts: what each state of a payment allows. A class is its status; an
-- `override` is a clause of its own.
use ops_marketplace_server.Base.{Bool, true, false, ◌&&◌, ◌||◌, not}

pub data PaymentStatus : Type 0 where
  pending succeeded failed refunded : PaymentStatus

unfoldable pub is_paid : PaymentStatus → Bool
is_paid succeeded = true
is_paid _ = false

unfoldable pub is_pending : PaymentStatus → Bool
is_pending pending = true
is_pending _ = false

unfoldable pub is_failed : PaymentStatus → Bool
is_failed failed = true
is_failed _ = false

unfoldable pub is_refunded : PaymentStatus → Bool
is_refunded refunded = true
is_refunded _ = false

unfoldable pub is_refundable : PaymentStatus → Bool
unfolding is_paid is_refunded
is_refundable s = is_paid s && not (is_refunded s)

unfoldable pub can_mark_as_paid : PaymentStatus → Bool
unfolding is_pending
can_mark_as_paid succeeded = false
can_mark_as_paid failed = false
can_mark_as_paid refunded = false
can_mark_as_paid s = is_pending s

unfoldable pub can_mark_as_failed : PaymentStatus → Bool
unfolding is_pending
can_mark_as_failed succeeded = false
can_mark_as_failed failed = false
can_mark_as_failed refunded = false
can_mark_as_failed s = is_pending s

unfoldable pub can_refund : PaymentStatus → Bool
unfolding is_paid
can_refund succeeded = true
can_refund failed = false
can_refund refunded = false
can_refund s = is_paid s

unfoldable pub can_update_intent_id : PaymentStatus → Bool
unfolding is_pending is_failed
can_update_intent_id failed = true
can_update_intent_id refunded = false
can_update_intent_id s = is_pending s || is_failed s
