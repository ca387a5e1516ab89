-- ===== src/Payout.antt =====
-- src/domain/entities/payouts/Payout.ts and src/domain/events/PayoutEvents.ts: a payout to a user, whose
-- methods ask the state object first and then write the rest.
mod Status
mod Lifecycle
mod Tests
unfoldable pub use Status.*
use ops_marketplace_server.Base.{
  Bool, not, Option, none, some, List, [], ◌∷◌, push, String, ◌==◌, Action, Void, self, throw,
  throw_if, modify, ◌>>=◌, ◌>>◌,
}
use ops_marketplace_server.Ids.{PayoutId, UserId, Date}
use ops_marketplace_server.Money.{Money}

pub data PayoutMethod : Type 0 where
  bank_transfer stripe momo cash : PayoutMethod

pub data Event : Type 0 where
  payout_created : PayoutId → UserId → Money → Date → Event
  payout_paid : PayoutId → UserId → Money → String → Date → Event
  payout_failed : PayoutId → UserId → Money → Date → Event

pub data Error : Type 0 where
  cannot_pay cannot_fail : PayoutStatus → Error
  already_paid paid_as_failed failed_must_retry : Error

pub record Payout : Type 0 where
  pub id : PayoutId
  pub user_id : UserId
  pub amount : Money
  pub method : Option PayoutMethod
  pub reference : Option String
  pub created_at : Date
  pub paid_at : Option Date
  pub state : PayoutStatus
  pub events : List Event

unfoldable pub create : PayoutId → UserId → Money → Option PayoutMethod → Date → Payout
create id user_id amount method now = record {
  id = id;
  user_id = user_id;
  amount = amount;
  method = method;
  reference = none;
  created_at = now;
  paid_at = none;
  state = pending;
  events = push [] (payout_created id user_id amount now);
}

abbrev pub add_event : Event → Payout → Payout
add_event e p = record p { events = push p.events e }

-- `setState`, with `createStateFromStatus`.
unfoldable pub set_state : PayoutStatus → Action Payout Error Void
set_state status = modify (λ p. record p { state = status })

-- The base class's `markPaid` and `markFailed`.
abbrev base_mark_paid : PayoutStatus → Action Payout Error Void
unfolding can_mark_paid set_state
base_mark_paid s = do throw_if (not (can_mark_paid s)) (cannot_pay s); set_state paid

abbrev base_mark_failed : PayoutStatus → Action Payout Error Void
unfolding can_mark_failed set_state
base_mark_failed s = do throw_if (not (can_mark_failed s)) (cannot_fail s); set_state failed

-- The method of the class of a state.
unfoldable pub state_mark_paid : PayoutStatus → Action Payout Error Void
unfolding can_mark_paid set_state
state_mark_paid pending = base_mark_paid pending
state_mark_paid paid = throw already_paid
state_mark_paid failed = throw failed_must_retry

unfoldable pub state_mark_failed : PayoutStatus → Action Payout Error Void
unfolding can_mark_failed set_state
state_mark_failed pending = base_mark_failed pending
state_mark_failed paid = throw paid_as_failed
state_mark_failed failed = base_mark_failed failed

unfoldable pub mark_paid : String → Date → Action Payout Error Void
unfolding state_mark_paid
mark_paid reference timestamp = do
  p ← self
  state_mark_paid p.state
  modify (λ p. record p { reference = some reference })
  modify (λ p. record p { paid_at = some timestamp })
  modify (add_event (payout_paid p.id p.user_id p.amount reference timestamp))

unfoldable pub mark_failed : Date → Action Payout Error Void
unfolding state_mark_failed
mark_failed timestamp = do
  p ← self
  state_mark_failed p.state
  modify (add_event (payout_failed p.id p.user_id p.amount timestamp))

unfoldable pub clear_events : Action Payout Error Void
clear_events = modify (λ p. record p { events = [] })
