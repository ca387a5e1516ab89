-- ===== src/Order.antt =====
-- src/domain/entities/orders/Order.ts: an order and its methods. Prices and quantities are whole
-- numbers; an address is its text, which no method looks into. A method that reads the clock twice
-- takes two dates: `at`, and `touched` for the time of the update.
mod Status
mod History
mod Lifecycle
mod Shipping
mod Tests
unfoldable pub use Status.*
use ops_marketplace_server.Base.{
  ℤ, pos, ◌+ℤ◌, ◌*ℤ◌, leb_ℤ, Bool, true, false, ◌||◌, not, if◌then◌else◌, get_or, is_empty, Option,
  none, some, List, [], ◌∷◌, map, String, concat, is_blank, is_empty_text, Result, ok, err, Action,
  Void, self, pure, throw_if, when, modify, ◌>>=◌, ◌>>◌,
}
use ops_marketplace_server.Ids.{Date}
use ops_marketplace_server.Payment.{PaymentStatus, is_paid, is_pending}
use ops_marketplace_server.Payment

pub data Error : Type 0 where
  quantity_not_positive no_items : Error
  update_cancelled update_delivered update_refunded ship_unpaid deliver_unpaid cancel_too_late :
      Error
  payment_of_cancelled empty_intent payment_not_pending cancelled_as_paid : Error
  ship_cancelled ship_twice ship_before_payment deliver_cancelled deliver_unshipped : Error
  cancel_delivered cancel_shipped address_after_shipping address_of_cancelled empty_note : Error

pub record OrderItem : Type 0 where
  pub shop_id : String
  pub product_id : String
  pub product_name : String
  pub quantity : ℤ
  pub retail_price : ℤ
  pub wholesale_price : Option ℤ

unfoldable pub get_effective_price : OrderItem → ℤ
get_effective_price i = get_or i.wholesale_price i.retail_price

unfoldable pub get_total_price : OrderItem → ℤ
get_total_price i = get_or i.wholesale_price i.retail_price *ℤ i.quantity

unfoldable pub change_quantity : ℤ → Action OrderItem Error Void
change_quantity n = do
  throw_if (leb_ℤ n (pos 0)) quantity_not_positive
  modify (λ i. record i { quantity = n })

pub record Order : Type 0 where
  pub id : String
  pub buyer_id : String
  pub seller_id : String
  pub order_type : OrderType
  pub items : List OrderItem
  pub subtotal : ℤ
  pub shipping_fee : ℤ
  pub grand_total : ℤ
  pub shipping_address : String
  pub payment_method : String
  pub payment_status : PaymentStatus
  pub order_status : OrderStatus
  pub created_at : Date
  pub updated_at : Date
  pub payment_intent_id : Option String
  pub shipped_at : Option Date
  pub delivered_at : Option Date
  pub cancelled_at : Option Date
  pub notes : Option String

-- The argument of `create`; `id` is what `crypto.randomUUID()` returns.
pub record Input : Type 0 where
  pub buyer_id : String
  pub seller_id : String
  pub order_type : OrderType
  pub sub_total : ℤ
  pub shipping_fee : ℤ
  pub items : List OrderItem
  pub shipping_address : String
  pub payment_method : String
  pub notes : Option String

unfoldable pub create : String → Date → Input → Result Error Order
create id now input =
    if is_empty input.items
    then err no_items
    else ok (record {
      id = id;
      buyer_id = input.buyer_id;
      seller_id = input.seller_id;
      order_type = input.order_type;
      items = input.items;
      subtotal = input.sub_total;
      shipping_fee = input.shipping_fee;
      grand_total = input.sub_total +ℤ input.shipping_fee;
      shipping_address = input.shipping_address;
      payment_method = input.payment_method;
      payment_status = PaymentStatus.pending;
      order_status = pending;
      created_at = now;
      updated_at = now;
      payment_intent_id = none;
      shipped_at = none;
      delivered_at = none;
      cancelled_at = none;
      notes = input.notes;
    })

abbrev pub touch : Date → Order → Order
touch now o = record o { updated_at = now }

unfoldable pub can_be_cancelled : Order → Bool
unfolding equals
can_be_cancelled o = includes (pending ∷ confirmed ∷ []) o.order_status

unfoldable pub update_order_status : OrderStatus → Date → Date → Action Order Error Void
unfolding can_be_cancelled is_paid
update_order_status new_status at touched = do
  o ← self
  if equals new_status o.order_status then pure tt else (do
    throw_if (equals o.order_status cancelled) update_cancelled
    throw_if (equals o.order_status delivered) update_delivered
    throw_if (equals o.order_status refunded) update_refunded
    when (equals new_status shipped) (do
      throw_if (not (is_paid o.payment_status)) ship_unpaid
      modify (λ o. record o { shipped_at = some at }))
    when (equals new_status delivered) (do
      throw_if (not (is_paid o.payment_status)) deliver_unpaid
      modify (λ o. record o { delivered_at = some at }))
    when (equals new_status cancelled) (do
      throw_if (not (can_be_cancelled o)) cancel_too_late
      modify (λ o. record o { cancelled_at = some at }))
    modify (λ o. record o { order_status = new_status })
    modify (touch touched))

unfoldable pub update_payment_status : PaymentStatus → Date → Action Order Error Void
unfolding equals
update_payment_status new_status now = do
  o ← self
  throw_if (equals o.order_status cancelled) payment_of_cancelled
  modify (λ o. record o { payment_status = new_status })
  modify (touch now)

unfoldable pub set_payment_intent : String → Date → Action Order Error Void
set_payment_intent intent now = do
  throw_if (is_blank intent) empty_intent
  modify (λ o. record o { payment_intent_id = some intent })
  modify (touch now)

unfoldable pub mark_payment_succeeded : String → Date → Action Order Error Void
unfolding is_pending
mark_payment_succeeded intent now = do
  o ← self
  throw_if (not (is_pending o.payment_status)) payment_not_pending
  modify (λ o. record o { payment_status = PaymentStatus.succeeded })
  modify (λ o. record o { payment_intent_id = some intent })
  modify (touch now)

unfoldable pub mark_as_paid : Date → Action Order Error Void
unfolding equals is_paid
mark_as_paid now = do
  o ← self
  throw_if (equals o.order_status cancelled) cancelled_as_paid
  if is_paid o.payment_status then pure tt else (do
    modify (λ o. record o { payment_status = PaymentStatus.succeeded })
    modify (touch now))

unfoldable pub ship : Date → Date → Action Order Error Void
unfolding equals is_paid
ship at touched = do
  o ← self
  throw_if (equals o.order_status cancelled) ship_cancelled
  throw_if (equals o.order_status shipped || equals o.order_status delivered) ship_twice
  throw_if (not (is_paid o.payment_status)) ship_before_payment
  update_order_status shipped at touched

unfoldable pub deliver : Date → Date → Action Order Error Void
unfolding equals
deliver at touched = do
  o ← self
  throw_if (equals o.order_status cancelled) deliver_cancelled
  throw_if (not (equals o.order_status shipped)) deliver_unshipped
  update_order_status delivered at touched

-- An absent text and an empty one are both falsy.
abbrev pub is_given : Option String → Bool
is_given none = false
is_given (some t) = not (is_empty_text t)

abbrev pub add_reason : Option String → String → Option String
add_reason none reason = some (concat "Cancellation reason: " reason)
add_reason (some notes) reason =
    if is_empty_text notes
    then some (concat "Cancellation reason: " reason)
    else some (concat notes (concat "\nCancellation reason: " reason))

unfoldable pub cancel : Option String → Date → Date → Action Order Error Void
unfolding equals
cancel reason at touched = do
  o ← self
  if equals o.order_status cancelled then pure tt else (do
    throw_if (equals o.order_status delivered) cancel_delivered
    throw_if (equals o.order_status shipped) cancel_shipped
    update_order_status cancelled at touched
    when (is_given reason)
        (modify (λ o. record o { notes = add_reason o.notes (get_or reason "") })))

unfoldable pub update_shipping_address : String → Date → Action Order Error Void
unfolding equals
update_shipping_address address now = do
  o ← self
  throw_if (equals o.order_status shipped || equals o.order_status delivered) address_after_shipping
  throw_if (equals o.order_status cancelled) address_of_cancelled
  modify (λ o. record o { shipping_address = address })
  modify (touch now)

abbrev pub append_note : Option String → String → String
append_note none note = note
append_note (some notes) note =
    if is_empty_text notes then note else concat notes (concat "\n" note)

unfoldable pub add_note : String → Date → Action Order Error Void
add_note note now = do
  throw_if (is_blank note) empty_note
  modify (λ o. record o { notes = some (append_note o.notes note) })
  modify (touch now)
