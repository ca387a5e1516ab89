-- ===== src/Payments/Endpoints.antt =====
-- The calls of src/modules/payment/payments.service.ts that set the status of a payment. That the
-- signature of a webhook is Stripe's is not modelled: its event is an argument.
use ops_marketplace_server.Base.{
  Bool, true, false, ◌&&◌, ◌||◌, not, if◌then◌else◌, is_empty_text, Option, none, some, List, [],
  ◌∷◌, String, ◌==◌, throw, throw_if, pure, ◌>>=◌, ◌>>◌,
}
use ops_marketplace_server.Payment.{PaymentStatus, PaymentMethod, is_pending}
use ops_marketplace_server.Database.{
  first_shop, Client, Query, Tables, PaymentItem, PaymentProvider, PaymentRow, OrderRow,
  find_payment, payment_missing, shop_missing, payment_not_pending, cod_not_processed, cod_only,
  payment_id_missing, webhook_target_missing, payment_of_other_shop, query, or_throw,
}
use ops_marketplace_server.Payments.{NewIds, apply_payment_status}

pub data UserRole : Type 0 where
  admin buyer seller shipper : UserRole

pub record AuthUser : Type 0 where
  pub id : String
  pub roles : List UserRole

abbrev is_admin_role : UserRole → Bool
is_admin_role UserRole.admin = true
is_admin_role _ = false

-- `roles.includes(UserRole.ADMIN)`.
unfoldable pub is_admin : List UserRole → Bool
is_admin [] = false
is_admin (r ∷ rs) = is_admin_role r || is_admin rs

abbrev pub is_cod : PaymentMethod → Bool
is_cod PaymentMethod.cod = true
is_cod _ = false

abbrev pub is_stripe : Option PaymentProvider → Bool
is_stripe (some PaymentProvider.stripe) = true
is_stripe _ = false

unfoldable pub includes : String → List String → Bool
includes w [] = false
includes w (x ∷ xs) = x == w || includes w xs

-- `statuses.some((status) => words.includes(status ?? ''))`.
unfoldable pub some_includes : List (Option String) → List String → Bool
unfolding includes
some_includes [] words = false
some_includes (none ∷ ss) words = includes "" words || some_includes ss words
some_includes (some w ∷ ss) words = includes w words || some_includes ss words

abbrev pub paid_words : List String
paid_words =
    "paid" ∷ "succeeded" ∷ "complete" ∷ "checkout.session.completed" ∷ "payment_intent.succeeded"
    ∷ []

abbrev pub failed_words : List String
failed_words =
    "failed" ∷ "canceled" ∷ "cancelled" ∷ "expired" ∷ "payment_intent.payment_failed"
    ∷ "checkout.session.expired" ∷ []

unfoldable pub stripe_status_to_payment_status : List (Option String) → PaymentStatus
unfolding some_includes
stripe_status_to_payment_status statuses =
    if some_includes statuses paid_words
    then PaymentStatus.succeeded
    else if some_includes statuses failed_words
    then PaymentStatus.failed
    else PaymentStatus.pending

-- A Stripe event: the fields of it that are read.
pub record WebhookEvent : Type 0 where
  pub type : String
  pub id : Option String
  pub payment_status : Option String
  pub status : Option String
  pub payment_id : Option String

abbrev pub event_status : WebhookEvent → PaymentStatus
event_status e = stripe_status_to_payment_status (some e.type ∷ e.payment_status ∷ e.status ∷ [])

-- A text that is absent or empty is false.
abbrev pub is_given : Option String → Bool
is_given none = false
is_given (some t) = not (is_empty_text t)

unfoldable pub find_by_ref : String → List PaymentRow → Option PaymentRow
find_by_ref ref [] = none
find_by_ref ref (r ∷ rs) = elim r.provider_ref [
  | none ↦ find_by_ref ref rs
  | some x ↦ if x == ref && is_stripe r.provider then some r else find_by_ref ref rs
]

abbrev pub of_stripe : Option PaymentRow → Option PaymentRow
of_stripe none = none
of_stripe (some r) = if is_stripe r.provider then some r else none

-- The payment that an event is about.
abbrev pub webhook_target : Option String → Option String → List PaymentRow → Option PaymentRow
webhook_target none none rows = none
webhook_target none (some ref) rows = find_by_ref ref rows
webhook_target (some id) ref rows =
    if is_empty_text id
    then elim ref [ none ↦ none | some r ↦ find_by_ref r rows ]
    else of_stripe (find_payment id rows)

abbrev pub of_user : String → Option PaymentRow → Option PaymentRow
of_user user_id none = none
of_user user_id (some r) = if r.user_id == user_id then some r else none

unfoldable pub has_order : String → List PaymentItem → Bool
has_order order_id [] = false
has_order order_id (i ∷ is) = i.order_id == order_id || has_order order_id is

-- The latest payment with an item of the order.
unfoldable pub find_latest : String → List PaymentRow → Option PaymentRow
unfolding has_order
find_latest order_id [] = none
find_latest order_id (r ∷ rs) = elim (find_latest order_id rs) [
  | some later ↦ some later
  | none ↦ if has_order order_id r.items then some r else none
]

abbrev is_of_shop : String → Option OrderRow → Bool
is_of_shop shop_id none = false
is_of_shop shop_id (some o) = elim (first_shop o) [ none ↦ false | some s ↦ s == shop_id ]

-- `payment.items.every((item) => item.order.items[0]?.shopId === shop.id)`.
unfoldable pub owns_every_order : String → Tables → List PaymentItem → Bool
owns_every_order shop_id t [] = true
owns_every_order shop_id t (i ∷ is) =
    is_of_shop shop_id (t.orders i.order_id) && owns_every_order shop_id t is

module _ (C : Client) where
  unfoldable pub get_payment : String → String → Query C PaymentRow
  get_payment user_id payment_id = do
    row ← query C (λ t. of_user user_id (find_payment payment_id t.payments))
    or_throw C payment_missing row

  unfoldable pub get_payment_by_id : String → Query C PaymentRow
  get_payment_by_id payment_id = do
    row ← query C (λ t. find_payment payment_id t.payments)
    or_throw C payment_missing row

  -- An admin may name any payment, another user their own.
  unfoldable pub get_payment_for : AuthUser → String → Query C PaymentRow
  get_payment_for user payment_id =
      if is_admin user.roles then get_payment_by_id payment_id else get_payment user.id payment_id

  unfoldable pub update_payment_status :
      NewIds → AuthUser → String → PaymentStatus → Option String → Query C PaymentRow
  update_payment_status ids user payment_id status provider_ref = do
    row ← get_payment_for user payment_id
    apply_payment_status C ids row.id status provider_ref

  unfoldable pub process_payment : NewIds → AuthUser → String → String → Query C PaymentRow
  process_payment ids user payment_id provider_ref = do
    row ← get_payment_for user payment_id
    throw_if (is_cod row.method) cod_not_processed
    apply_payment_status C ids row.id PaymentStatus.succeeded (some provider_ref)

  unfoldable pub cancel_payment : NewIds → String → String → Query C PaymentRow
  cancel_payment ids user_id payment_id = do
    row ← get_payment user_id payment_id
    throw_if (not (is_pending row.status)) payment_not_pending
    apply_payment_status C ids row.id PaymentStatus.failed none

  -- `handleProviderWebhook` on the event whose signature was verified.
  unfoldable pub handle_provider_webhook : NewIds → WebhookEvent → Query C PaymentRow
  handle_provider_webhook ids event = do
    throw_if (not (is_given event.payment_id) && not (is_given event.id)) payment_id_missing
    found ← query C (λ t. webhook_target event.payment_id event.id t.payments)
    row ← or_throw C webhook_target_missing found
    apply_payment_status C ids row.id (event_status event) event.id

  abbrev pub assert_owner : List PaymentItem → Tables → String → Query C (Unit {0})
  assert_owner items t shop_id =
      throw_if (not (owns_every_order shop_id t items)) payment_of_other_shop

  unfoldable pub assert_shop : AuthUser → Tables → List PaymentItem → Query C (Unit {0})
  assert_shop user t items = do
    shop ← query C (λ t. t.owner_shops user.id)
    shop_id ← or_throw C shop_missing shop
    assert_owner items t shop_id

  -- `assertCanCollectPayment`; `t` is what was read with the payment.
  unfoldable pub assert_can_collect_payment :
      AuthUser → Tables → List PaymentItem → Query C (Unit {0})
  assert_can_collect_payment user t items =
      if is_admin user.roles then pure tt else assert_shop user t items

  -- The rest of the two calls on a COD payment, on what was read.
  unfoldable pub collect_found : NewIds → AuthUser → Tables → PaymentRow → Query C PaymentRow
  collect_found ids user t row = do
    assert_can_collect_payment user t row.items
    throw_if (not (is_cod row.method)) cod_only
    apply_payment_status C ids row.id PaymentStatus.succeeded none

  unfoldable pub collect_cod_payment : NewIds → AuthUser → String → Query C PaymentRow
  collect_cod_payment ids user payment_id = do
    t ← query C (λ t. t)
    row ← or_throw C payment_missing (find_payment payment_id t.payments)
    collect_found ids user t row

  -- `confirmCodPayment` by the order.
  unfoldable pub confirm_by_order : NewIds → AuthUser → String → Query C PaymentRow
  confirm_by_order ids user order_id = do
    t ← query C (λ t. t)
    row ← or_throw C payment_missing (find_latest order_id t.payments)
    collect_found ids user t row

  abbrev pub confirm_order : NewIds → AuthUser → Option String → Query C PaymentRow
  confirm_order ids user none = throw payment_id_missing
  confirm_order ids user (some id) =
      if is_empty_text id then throw payment_id_missing else confirm_by_order ids user id

  abbrev pub confirm_cod_payment :
      NewIds → AuthUser → Option String → Option String → Query C PaymentRow
  confirm_cod_payment ids user none order_id = confirm_order ids user order_id
  confirm_cod_payment ids user (some id) order_id =
      if is_empty_text id then confirm_order ids user order_id else collect_cod_payment ids user id
