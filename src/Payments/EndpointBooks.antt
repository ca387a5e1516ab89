-- ===== src/Payments/EndpointBooks.antt =====
-- The calls of payments.service.ts that set the status of a payment, on books that balance.
use ops_marketplace_server.Base.{
  if_holds, Bool, true, false, ◌&&◌, not, is_empty_text, Option, none, some, List, String, throw,
  throw_if, pure, ◌>>=◌, ◌>>◌,
}
use ops_marketplace_server.Payment.{PaymentStatus, is_pending}
use ops_marketplace_server.Database.{
  Client, Tables, PaymentItem, PaymentRow, find_payment, Error, payment_missing, shop_missing,
  payment_not_pending, cod_not_processed, cod_only, payment_id_missing, webhook_target_missing,
  payment_of_other_shop, query, or_throw,
}
use ops_marketplace_server.Ledger.Keeps.{
  Always, Always-bind, Always-read, Always-found, Always-or_throw, Always-throw_if,
}
use ops_marketplace_server.Ledger.Balance.{IsBalanced}
use ops_marketplace_server.Payments.{NewIds, apply_payment_status}
use ops_marketplace_server.Payments.Books.{apply_payment-Books}
use ops_marketplace_server.Payments.Endpoints.{
  AuthUser, WebhookEvent, is_admin, is_cod, is_given, event_status, webhook_target, of_user,
  find_latest, owns_every_order, get_payment, get_payment_by_id, get_payment_for,
  update_payment_status, process_payment, cancel_payment, handle_provider_webhook, assert_owner,
  assert_shop, assert_can_collect_payment, collect_found, collect_cod_payment, confirm_by_order,
  confirm_order, confirm_cod_payment,
}

module _ (C : Client) where
  abbrev Books : C.State → Type 0
  Books s = IsBalanced (C.seen s)

  get_payment-Books :
      (user_id payment_id : String) → Always C Books (get_payment C user_id payment_id)
  unfolding get_payment
  get_payment-Books user_id payment_id =
      Always-read C Books (λ t. of_user user_id (find_payment payment_id t.payments))
        (or_throw C payment_missing) (Always-or_throw C Books payment_missing)

  get_payment_for-Books :
      (user : AuthUser) (payment_id : String) → Always C Books (get_payment_for C user payment_id)
  unfolding get_payment_for get_payment_by_id
  get_payment_for-Books user payment_id =
      if_holds (λ m. Always C Books m) (is_admin user.roles) (get_payment_by_id C payment_id)
        (get_payment C user.id payment_id)
        (Always-read C Books (λ t. find_payment payment_id t.payments) (or_throw C payment_missing)
          (Always-or_throw C Books payment_missing))
        (get_payment-Books user.id payment_id)

  pub update_payment_status-Books :
      (ids : NewIds) (user : AuthUser) (payment_id : String) (status : PaymentStatus)
      (ref : Option String)
      → Always C Books (update_payment_status C ids user payment_id status ref)
  unfolding update_payment_status
  update_payment_status-Books ids user payment_id status ref =
      Always-bind C Books (get_payment_for C user payment_id)
        (λ row. apply_payment_status C ids row.id status ref)
        (get_payment_for-Books user payment_id) (λ row. apply_payment-Books C ids row.id status ref)

  -- A guard, and the status of the payment.
  guarded-Books :
      (ids : NewIds) (b : Bool) (e : Error) (payment_id : String) (status : PaymentStatus)
      (ref : Option String)
      → Always C Books (throw_if b e >> apply_payment_status C ids payment_id status ref)
  guarded-Books ids b e payment_id status ref =
      Always-throw_if C Books b e (apply_payment_status C ids payment_id status ref)
        (apply_payment-Books C ids payment_id status ref)

  pub process_payment-Books :
      (ids : NewIds) (user : AuthUser) (payment_id ref : String)
      → Always C Books (process_payment C ids user payment_id ref)
  unfolding process_payment
  process_payment-Books ids user payment_id ref =
      Always-bind C Books (get_payment_for C user payment_id)
        (λ row.
          throw_if (is_cod row.method) cod_not_processed
          >> apply_payment_status C ids row.id PaymentStatus.succeeded (some ref))
        (get_payment_for-Books user payment_id)
        (λ row.
          guarded-Books ids (is_cod row.method) cod_not_processed row.id PaymentStatus.succeeded
            (some ref))

  pub cancel_payment-Books :
      (ids : NewIds) (user_id payment_id : String)
      → Always C Books (cancel_payment C ids user_id payment_id)
  unfolding cancel_payment
  cancel_payment-Books ids user_id payment_id =
      Always-bind C Books (get_payment C user_id payment_id)
        (λ row.
          throw_if (not (is_pending row.status)) payment_not_pending
          >> apply_payment_status C ids row.id PaymentStatus.failed none)
        (get_payment-Books user_id payment_id)
        (λ row.
          guarded-Books ids (not (is_pending row.status)) payment_not_pending row.id
            PaymentStatus.failed none)

  pub webhook-Books :
      (ids : NewIds) (event : WebhookEvent) → Always C Books (handle_provider_webhook C ids event)
  unfolding handle_provider_webhook
  webhook-Books ids event =
      let find = λ (t : Tables). webhook_target event.payment_id event.id t.payments in
      let apply =
        λ (row : PaymentRow). apply_payment_status C ids row.id (event_status event) event.id in
      let rest = λ (o : Option PaymentRow). or_throw C webhook_target_missing o >>= apply in
      Always-throw_if C Books (not (is_given event.payment_id) && not (is_given event.id))
        payment_id_missing (query C find >>= rest)
        (Always-read C Books find rest (λ o.
          Always-found C Books webhook_target_missing o apply
            (λ row. apply_payment-Books C ids row.id (event_status event) event.id)))

  if_throws : (b : Bool) (e : Error) → Always C Books (throw_if b e)
  if_throws true e s p = p
  if_throws false e s p = p

  assert_shop-Books :
      (user : AuthUser) (t : Tables) (items : List PaymentItem)
      → Always C Books (assert_shop C user t items)
  unfolding assert_shop
  assert_shop-Books user t items =
      Always-read C Books (λ u. u.owner_shops user.id)
        (λ shop. or_throw C shop_missing shop >>= assert_owner C items t)
        (λ shop.
          Always-found C Books shop_missing shop (assert_owner C items t)
            (λ shop_id. if_throws (not (owns_every_order shop_id t items)) payment_of_other_shop))

  collect_found-Books :
      (ids : NewIds) (user : AuthUser) (t : Tables) (row : PaymentRow)
      → Always C Books (collect_found C ids user t row)
  unfolding collect_found assert_can_collect_payment
  collect_found-Books ids user t row =
      Always-bind C Books (assert_can_collect_payment C user t row.items)
        (λ u.
          throw_if (not (is_cod row.method)) cod_only
          >> apply_payment_status C ids row.id PaymentStatus.succeeded none)
        (if_holds (λ m. Always C Books m) (is_admin user.roles) (pure tt)
          (assert_shop C user t row.items) (λ s p. p) (assert_shop-Books user t row.items))
        (λ u.
          guarded-Books ids (not (is_cod row.method)) cod_only row.id PaymentStatus.succeeded none)

  -- A payment that was read with all that belongs to it, and the rest.
  collect-Books :
      (ids : NewIds) (user : AuthUser) (find : Tables → Option PaymentRow)
      → Always C Books (
          query C (λ t. t) >>= λ t.
          or_throw C payment_missing (find t) >>= collect_found C ids user t)
  collect-Books ids user find =
      Always-read C Books (λ t. t)
        (λ t. or_throw C payment_missing (find t) >>= collect_found C ids user t)
        (λ t.
          Always-found C Books payment_missing (find t) (collect_found C ids user t)
            (collect_found-Books ids user t))

  pub collect_cod_payment-Books :
      (ids : NewIds) (user : AuthUser) (payment_id : String)
      → Always C Books (collect_cod_payment C ids user payment_id)
  unfolding collect_cod_payment
  collect_cod_payment-Books ids user payment_id =
      collect-Books ids user (λ t. find_payment payment_id t.payments)

  confirm_order-Books :
      (ids : NewIds) (user : AuthUser) (order_id : Option String)
      → Always C Books (confirm_order C ids user order_id)
  unfolding confirm_by_order
  confirm_order-Books ids user none = λ s p. p
  confirm_order-Books ids user (some id) =
      if_holds (λ m. Always C Books m) (is_empty_text id) (throw payment_id_missing)
        (confirm_by_order C ids user id) (λ s p. p)
        (collect-Books ids user (λ t. find_latest id t.payments))

  pub confirm_cod_payment-Books :
      (ids : NewIds) (user : AuthUser) (payment_id order_id : Option String)
      → Always C Books (confirm_cod_payment C ids user payment_id order_id)
  confirm_cod_payment-Books ids user none order_id = confirm_order-Books ids user order_id
  confirm_cod_payment-Books ids user (some id) order_id =
      if_holds (λ m. Always C Books m) (is_empty_text id) (confirm_order C ids user order_id)
        (collect_cod_payment C ids user id) (confirm_order-Books ids user order_id)
        (collect_cod_payment-Books ids user id)
