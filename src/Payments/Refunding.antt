-- ===== src/Payments/Refunding.antt =====
-- Refunds in src/modules/payment/payments.service.ts, over any database.
use ops_marketplace_server.Base.{
  ℤ, pos, leb_ℤ, ltb_ℤ, Bool, true, false, ◌||◌, not, if◌then◌else◌, get_or, is_some, Option, none,
  some, String, ◌==◌, Void, throw, throw_if, pure, ◌>>=◌, ◌>>◌,
}
use ops_marketplace_server.Ids.{Date}
use ops_marketplace_server.Payment.{PaymentStatus, is_paid}
use ops_marketplace_server.Database.{
  first_shop, Client, Query, seller_available, buyer_wallet, debit, credit, refund, OrderRow,
  RefundRow, RefundStatus, requested, rejected, refunded, order_missing, refund_missing,
  shop_missing, balance_insufficient, refund_not_requested, order_not_paid, refund_exists,
  refund_amount_invalid, unique_violation, record_missing, query, write, transaction,
  find_account_of, find_refund, find_active, or_throw,
}
use ops_marketplace_server.Payments.{NewIds, post_to, post_all, seller_accounts}

module _ (C : Client) where
  abbrev pub refund_owner : NewIds → String → ℤ → String → Option String → Query C Void
  refund_owner ids buyer_id amount refund_id none = pure tt
  refund_owner ids buyer_id amount refund_id (some owner) = do
    found ← query C (find_account_of owner seller_available)
    throw_if (ltb_ℤ (elim found [ none ↦ pos 0 | some (id, a) ↦ a.balance ]) amount)
        balance_insufficient
    post_all C ids debit refund owner amount refund_id seller_accounts
    post_to C ids credit refund buyer_id amount refund_id buyer_wallet

  unfoldable pub record_refund_ledger_entries : NewIds → String → String → ℤ → String → Query C Void
  record_refund_ledger_entries ids buyer_id shop_id amount refund_id = do
    owner ← query C (λ t. t.shop_owners shop_id)
    refund_owner ids buyer_id amount refund_id owner

  -- `findFirst` by the id and the shop.
  abbrev pub of_shop : String → Option RefundRow → Option RefundRow
  of_shop shop_id none = none
  of_shop shop_id (some r) = if r.shop_id == shop_id then some r else none

  unfoldable pub get_refund_for_shop : String → String → Query C RefundRow
  get_refund_for_shop refund_id shop_id = do
    row ← query C (λ t. of_shop shop_id (find_refund refund_id t.refunds))
    or_throw C refund_missing row

  unfoldable pub get_seller_shop : String → Query C String
  get_seller_shop user_id = do
    shop ← query C (λ t. t.owner_shops user_id)
    or_throw C shop_missing shop

  abbrev pub is_requested : RefundStatus → Bool
  is_requested requested = true
  is_requested _ = false

  -- `tx.order.update` of the refunded order: it throws on one that is not there.
  abbrev pub fail_order : String → Option OrderRow → Query C Void
  fail_order order_id none = throw record_missing
  fail_order order_id (some o) =
      write C (C.put_order order_id (record o { payment_status = PaymentStatus.failed }))

  unfoldable pub approve_body : NewIds → String → Date → String → RefundRow → Query C RefundRow
  approve_body ids buyer_id now refund_id row = do
    let updated = record row { status = refunded; processed_at = some now }
    write C (C.put_refund updated)
    order ← query C (λ t. t.orders row.order_id)
    fail_order row.order_id order
    record_refund_ledger_entries ids buyer_id row.shop_id row.amount refund_id
    pure updated

  -- The order comes with the refund, of which it is a foreign key.
  unfoldable pub approve_seller_refund : NewIds → String → String → Date → Query C RefundRow
  approve_seller_refund ids user_id refund_id now = do
    shop_id ← get_seller_shop user_id
    row ← get_refund_for_shop refund_id shop_id
    found ← query C (λ t. t.orders row.order_id)
    order ← or_throw C order_missing found
    throw_if (not (is_requested row.status)) refund_not_requested
    transaction C (λ before. approve_body ids order.buyer_id now refund_id row)

  unfoldable pub reject_seller_refund : String → String → String → Date → Query C RefundRow
  reject_seller_refund user_id refund_id reason now = do
    shop_id ← get_seller_shop user_id
    row ← get_refund_for_shop refund_id shop_id
    throw_if (not (is_requested row.status)) refund_not_requested
    let updated = record row {
      status = rejected;
      rejected_reason = some reason;
      processed_at = some now;
    }
    write C (C.put_refund updated)
    pure updated

  -- `findFirst` of the order by its id and its buyer.
  abbrev pub of_buyer : String → Option OrderRow → Option OrderRow
  of_buyer user_id none = none
  of_buyer user_id (some o) = if o.buyer_id == user_id then some o else none

  abbrev pub insert_refund : RefundRow → Option RefundRow → Query C Void
  insert_refund row none = write C (C.put_refund row)
  insert_refund row (some old) = throw unique_violation

  -- The row of a request: `dto.amount ?? order.totalPrice`, and the shop of the first item.
  abbrev pub requested_amount : Option ℤ → OrderRow → ℤ
  requested_amount amount order = get_or amount order.total_price

  abbrev pub requested_row : String → String → String → ℤ → Option String → OrderRow → RefundRow
  requested_row new_id user_id order_id amount reason order = record {
    id = new_id;
    user_id = user_id;
    order_id = order_id;
    shop_id = get_or (first_shop order) "";
    amount = amount;
    reason = reason;
    status = requested;
    rejected_reason = none;
    processed_at = none;
  }

  abbrev pub create_refund : RefundRow → Query C RefundRow
  create_refund row = do
    old ← query C (λ t. find_refund row.id t.refunds)
    insert_refund row old
    pure row

  -- `requestRefund` on the order that was found, and with the active refund of it.
  abbrev pub request_new :
      String
      → String
      → String
      → Option ℤ
      → Option String
      → OrderRow
      → Option RefundRow
      → Query C RefundRow
  request_new new_id user_id order_id amount reason order existing = do
    throw_if (is_some existing) refund_exists
    throw_if
        (leb_ℤ (requested_amount amount order) (pos 0)
          || ltb_ℤ order.total_price (requested_amount amount order))
        refund_amount_invalid
    create_refund
        (requested_row new_id user_id order_id (requested_amount amount order) reason order)

  abbrev pub request_found :
      String → String → String → Option ℤ → Option String → OrderRow → Query C RefundRow
  request_found new_id user_id order_id amount reason order = do
    throw_if (not (is_paid order.payment_status)) order_not_paid
    existing ← query C (λ t. find_active order_id user_id t.refunds)
    request_new new_id user_id order_id amount reason order existing

  -- `requestRefund`.
  unfoldable pub request_refund :
      String → String → String → Option ℤ → Option String → Query C RefundRow
  request_refund new_id user_id order_id amount reason = do
    found ← query C (λ t. of_buyer user_id (t.orders order_id))
    order ← or_throw C order_missing found
    request_found new_id user_id order_id amount reason order
