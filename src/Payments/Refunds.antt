-- ===== src/Payments/Refunds.antt =====
-- The calls of payments.service.ts that move the money of a refund, on books that balance.
use ops_marketplace_server.Base.{
  if_holds, ℤ, pos, leb_ℤ, ltb_ℤ, ◌||◌, not, is_some, Option, none, some, String, Result, ok, err,
  Void, throw_if, pure, ◌>>=◌, ◌>>◌,
}
use ops_marketplace_server.Ids.{Date}
use ops_marketplace_server.Payment.{PaymentStatus, is_paid}
use ops_marketplace_server.Database.{
  Client, Query, Tables, Account, seller_available, buyer_wallet, debit, credit, refund, OrderRow,
  RefundRow, rejected, refunded, Error, aborted, order_missing, refund_missing, shop_missing,
  balance_insufficient, refund_not_requested, order_not_paid, refund_exists, refund_amount_invalid,
  query, write, transaction, find_account_of, find_refund, find_active, or_throw,
}
use ops_marketplace_server.Ledger.Keeps.{
  Always, Always-bind, Always-read, Always-found, Always-or_throw, Always-throw_if, Keeps-bind,
  Keeps-throw_if, transaction-Keeps,
}
use ops_marketplace_server.Ledger.Balance.{IsBalanced, Balances, read-Balances, write-Balances}
use ops_marketplace_server.Payments.{NewIds, seller_accounts, post_to, post_all}
use ops_marketplace_server.Payments.Refunding.{
  refund_owner, record_refund_ledger_entries, of_shop, get_refund_for_shop, get_seller_shop,
  is_requested, fail_order, approve_body, approve_seller_refund, reject_seller_refund, of_buyer,
  insert_refund, requested_amount, requested_row, create_refund, request_new, request_found,
  request_refund,
}
use ops_marketplace_server.Payments.Books.{post_to-Balances, post_all-Balances, put_order-Balances}

module _ (C : Client) where
  abbrev Books : C.State → Type 0
  Books s = IsBalanced (C.seen s)

  refund_owner-Balances :
      (ids : NewIds) (buyer_id : String) (amount : ℤ) (refund_id : String) (o : Option String)
      → Balances C (refund_owner C ids buyer_id amount refund_id o)
  refund_owner-Balances ids buyer_id amount refund_id none = λ s p. p
  refund_owner-Balances ids buyer_id amount refund_id (some owner) =
      let back = post_to C ids credit refund buyer_id amount refund_id buyer_wallet in
      let take = post_all C ids debit refund owner amount refund_id seller_accounts in
      let test = λ (found : Option (String × Account)).
        ltb_ℤ (elim found [ none ↦ pos 0 | some (id, a) ↦ a.balance ]) amount in
      read-Balances C (find_account_of owner seller_available)
        (λ found. throw_if (test found) balance_insufficient >> (take >> back))
        (λ found.
          Keeps-bind Books (throw_if (test found) balance_insufficient) (λ u. take >> back)
            (Keeps-throw_if Books (test found) balance_insufficient)
            (λ u.
              Keeps-bind Books take (λ v. back)
                (post_all-Balances C ids debit refund owner amount refund_id seller_accounts)
                (λ v. post_to-Balances C ids credit refund buyer_id amount refund_id buyer_wallet)))

  record_refund-Balances :
      (ids : NewIds) (buyer_id shop_id : String) (amount : ℤ) (refund_id : String)
      → Balances C (record_refund_ledger_entries C ids buyer_id shop_id amount refund_id)
  unfolding record_refund_ledger_entries
  record_refund-Balances ids buyer_id shop_id amount refund_id =
      read-Balances C (λ t. t.shop_owners shop_id) (refund_owner C ids buyer_id amount refund_id)
        (refund_owner-Balances ids buyer_id amount refund_id)

  fail_order-Balances : (id : String) (o : Option OrderRow) → Balances C (fail_order C id o)
  fail_order-Balances id none = λ s p. tt
  fail_order-Balances id (some o) =
      put_order-Balances C id (record o { payment_status = PaymentStatus.failed })

  put_refund-Balances : (row : RefundRow) → Balances C (write C (C.put_refund row))
  put_refund-Balances row = write-Balances C (C.put_refund row) (λ s p. rw C.put_refund_lem p)

  approve_body-Balances :
      (ids : NewIds) (buyer_id : String) (now : Date) (refund_id : String) (row : RefundRow)
      → Balances C (approve_body C ids buyer_id now refund_id row)
  unfolding approve_body
  approve_body-Balances ids buyer_id now refund_id row =
      let updated = record row { status = refunded; processed_at = some now } in
      let pay = record_refund_ledger_entries C ids buyer_id row.shop_id row.amount refund_id in
      let fail =
        λ (order : Option OrderRow). fail_order C row.order_id order >> (pay >> pure updated) in
      Keeps-bind Books (write C (C.put_refund updated))
        (λ u. query C (λ t. t.orders row.order_id) >>= fail) (put_refund-Balances updated)
        (λ u.
          read-Balances C (λ t. t.orders row.order_id) fail
            (λ order.
              Keeps-bind Books (fail_order C row.order_id order) (λ v. pay >> pure updated)
                (fail_order-Balances row.order_id order)
                (λ v.
                  Keeps-bind Books pay (λ w. pure updated)
                    (record_refund-Balances ids buyer_id row.shop_id row.amount refund_id)
                    (λ w s p. p))))

  put_refund-Books : (row : RefundRow) → Always C Books (write C (C.put_refund row))
  unfolding write
  put_refund-Books row s p =
      if_holds {A = Result Error Void × C.State} (λ r. Books r.1) (C.seen s).is_open
        (ok tt, C.put_refund row s) (err aborted, s) (rw C.put_refund_lem p) p

  seller_shop-Books : (user_id : String) → Always C Books (get_seller_shop C user_id)
  unfolding get_seller_shop
  seller_shop-Books user_id =
      Always-read C Books (λ t. t.owner_shops user_id) (or_throw C shop_missing)
        (Always-or_throw C Books shop_missing)

  refund_for_shop-Books :
      (refund_id shop_id : String) → Always C Books (get_refund_for_shop C refund_id shop_id)
  unfolding get_refund_for_shop
  refund_for_shop-Books refund_id shop_id =
      Always-read C Books (λ t. of_shop C shop_id (find_refund refund_id t.refunds))
        (or_throw C refund_missing) (Always-or_throw C Books refund_missing)

  -- The two reads at the head of both answers to a refund, and the rest.
  shop_refund-Books :
      (user_id refund_id : String) (k : RefundRow → Query C RefundRow)
      → ((row : RefundRow) → Always C Books (k row))
      → Always C Books
          (get_seller_shop C user_id >>= λ shop_id. get_refund_for_shop C refund_id shop_id >>= k)
  shop_refund-Books user_id refund_id k h =
      Always-bind C Books (get_seller_shop C user_id)
        (λ shop_id. get_refund_for_shop C refund_id shop_id >>= k) (seller_shop-Books user_id)
        (λ shop_id.
          Always-bind C Books (get_refund_for_shop C refund_id shop_id) k
            (refund_for_shop-Books refund_id shop_id) h)

  pub approve_refund-Books :
      (ids : NewIds) (user_id refund_id : String) (now : Date)
      → Always C Books (approve_seller_refund C ids user_id refund_id now)
  unfolding approve_seller_refund
  approve_refund-Books ids user_id refund_id now =
      let run = λ (row : RefundRow) (order : OrderRow).
        transaction C (λ before. approve_body C ids order.buyer_id now refund_id row) in
      let guard = λ (row : RefundRow) (order : OrderRow).
        throw_if (not (is_requested C row.status)) refund_not_requested >> run row order in
      let found =
        λ (row : RefundRow) (o : Option OrderRow). or_throw C order_missing o >>= guard row in
      shop_refund-Books user_id refund_id
        (λ row. query C (λ t. t.orders row.order_id) >>= found row)
        (λ row.
          Always-read C Books (λ t. t.orders row.order_id) (found row)
            (λ o. Always-found C Books order_missing o (guard row) (λ order.
              Always-throw_if C Books (not (is_requested C row.status)) refund_not_requested
                (run row order)
                (transaction-Keeps C IsBalanced
                  (λ before. approve_body C ids order.buyer_id now refund_id row)
                  (λ before. approve_body-Balances ids order.buyer_id now refund_id row)))))

  pub reject_refund-Books :
      (user_id refund_id reason : String) (now : Date)
      → Always C Books (reject_seller_refund C user_id refund_id reason now)
  unfolding reject_seller_refund
  reject_refund-Books user_id refund_id reason now =
      let updated = λ (row : RefundRow). record row {
        status = rejected;
        rejected_reason = some reason;
        processed_at = some now;
      } in
      let put = λ (row : RefundRow). write C (C.put_refund (updated row)) >> pure (updated row) in
      shop_refund-Books user_id refund_id
        (λ row. throw_if (not (is_requested C row.status)) refund_not_requested >> put row)
        (λ row.
          Always-throw_if C Books (not (is_requested C row.status)) refund_not_requested (put row) (
            Always-bind C Books (write C (C.put_refund (updated row))) (λ u. pure (updated row))
              (put_refund-Books (updated row)) (λ u s p. p)))

  insert_refund-Books :
      (row : RefundRow) (o : Option RefundRow) → Always C Books (insert_refund C row o)
  insert_refund-Books row none = put_refund-Books row
  insert_refund-Books row (some old) = λ s p. p

  create_refund-Books : (row : RefundRow) → Always C Books (create_refund C row)
  create_refund-Books row =
      Always-read C Books (λ t. find_refund row.id t.refunds)
        (λ old. insert_refund C row old >> pure row)
        (λ old.
          Always-bind C Books (insert_refund C row old) (λ u. pure row)
            (insert_refund-Books row old) (λ u s p. p))

  module _ (new_id user_id order_id : String) (amount : Option ℤ) (reason : Option String) where
    request_new-Books :
        (order : OrderRow) (existing : Option RefundRow)
        → Always C Books (request_new C new_id user_id order_id amount reason order existing)
    request_new-Books order existing =
        let n = requested_amount C amount order in
        let bad = leb_ℤ n (pos 0) || ltb_ℤ order.total_price n in
        let create = create_refund C (requested_row C new_id user_id order_id n reason order) in
        Always-throw_if C Books (is_some existing) refund_exists
          (throw_if bad refund_amount_invalid >> create)
          (Always-throw_if C Books bad refund_amount_invalid create
            (create_refund-Books (requested_row C new_id user_id order_id n reason order)))

    request_found-Books :
        (order : OrderRow)
        → Always C Books (request_found C new_id user_id order_id amount reason order)
    request_found-Books order =
        let find = λ (t : Tables). find_active order_id user_id t.refunds in
        let rest = request_new C new_id user_id order_id amount reason order in
        Always-throw_if C Books (not (is_paid order.payment_status)) order_not_paid
          (query C find >>= rest) (Always-read C Books find rest (request_new-Books order))

    pub request_refund-Books :
        Always C Books (request_refund C new_id user_id order_id amount reason)
    unfolding request_refund
    request_refund-Books =
        let rest = request_found C new_id user_id order_id amount reason in
        Always-read C Books (λ t. of_buyer C user_id (t.orders order_id))
          (λ found. or_throw C order_missing found >>= rest)
          (λ found. Always-found C Books order_missing found rest request_found-Books)
