-- ===== src/Payments/Books.antt =====
-- The calls of payments.service.ts that move the money of a payment, on books that balance.
use ops_marketplace_server.Base.{
  throw_if, if_holds, ℤ, Bool, true, false, Option, none, some, List, [], ◌∷◌, String, pure, ◌>>=◌,
  ◌>>◌,
}
use ops_marketplace_server.Payment.{PaymentStatus, is_paid, is_pending}
use ops_marketplace_server.Database.{
  unique_violation, ref_taken, find_payment, Client, Tables, AccountType, EntryType, credit,
  Category, payment, PaymentItem, PaymentRow, OrderRow, payment_missing, query, write, transaction,
  upsert_account, post_if_missing, or_throw,
}
use ops_marketplace_server.Ledger.Keeps.{
  Keeps-throw_if, Always, Always-read, Always-found, Keeps-bind, Keeps-if, transaction-Keeps,
}
use ops_marketplace_server.Ledger.Balance.{
  IsBalanced, Balances, read-Balances, write-Balances, or_throw-Balances, post-Balances,
  upsert-Balances,
}
use ops_marketplace_server.Payments.{
  NewIds, entry_for, seller_accounts, shop_of, post_to, post_all, credit_owner,
  credit_seller_balance, credit_items, set_order_status, update_orders, claim, ref_or_old, settle,
  after_claim, apply_body, apply_found, apply_payment_status,
}

module _ (C : Client) where
  abbrev Books : C.State → Type 0
  Books s = IsBalanced (C.seen s)

  pub post_to-Balances :
      (ids : NewIds) (type : EntryType) (category : Category) (owner : String) (amount : ℤ)
      (reference : String) (t : AccountType)
      → Balances C (post_to C ids type category owner amount reference t)
  unfolding post_to post_if_missing
  post_to-Balances ids type category owner amount reference t =
      Keeps-bind Books (upsert_account C (ids.account owner t) owner t)
        (λ account_id. post_if_missing C (entry_for ids type category account_id amount reference))
        (upsert-Balances C (ids.account owner t) owner t)
        (λ account_id.
          post-Balances C (entry_for ids type category account_id amount reference) (λ _. tt)
            (pure tt) (λ s p. p))

  pub post_all-Balances :
      (ids : NewIds) (type : EntryType) (category : Category) (owner : String) (amount : ℤ)
      (reference : String) (ts : List AccountType)
      → Balances C (post_all C ids type category owner amount reference ts)
  unfolding post_all
  post_all-Balances ids type category owner amount reference [] = λ s p. p
  post_all-Balances ids type category owner amount reference (t ∷ ts) =
      Keeps-bind Books (post_to C ids type category owner amount reference t)
        (λ u. post_all C ids type category owner amount reference ts)
        (post_to-Balances ids type category owner amount reference t)
        (λ u. post_all-Balances ids type category owner amount reference ts)

  credit_owner-Balances :
      (ids : NewIds) (amount : ℤ) (payment_id : String) (o : Option String)
      → Balances C (credit_owner C ids amount payment_id o)
  credit_owner-Balances ids amount payment_id none = λ s p. p
  credit_owner-Balances ids amount payment_id (some owner) =
      post_all-Balances ids credit payment owner amount payment_id seller_accounts

  credit_seller-Balances :
      (ids : NewIds) (shop_id : String) (amount : ℤ) (payment_id : String)
      → Balances C (credit_seller_balance C ids shop_id amount payment_id)
  unfolding credit_seller_balance
  credit_seller-Balances ids shop_id amount payment_id =
      read-Balances C (λ t. t.shop_owners shop_id) (credit_owner C ids amount payment_id)
        (credit_owner-Balances ids amount payment_id)

  credit_items-Balances :
      (ids : NewIds) (t : Tables) (payment_id : String) (is : List PaymentItem)
      → Balances C (credit_items C ids t payment_id is)
  unfolding credit_items
  credit_items-Balances ids t payment_id [] = λ s p. p
  credit_items-Balances ids t payment_id (i ∷ is) =
      Keeps-bind Books (credit_seller_balance C ids (shop_of t i.order_id) i.amount payment_id)
        (λ u. credit_items C ids t payment_id is)
        (credit_seller-Balances ids (shop_of t i.order_id) i.amount payment_id)
        (λ u. credit_items-Balances ids t payment_id is)

  pub put_order-Balances : (id : String) (o : OrderRow) → Balances C (write C (C.put_order id o))
  put_order-Balances id o = write-Balances C (C.put_order id o) (λ s p. rw C.put_order_lem p)

  set_order-Balances :
      (status : PaymentStatus) (id : String) (o : Option OrderRow)
      → Balances C (set_order_status C status id o)
  set_order-Balances status id none = λ s p. p
  set_order-Balances status id (some o) =
      put_order-Balances id (record o { payment_status = status })

  update_orders-Balances :
      (status : PaymentStatus) (is : List PaymentItem) → Balances C (update_orders C status is)
  unfolding update_orders
  update_orders-Balances status [] = λ s p. p
  update_orders-Balances status (i ∷ is) =
      read-Balances C (λ t. t.orders i.order_id)
        (λ row. set_order_status C status i.order_id row >> update_orders C status is)
        (λ row.
          Keeps-bind Books (set_order_status C status i.order_id row)
            (λ u. update_orders C status is) (set_order-Balances status i.order_id row)
            (λ u. update_orders-Balances status is))

  put_payment-Balances : (row : PaymentRow) → Balances C (write C (C.put_payment row))
  put_payment-Balances row = write-Balances C (C.put_payment row) (λ s p. rw C.put_payment_lem p)

  claim-Balances :
      (payment_id : String) (status : PaymentStatus) (ref : Option String) (o : Option PaymentRow)
      → Balances C (claim C payment_id status ref o)
  claim-Balances payment_id status ref none = λ s p. p
  claim-Balances payment_id status ref (some row) =
      let row' = record row { status = status; provider_ref = ref } in
      let put = write C (C.put_payment row') in
      let claimed = put >> pure true in
      let read = λ (t : Tables). ref_taken payment_id ref t.payments in
      let next = λ (taken : Bool). throw_if taken unique_violation >> claimed in
      Keeps-if Books (is_pending row.status) (query C read >>= next) (pure false)
        (read-Balances C read next (λ taken.
          Keeps-bind Books (throw_if taken unique_violation) (λ _. claimed)
            (Keeps-throw_if Books taken unique_violation)
            (λ _. Keeps-bind Books put (λ _. pure true) (put_payment-Balances row') (λ u s p. p))))
        (λ s p. p)

  read_payment-Balances :
      (payment_id : String)
      → Balances C
          (query C (λ u. find_payment payment_id u.payments) >>= or_throw C payment_missing)
  read_payment-Balances payment_id =
      read-Balances C (λ u. find_payment payment_id u.payments) (or_throw C payment_missing)
        (or_throw-Balances C payment_missing)

  after_claim-Balances :
      (ids : NewIds) (t : Tables) (payment_id : String) (status : PaymentStatus)
      (is : List PaymentItem) (claimed : Bool)
      → Balances C (after_claim C ids t payment_id status is claimed)
  after_claim-Balances ids t payment_id status is false = read_payment-Balances payment_id
  after_claim-Balances ids t payment_id status is true =
      let read = query C (λ u. find_payment payment_id u.payments) >>= or_throw C payment_missing in
      let pay = settle C ids t payment_id status is in
      Keeps-bind Books (update_orders C status is) (λ _. pay >> read)
        (update_orders-Balances status is)
        (λ _.
          Keeps-bind Books pay (λ _. read)
            (Keeps-if Books (is_paid status) (credit_items C ids t payment_id is) (pure tt)
              (credit_items-Balances ids t payment_id is) (λ s p. p))
            (λ _. read_payment-Balances payment_id))

  apply_body-Balances :
      (ids : NewIds) (t : Tables) (payment_id : String) (status : PaymentStatus)
      (ref : Option String) (row : PaymentRow)
      → Balances C (apply_body C ids t payment_id status ref row)
  unfolding apply_body
  apply_body-Balances ids t payment_id status ref row =
      let ref' = ref_or_old C ref row.provider_ref in
      let rest = after_claim C ids t payment_id status row.items in
      read-Balances C (λ u. find_payment payment_id u.payments)
        (λ current. claim C payment_id status ref' current >>= rest)
        (λ current.
          Keeps-bind Books (claim C payment_id status ref' current) rest
            (claim-Balances payment_id status ref' current)
            (after_claim-Balances ids t payment_id status row.items))

  apply_found-Books :
      (ids : NewIds) (t : Tables) (payment_id : String) (status : PaymentStatus)
      (ref : Option String) (row : PaymentRow)
      → Always C Books (apply_found C ids t payment_id status ref row)
  apply_found-Books ids t payment_id status ref row =
      if_holds (λ m. Always C Books m) (is_pending row.status)
        (transaction C (λ before. apply_body C ids t payment_id status ref row)) (pure row)
        (transaction-Keeps C IsBalanced (λ before. apply_body C ids t payment_id status ref row)
          (λ before. apply_body-Balances ids t payment_id status ref row))
        (λ s p. p)

  pub apply_payment-Books :
      (ids : NewIds) (payment_id : String) (status : PaymentStatus) (ref : Option String)
      → Always C Books (apply_payment_status C ids payment_id status ref)
  unfolding apply_payment_status
  apply_payment-Books ids payment_id status ref =
      Always-read C Books (λ t. t)
        (λ t.
          or_throw C payment_missing (find_payment payment_id t.payments)
          >>= apply_found C ids t payment_id status ref)
        (λ t.
          Always-found C Books payment_missing (find_payment payment_id t.payments)
            (apply_found C ids t payment_id status ref)
            (apply_found-Books ids t payment_id status ref))
