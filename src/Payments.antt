-- ===== src/Payments.antt =====
-- src/modules/payment/payments.service.ts over any database: the status of a payment with the crediting of
-- the sellers; its refunds are in Refunding and the calls that set a status in Endpoints. The calls of
-- Stripe, the lists and the creation of a payment are not modelled; the ids of new rows are arguments.
pub mod Refunding
pub mod Endpoints
pub mod EndpointBooks
pub mod Books
pub mod Refunds
pub mod Effects
use ops_marketplace_server.Base.{
  ℤ, pos, ◌-ℤ◌, leb_ℤ, ltb_ℤ, Bool, true, false, ◌&&◌, ◌||◌, not, if◌then◌else◌, get_or, is_some,
  Option, none, some, List, [], ◌∷◌, String, ◌==◌, Void, throw, throw_if, pure, ◌>>=◌, ◌>>◌,
}
use ops_marketplace_server.Ids.{Date}
use ops_marketplace_server.Payment.{PaymentStatus, is_paid, is_pending}
use ops_marketplace_server.Database.{
  first_shop, Client, Query, Tables, Account, AccountType, seller_balance, seller_available,
  buyer_wallet, Entry, EntryType, debit, credit, Category, payment, refund, PaymentItem, PaymentRow,
  OrderRow, RefundRow, RefundStatus, requested, rejected, refunded, Error, payment_missing,
  order_missing, refund_missing, shop_missing, balance_insufficient, refund_not_requested,
  order_not_paid, refund_exists, refund_amount_invalid, unique_violation, record_missing, query,
  write, transaction, upsert_account, post_if_missing, find_account_of, find_refund, find_payment,
  ref_taken, find_active, or_throw,
}

-- The ids that the database chooses: of a new account of an owner, and of a new entry of an account.
pub record NewIds : Type 0 where
  pub account : String → AccountType → String
  pub entry : String → String

abbrev pub entry_for : NewIds → EntryType → Category → String → ℤ → String → Entry
entry_for ids type category account_id amount reference = record {
  id = ids.entry account_id;
  account_id = account_id;
  amount = amount;
  type = type;
  reference = reference;
  transaction_id = reference;
  category = category;
}

-- The two accounts of a seller, in the order of the loops.
abbrev pub seller_accounts : List AccountType
seller_accounts = seller_balance ∷ seller_available ∷ []

-- `item.order.items[0]?.shopId ?? ''`.
abbrev pub shop_of : Tables → String → String
shop_of t order_id = elim (t.orders order_id) [ none ↦ "" | some o ↦ get_or (first_shop o) "" ]

module _ (C : Client) where
  -- One account of the owner: the upsert, the entry and the balance.
  unfoldable pub post_to :
      NewIds → EntryType → Category → String → ℤ → String → AccountType → Query C Void
  post_to ids type category owner amount reference account_type = do
    account_id ← upsert_account C (ids.account owner account_type) owner account_type
    post_if_missing C (entry_for ids type category account_id amount reference)

  -- The loop over the accounts of an owner.
  unfoldable pub post_all :
      NewIds → EntryType → Category → String → ℤ → String → List AccountType → Query C Void
  post_all ids type category owner amount reference [] = pure tt
  post_all ids type category owner amount reference (t ∷ ts) = do
    post_to ids type category owner amount reference t
    post_all ids type category owner amount reference ts

  abbrev pub credit_owner : NewIds → ℤ → String → Option String → Query C Void
  credit_owner ids amount payment_id none = pure tt
  credit_owner ids amount payment_id (some owner) =
      post_all ids credit payment owner amount payment_id seller_accounts

  unfoldable pub credit_seller_balance : NewIds → String → ℤ → String → Query C Void
  credit_seller_balance ids shop_id amount payment_id = do
    owner ← query C (λ t. t.shop_owners shop_id)
    credit_owner ids amount payment_id owner

  -- The loop over the items of a payment; `t` is what was read with the payment.
  unfoldable pub credit_items : NewIds → Tables → String → List PaymentItem → Query C Void
  credit_items ids t payment_id [] = pure tt
  credit_items ids t payment_id (i ∷ is) = do
    credit_seller_balance ids (shop_of t i.order_id) i.amount payment_id
    credit_items ids t payment_id is

  -- `tx.order.updateMany` on one order: one that is not there is passed over.
  abbrev pub set_order_status : PaymentStatus → String → Option OrderRow → Query C Void
  set_order_status status order_id none = pure tt
  set_order_status status order_id (some o) =
      write C (C.put_order order_id (record o { payment_status = status }))

  unfoldable pub update_orders : PaymentStatus → List PaymentItem → Query C Void
  update_orders status [] = pure tt
  update_orders status (i ∷ is) = do
    row ← query C (λ t. t.orders i.order_id)
    set_order_status status i.order_id row
    update_orders status is

  -- `tx.payment.updateMany` on the payment if it is pending: whether it was claimed.
  abbrev pub claim : String → PaymentStatus → Option String → Option PaymentRow → Query C Bool
  claim payment_id status provider_ref none = pure false
  claim payment_id status provider_ref (some row) =
      if is_pending row.status
      then (do
        taken ← query C (λ t. ref_taken payment_id provider_ref t.payments)
        throw_if taken unique_violation
        write C (C.put_payment (record row { status = status; provider_ref = provider_ref }))
        pure true)
      else pure false

  -- `providerRef ?? payment.providerRef`.
  abbrev pub ref_or_old : Option String → Option String → Option String
  ref_or_old none old = old
  ref_or_old (some r) old = some r

  abbrev pub settle : NewIds → Tables → String → PaymentStatus → List PaymentItem → Query C Void
  settle ids t payment_id status items =
      if is_paid status then credit_items ids t payment_id items else pure tt

  abbrev pub after_claim :
      NewIds → Tables → String → PaymentStatus → List PaymentItem → Bool → Query C PaymentRow
  after_claim ids t payment_id status items false = do
    current ← query C (λ u. find_payment payment_id u.payments)
    or_throw C payment_missing current
  after_claim ids t payment_id status items true = do
    update_orders status items
    settle ids t payment_id status items
    updated ← query C (λ u. find_payment payment_id u.payments)
    or_throw C payment_missing updated

  unfoldable pub apply_body :
      NewIds → Tables → String → PaymentStatus → Option String → PaymentRow → Query C PaymentRow
  apply_body ids t payment_id status provider_ref row = do
    current ← query C (λ u. find_payment payment_id u.payments)
    claimed ← claim payment_id status (ref_or_old provider_ref row.provider_ref) current
    after_claim ids t payment_id status row.items claimed

  abbrev pub apply_found :
      NewIds → Tables → String → PaymentStatus → Option String → PaymentRow → Query C PaymentRow
  apply_found ids t payment_id status provider_ref row =
      if is_pending row.status
      then transaction C (λ before. apply_body ids t payment_id status provider_ref row)
      else pure row

  -- `applyPaymentStatus`.
  unfoldable pub apply_payment_status :
      NewIds → String → PaymentStatus → Option String → Query C PaymentRow
  apply_payment_status ids payment_id status provider_ref = do
    t ← query C (λ t. t)
    row ← or_throw C payment_missing (find_payment payment_id t.payments)
    apply_found ids t payment_id status provider_ref row
