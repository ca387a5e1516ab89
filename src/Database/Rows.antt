-- ===== src/Database/Rows.antt =====
-- The tables of prisma/schema.prisma that the services of money use. Amounts are whole numbers of
-- hundredths, as `Decimal(14, 2)` holds them; rows with a `deletedAt` are left out.
use ops_marketplace_server.Base.{
  ◌||◌, is_some, get_or, not, ℤ, ◌-ℤ◌, pos, Bool, true, false, ◌&&◌, Option, none, some, List, [],
  ◌∷◌, String, ◌==◌, if◌then◌else◌,
}
use ops_marketplace_server.Ids.{Date}
use ops_marketplace_server.Payment.{PaymentStatus, PaymentMethod}
use ops_marketplace_server.Payout.{PayoutStatus}
use ops_marketplace_server.Database.Catalog.{OrderRow, Goods}

pub data AccountType : Type 0 where
  platform_main platform_fee buyer_wallet seller_balance seller_available : AccountType

pub data EntryType : Type 0 where
  debit credit : EntryType

pub data Category : Type 0 where
  payment payout refund fee adjustment : Category

pub data PaymentProvider : Type 0 where
  stripe momo paypal : PaymentProvider

pub data RefundStatus : Type 0 where
  requested approved rejected refunded : RefundStatus

unfoldable pub same_category : Category → Category → Bool
same_category payment payment = true
same_category payout payout = true
same_category refund refund = true
same_category fee fee = true
same_category adjustment adjustment = true
same_category _ _ = false

unfoldable pub same_type : AccountType → AccountType → Bool
same_type platform_main platform_main = true
same_type platform_fee platform_fee = true
same_type buyer_wallet buyer_wallet = true
same_type seller_balance seller_balance = true
same_type seller_available seller_available = true
same_type _ _ = false

pub record Account : Type 0 where
  pub owner_id : Option String
  pub type : AccountType
  pub balance : ℤ

pub record Entry : Type 0 where
  pub id : String
  pub account_id : String
  pub amount : ℤ
  pub type : EntryType
  pub reference : String
  pub transaction_id : String
  pub category : Category

pub record PayoutRow : Type 0 where
  pub user_id : String
  pub amount : ℤ
  pub status : PayoutStatus
  pub reference : Option String
  pub paid_at : Option Date

-- An item of a payment: an order and its part of the amount.
pub record PaymentItem : Type 0 where
  pub order_id : String
  pub amount : ℤ

pub record PaymentRow : Type 0 where
  pub id : String
  pub user_id : String
  pub status : PaymentStatus
  pub amount : ℤ
  pub method : PaymentMethod
  pub provider : Option PaymentProvider
  pub provider_ref : Option String
  pub items : List PaymentItem

pub record RefundRow : Type 0 where
  pub id : String
  pub user_id : String
  pub order_id : String
  pub shop_id : String
  pub amount : ℤ
  pub reason : Option String
  pub status : RefundStatus
  pub rejected_reason : Option String
  pub processed_at : Option Date

pub record BankRow : Type 0 where
  pub id : String
  pub user_id : String
  pub bank_name : String
  pub account_no : String
  pub account_name : String
  pub is_default : Bool

-- What a connection sees. Payments are in the order of their creation. `account_ids` is the index of
-- the unique pair of owner and type; an account without an owner is not in it. `owner_shops` gives
-- the shop of a user. `is_open` is false in a transaction that the database has given up.
pub record Tables : Type 0 where
  pub accounts : String → Option Account
  pub account_ids : String → AccountType → Option String
  pub entries : List Entry
  pub payouts : String → Option PayoutRow
  pub payments : List PaymentRow
  pub orders : String → Option OrderRow
  pub shop_owners : String → Option String
  pub owner_shops : String → Option String
  pub refunds : List RefundRow
  pub bank_rows : List BankRow
  pub goods : Goods
  pub is_open : Bool

-- A table with one row written.
abbrev pub put_row {ℓ} : {A : Type ℓ} → String → A → (String → Option A) → String → Option A
put_row k v f j = if k == j then some v else f j

-- The index with the pair of a new account in it.
abbrev pub put_index :
    Option String
    → AccountType
    → String
    → (String → AccountType → Option String)
    → String
    → AccountType
    → Option String
unfolding same_type
put_index none type id f o t = f o t
put_index (some owner) type id f o t =
    if owner == o then (if same_type type t then some id else f o t) else f o t

-- The amount of an entry with its sign.
abbrev pub signed : EntryType → ℤ → ℤ
signed debit n = pos 0 -ℤ n
signed credit n = n

-- The account of an owner: its id and its row.
unfoldable pub find_account_of : String → AccountType → Tables → Option (String × Account)
find_account_of owner type t = elim (t.account_ids owner type) [
  | none ↦ none
  | some id ↦ elim (t.accounts id) [ none ↦ none | some a ↦ some (id, a) ]
]

unfoldable pub find_refund : String → List RefundRow → Option RefundRow
find_refund id [] = none
find_refund id (r ∷ rs) = if r.id == id then some r else find_refund id rs

-- A row written over the one with its id, or added.
unfoldable pub put_refund_row : RefundRow → List RefundRow → List RefundRow
put_refund_row r [] = r ∷ []
put_refund_row r (x ∷ xs) = if x.id == r.id then r ∷ xs else x ∷ put_refund_row r xs

abbrev pub is_active : RefundStatus → Bool
is_active rejected = false
is_active _ = true

-- A refund of an order by a user that was not rejected.
unfoldable pub find_active : String → String → List RefundRow → Option RefundRow
find_active order_id user_id [] = none
find_active order_id user_id (r ∷ rs) =
    if r.order_id == order_id && (r.user_id == user_id && is_active r.status)
    then some r
    else find_active order_id user_id rs

unfoldable pub find_payment : String → List PaymentRow → Option PaymentRow
find_payment id [] = none
find_payment id (r ∷ rs) = if r.id == id then some r else find_payment id rs

-- Another payment has the `providerRef`, which is unique.
unfoldable pub ref_taken : String → Option String → List PaymentRow → Bool
ref_taken id none rs = false
ref_taken id (some ref) [] = false
ref_taken id (some ref) (r ∷ rs) =
    not (r.id == id) && get_or r.provider_ref "" == ref && is_some r.provider_ref
    || ref_taken id (some ref) rs

-- A row written over the one with its id, or added.
unfoldable pub put_payment_row : PaymentRow → List PaymentRow → List PaymentRow
put_payment_row r [] = r ∷ []
put_payment_row r (x ∷ xs) = if x.id == r.id then r ∷ xs else x ∷ put_payment_row r xs

unfoldable pub find_bank : String → List BankRow → Option BankRow
find_bank id [] = none
find_bank id (r ∷ rs) = if r.id == id then some r else find_bank id rs

unfoldable pub find_default : String → List BankRow → Option BankRow
find_default user_id [] = none
find_default user_id (r ∷ rs) =
    if r.user_id == user_id && r.is_default then some r else find_default user_id rs

-- The rows with no default of the user.
unfoldable pub clear_defaults : String → List BankRow → List BankRow
clear_defaults user_id [] = []
clear_defaults user_id (r ∷ rs) =
    (if r.user_id == user_id && r.is_default then record r { is_default = false } else r)
    ∷ clear_defaults user_id rs

-- The rows with the one of that id as a default.
unfoldable pub mark_default : String → List BankRow → List BankRow
mark_default id [] = []
mark_default id (r ∷ rs) =
    if r.id == id then record r { is_default = true } ∷ rs else r ∷ mark_default id rs

unfoldable pub delete_bank : String → List BankRow → List BankRow
delete_bank id [] = []
delete_bank id (r ∷ rs) = if r.id == id then rs else r ∷ delete_bank id rs
