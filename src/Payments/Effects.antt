-- ===== src/Payments/Effects.antt =====
-- Crediting a seller who has an entry of the payment already.
use ops_marketplace_server.Base.{
  ◌>>=◌, List, ◌∷◌, List, ℤ, ◌≡◌, refl, ◌∙◌, bind_ok, bind_err, true, false, some, String, ok, err,
  pure, ◌>>◌,
}
use ops_marketplace_server.Database.{
  PaymentItem, Client, aborted, Tables, AccountType, seller_balance, seller_available, Entry,
  credit, payment, query, upsert_account, upsert_found, post_if_missing, find_entry,
}
use ops_marketplace_server.Ledger.Posting.{query_live, post_old}
use ops_marketplace_server.Payments.{
  shop_of, credit_items, NewIds, entry_for, seller_accounts, post_to, post_all, credit_owner,
  credit_seller_balance,
}

-- The owner has an account of the type, with an entry of the payment.
abbrev pub IsCredited : String → String → Tables → AccountType → Type 0
IsCredited owner payment_id t type =
    (account_id : String) × ((t.account_ids owner type ≡ some account_id)
      × ((x : Entry) × (find_entry account_id payment_id payment t.entries ≡ some x)))

module _ (C : Client) (old : Tables) (ids : NewIds) (owner payment_id : String) (amount : ℤ) where
  upsert_old :
      (type : AccountType) (s : C.State) (account_id : String)
      → (C.seen s).is_open ≡ true
      → (C.seen s).account_ids owner type ≡ some account_id
      → upsert_account C (ids.account owner type) owner type s ≡ (ok account_id, s)
  unfolding upsert_account
  upsert_old type s account_id live owns =
      bind_ok (query C (λ t. t.account_ids owner type))
        (upsert_found C (ids.account owner type) owner type)
        (query_live C s live (λ t. t.account_ids owner type))
      ∙ (rw owns refl)

  upsert_closed :
      (type : AccountType) (s : C.State)
      → (C.seen s).is_open ≡ false
      → upsert_account C (ids.account owner type) owner type s ≡ (err aborted, s)
  unfolding upsert_account query
  upsert_closed type s closed =
      bind_err (query C (λ t. t.account_ids owner type))
        (upsert_found C (ids.account owner type) owner type) {s' = s} {x = aborted} (rw closed refl)

  -- The accounts of the owner after the refused entry of the first.
  post_all_again :
      (s : C.State)
      → (C.seen s).is_open ≡ true
      → IsCredited owner payment_id (C.seen s) seller_balance
      → (C.seen (C.refused s)).is_open ≡ false
      → post_all C ids credit payment owner amount payment_id seller_accounts s
        ≡ (err aborted, C.refused s)
  unfolding post_all post_to post_if_missing
  post_all_again s live (account_id, (owns, (x, there))) gives_up =
      let t = C.refused s in
      let entry = entry_for ids credit payment account_id amount payment_id in
      let post = λ (type : AccountType) (id : String).
        post_if_missing C (entry_for ids credit payment id amount payment_id) in
      let post_one = λ (type : AccountType).
        upsert_account C (ids.account owner type) owner type >>= post type in
      bind_ok (post_one seller_balance) (λ _. post_one seller_available >> pure tt)
        (bind_ok (upsert_account C (ids.account owner seller_balance) owner seller_balance)
            (post seller_balance) (upsert_old seller_balance s account_id live owns)
          ∙ post_old C entry (λ _. tt) (pure tt) s {x = x} live there)
      ∙ bind_err (post_one seller_available) (λ _. pure tt)
          (bind_err (upsert_account C (ids.account owner seller_available) owner seller_available)
            (post seller_available) (upsert_closed seller_available t gives_up))

-- Crediting an item of a seller who has the entry of the payment already.
credit_seller_again :
    (C : Client) (ids : NewIds) (shop_id owner payment_id : String) (amount : ℤ) (s : C.State)
    → (C.seen s).is_open ≡ true
    → (C.seen s).shop_owners shop_id ≡ some owner
    → IsCredited owner payment_id (C.seen s) seller_balance
    → (C.seen (C.refused s)).is_open ≡ false
    → credit_seller_balance C ids shop_id amount payment_id s ≡ (err aborted, C.refused s)
unfolding credit_seller_balance
credit_seller_again C ids shop_id owner payment_id amount s live owns credited gives_up =
    bind_ok (query C (λ t. t.shop_owners shop_id)) (credit_owner C ids amount payment_id)
      (query_live C s live (λ t. t.shop_owners shop_id))
    ∙ (rw owns refl
        ∙ post_all_again C (C.seen s) ids owner payment_id amount s live credited gives_up)

-- Over every database that, like PostgreSQL, gives a transaction up when it refuses a duplicate
-- entry: in a transaction in which the owner of the first item's shop has the entry of the payment
-- in the seller's balance, as after an earlier item of that seller was credited, the loop that
-- credits the items that are left throws, before it creates the entry of the seller's other
-- account; so no later item is credited, and the error leaves the block that calls the loop.
pub credit_items_again :
    (C : Client) (ids : NewIds) (t : Tables) (owner payment_id : String) (i : PaymentItem)
    (is : List PaymentItem) (s : C.State)
    → (C.seen s).is_open ≡ true
    → (C.seen s).shop_owners (shop_of t i.order_id) ≡ some owner
    → IsCredited owner payment_id (C.seen s) seller_balance
    → (C.seen (C.refused s)).is_open ≡ false
    → credit_items C ids t payment_id (i ∷ is) s ≡ (err aborted, C.refused s)
unfolding credit_items
credit_items_again C ids t owner payment_id i is s live owns credited gives_up =
    bind_err (credit_seller_balance C ids (shop_of t i.order_id) i.amount payment_id)
      (λ _. credit_items C ids t payment_id is)
      (credit_seller_again C ids (shop_of t i.order_id) owner payment_id i.amount s live owns
        credited gives_up)
