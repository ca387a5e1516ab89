-- ===== src/Services/Tests.antt =====
-- Tests of the services over tables in memory, and the theorems at concrete inputs.
use ops_marketplace_server.Base.{
  false, err, arith, ◌≡◌, refl, ◌+ℤ◌, ◌-ℤ◌, pos, true, none, some, List, [], ◌∷◌, ◌==◌,
  if◌then◌else◌,
}
use ops_marketplace_server.Payout.{PayoutStatus, equals}
use ops_marketplace_server.Database.{
  aborted, PaymentItem, find_default, Tables, seller_available, credit, payment, adjustment, query,
  write, transaction, create_entry, create_entry_if_missing, increment, find_entry, find_account_of,
  post_then, post_if_missing, same_category, outside,
}
use ops_marketplace_server.Database.Memory.{strict, lenient}
use ops_marketplace_server.Ledger.{RecordEntry, entry_of, record_entry}
use ops_marketplace_server.Ledger.Balance.{IsBalanced, balance_at, total}
use ops_marketplace_server.Ledger.Same.{SameLedger, record_entry_again}
use ops_marketplace_server.Payouts.{
  CreatePayout, UpdatePayout, create_payout, update_payout_status, assert_seller_shop, request_to,
  request_from, payout_body, withdraw, get_payout, update_found, update_body, update_claimed,
  after_claim,
}
use ops_marketplace_server.Payouts.Effects.{create_payout_lem, Made}
use ops_marketplace_server.Payouts.Banks.Creation
use ops_marketplace_server.Payouts.Banks.Creation.{run_bank_calls, run_bank_calls-HasOneDefault}
use ops_marketplace_server.Payouts.Banks.Counts.{count_defaults}
use ops_marketplace_server.Payouts.Banks.Defaults.{HasOneDefault}
use ops_marketplace_server.Payouts.Failure.{failed_payout_keeps_ledger}
use ops_marketplace_server.Payments.{credit_items, NewIds}
use ops_marketplace_server.Payments.Endpoints.{
  WebhookEvent, event_status, stripe_status_to_payment_status, some_includes, includes,
}
use ops_marketplace_server.Payment.{PaymentStatus}
use ops_marketplace_server.Payments.Effects.{credit_items_again}
use ops_marketplace_server.Services.{Call, run_calls}
use ops_marketplace_server.Services.Books.{run_calls-IsBalanced}

-- A seller with a shop and a bank account, and no ledger account yet.
abbrev start : Tables
start = record {
  accounts = λ _. none;
  account_ids = λ _ _. none;
  entries = [];
  payouts = λ _. none;
  payments = [];
  orders = λ _. none;
  shop_owners = λ id. if id == "shop" then some "seller" else none;
  owner_shops = λ id. if id == "seller" then some "shop" else none;
  refunds = [];
  bank_rows =
      record {
        id = "b1";
        user_id = "seller";
        bank_name = "VCB";
        account_no = "0123";
        account_name = "SELLER";
        is_default = true;
      }
      ∷ [];
  goods = record {
    products = λ _. none;
    inventories = λ _. none;
    carts = [];
    cart_items = [];
    addresses = λ _. none;
  };
  is_open = true;
}

abbrev deposit : RecordEntry
deposit = record {
  account_id = "A";
  amount = pos 500;
  type = credit;
  reference = "start";
  transaction_id = "t1";
  category = adjustment;
}

abbrev withdrawal : CreatePayout
withdrawal = record { amount = pos 200; bank_account_id = none }

abbrev failure : UpdatePayout
failure = record { status = PayoutStatus.failed; reference = none }

abbrev ids : NewIds
ids = record { account = λ owner type. "B"; entry = λ account_id. "e5" }

-- A session that is complete though nothing was paid.
abbrev completed : WebhookEvent
completed = record {
  type = "checkout.session.completed";
  id = some "cs_1";
  payment_status = some "unpaid";
  status = some "complete";
  payment_id = some "pay";
}

completed_succeeds : event_status completed ≡ PaymentStatus.succeeded
unfolding stripe_status_to_payment_status some_includes includes
completed_succeeds = refl

abbrev calls : List Call
calls =
    Call.create_account "A" (some "seller") seller_available
    ∷ Call.record_entry "e1" deposit
    ∷ Call.create_payout "p1" "e2" "seller" withdrawal
    ∷ Call.update_payout_status "e3" "p1" "seller" failure 7
    ∷ []

run_calls-IsBalanced_example : IsBalanced (run_calls strict calls start)
unfolding total
run_calls-IsBalanced_example = run_calls-IsBalanced strict calls start (λ _ id. refl)

-- The seller's account with 500 in it.
abbrev funded : Tables
funded = record start {
  accounts = λ id.
      if id == "A"
      then some (record { owner_id = some "seller"; type = seller_available; balance = pos 500 })
      else none;
  account_ids = λ owner type. if owner == "seller" then some "A" else none;
  entries = entry_of "e1" deposit ∷ [];
}

-- The tables after the request, and after it failed.
abbrev requested : Tables
requested = (create_payout strict "p1" "e2" "seller" withdrawal funded).1

failure_keeps_balance :
    balance_at "A" (update_payout_status lenient "e3" "p1" "seller" failure 7 requested).1 ≡ pos 300
unfolding query write transaction create_payout assert_seller_shop request_to request_from
    payout_body withdraw create_entry find_entry increment find_account_of find_default
    update_payout_status get_payout update_found update_body update_claimed after_claim outside
    post_if_missing post_then create_entry_if_missing same_category equals ◌+ℤ◌ ◌-ℤ◌
failure_keeps_balance = refl

create_payout_lem_example : Made strict "p1" "e2" "seller" withdrawal funded (pos 300) requested
unfolding query write transaction create_payout assert_seller_shop request_to request_from
    payout_body withdraw create_entry find_entry increment find_account_of find_default ◌+ℤ◌ ◌-ℤ◌
create_payout_lem_example = create_payout_lem strict "p1" "e2" "seller" withdrawal funded refl

failed_payout_keeps_ledger_example :
    SameLedger requested (update_payout_status strict "e3" "p1" "seller" failure 7 requested).1
unfolding query write transaction create_payout assert_seller_shop request_to request_from
    payout_body withdraw create_entry find_entry increment find_account_of find_default ◌+ℤ◌ ◌-ℤ◌
failed_payout_keeps_ledger_example =
    failed_payout_keeps_ledger strict "p1" "e2" "seller" withdrawal funded {n = pos 300} "e3"
      failure 7 refl

record_entry_again_example : SameLedger funded (record_entry strict "e9" deposit funded).1
unfolding find_entry
record_entry_again_example = record_entry_again strict "e9" deposit funded refl

-- Both accounts of the seller, credited once for the payment.
abbrev sold : Tables
sold = record funded {
  entries =
      record {
        id = "e4";
        account_id = "A";
        amount = pos 100;
        type = credit;
        reference = "pay";
        transaction_id = "pay";
        category = payment;
      }
      ∷ [];
}

-- The order of another item of the payment, of the same seller.
abbrev other_item : PaymentItem
other_item = record { order_id = "o"; amount = pos 70 }

abbrev with_owner : Tables
with_owner = record sold { shop_owners = λ id. some "seller" }

credit_items_again_example :
    credit_items strict ids with_owner "pay" (other_item ∷ []) with_owner
    ≡ (err aborted, record with_owner { is_open = false })
unfolding find_entry same_category
credit_items_again_example =
    credit_items_again strict ids with_owner "seller" "pay" other_item [] with_owner refl refl
      ("A", (refl, (_, refl))) refl

-- A second account of the seller, which is then the default, and the deletion of the first.
abbrev bank_calls : List Creation.Call
bank_calls =
    Creation.creating "b2" "seller" (record {
      bank_name = "ACB";
      account_no = "4567";
      account_name = "SELLER";
      is_default = true;
    })
    ∷ Creation.choosing "b1" "seller"
    ∷ Creation.deleting "b1" "seller"
    ∷ []

start-HasOneDefault : HasOneDefault start.bank_rows
unfolding count_defaults
start-HasOneDefault v = ground arith

run_bank_calls-HasOneDefault_example :
    HasOneDefault (run_bank_calls strict bank_calls start).bank_rows
run_bank_calls-HasOneDefault_example =
    run_bank_calls-HasOneDefault strict bank_calls start start-HasOneDefault
