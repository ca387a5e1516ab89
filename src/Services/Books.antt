-- ===== src/Services/Books.antt =====
-- The books after any sequence of calls of the services.
use ops_marketplace_server.Base.{List, [], ◌∷◌}
use ops_marketplace_server.Database.{Client}
use ops_marketplace_server.Ledger.Balance.{IsBalanced}
use ops_marketplace_server.Ledger.Books.{
  create_account-Books, record_entry-Books, reverse_entry-Books,
}
use ops_marketplace_server.Payouts.Books.{create_payout-Books, update_payout-Books}
use ops_marketplace_server.Payments.EndpointBooks.{
  update_payment_status-Books, process_payment-Books, cancel_payment-Books, webhook-Books,
  collect_cod_payment-Books, confirm_cod_payment-Books,
}
use ops_marketplace_server.Payments.Refunds.{
  request_refund-Books, approve_refund-Books, reject_refund-Books,
}
use ops_marketplace_server.Services.{Call, serve, run_calls}

serve-IsBalanced :
    (C : Client) (c : Call) (s : C.State)
    → IsBalanced (C.seen s)
    → IsBalanced (C.seen (serve C c s))
unfolding serve
serve-IsBalanced C (Call.create_account new_id owner type) =
    create_account-Books C new_id owner type
serve-IsBalanced C (Call.record_entry new_id dto) = record_entry-Books C new_id dto
serve-IsBalanced C (Call.reverse_entry new_id entry_id) = reverse_entry-Books C new_id entry_id
serve-IsBalanced C (Call.create_payout payout_id entry_id seller_id dto) =
    create_payout-Books C payout_id entry_id seller_id dto
serve-IsBalanced C (Call.update_payout_status entry_id payout_id seller_id dto now) =
    update_payout-Books C entry_id payout_id seller_id dto now
serve-IsBalanced C (Call.update_payment_status ids user payment_id status ref) =
    update_payment_status-Books C ids user payment_id status ref
serve-IsBalanced C (Call.process_payment ids user payment_id ref) =
    process_payment-Books C ids user payment_id ref
serve-IsBalanced C (Call.cancel_payment ids user_id payment_id) =
    cancel_payment-Books C ids user_id payment_id
serve-IsBalanced C (Call.handle_provider_webhook ids event) = webhook-Books C ids event
serve-IsBalanced C (Call.collect_cod_payment ids user payment_id) =
    collect_cod_payment-Books C ids user payment_id
serve-IsBalanced C (Call.confirm_cod_payment ids user payment_id order_id) =
    confirm_cod_payment-Books C ids user payment_id order_id
serve-IsBalanced C (Call.request_refund new_id user_id order_id amount reason) =
    request_refund-Books C new_id user_id order_id amount reason
serve-IsBalanced C (Call.approve_seller_refund ids user_id refund_id now) =
    approve_refund-Books C ids user_id refund_id now
serve-IsBalanced C (Call.reject_seller_refund user_id refund_id reason now) =
    reject_refund-Books C user_id refund_id reason now

-- Over every database: if the balance of every account is the sum of the signed amounts of its
-- entries, it still is after any sequence of calls of createAccount, recordEntry, reverseEntry,
-- createPayout, updatePayoutStatus, the six calls that set the status of a payment (the webhook
-- among them), requestRefund, approveSellerRefund and rejectSellerRefund, whether the calls return or
-- throw. Of a transaction that was given up nothing is said.
pub run_calls-IsBalanced :
    (C : Client) (cs : List Call) (s : C.State)
    → IsBalanced (C.seen s)
    → IsBalanced (C.seen (run_calls C cs s))
unfolding run_calls
run_calls-IsBalanced C [] s p = p
run_calls-IsBalanced C (c ∷ cs) s p =
    run_calls-IsBalanced C cs (serve C c s) (serve-IsBalanced C c s p)
