-- ===== src/Services.antt =====
-- Any sequence of the calls of ledger.service.ts, payouts.service.ts and payments.service.ts that the
-- model has, over one database. A call that throws leaves what it leaves, and the next one follows.
mod Books
mod Tests
use ops_marketplace_server.Base.{ℤ, Option, List, [], ◌∷◌, String}
use ops_marketplace_server.Ids.{Date}
use ops_marketplace_server.Payment.{PaymentStatus}
use ops_marketplace_server.Database.{Client, AccountType}
use ops_marketplace_server.Ledger.{RecordEntry}
use ops_marketplace_server.Ledger
use ops_marketplace_server.Payouts.{CreatePayout, UpdatePayout}
use ops_marketplace_server.Payouts
use ops_marketplace_server.Payments.{NewIds}
use ops_marketplace_server.Payments.Refunding
use ops_marketplace_server.Payments.Endpoints
use ops_marketplace_server.Payments.Endpoints.{AuthUser, WebhookEvent}

-- A call of a service with its arguments.
pub data Call : Type 0 where
  create_account : String → Option String → AccountType → Call
  record_entry : String → RecordEntry → Call
  reverse_entry : String → String → Call
  create_payout : String → String → String → CreatePayout → Call
  update_payout_status : String → String → String → UpdatePayout → Date → Call
  update_payment_status : NewIds → AuthUser → String → PaymentStatus → Option String → Call
  process_payment : NewIds → AuthUser → String → String → Call
  cancel_payment : NewIds → String → String → Call
  handle_provider_webhook : NewIds → WebhookEvent → Call
  collect_cod_payment : NewIds → AuthUser → String → Call
  confirm_cod_payment : NewIds → AuthUser → Option String → Option String → Call
  request_refund : String → String → String → Option ℤ → Option String → Call
  approve_seller_refund : NewIds → String → String → Date → Call
  reject_seller_refund : String → String → String → Date → Call

module _ (C : Client) where
  -- The state after a call, whether it returned or threw.
  unfoldable pub serve : Call → C.State → C.State
  serve (Call.create_account new_id owner type) s = (Ledger.create_account C new_id owner type s).1
  serve (Call.record_entry new_id dto) s = (Ledger.record_entry C new_id dto s).1
  serve (Call.reverse_entry new_id entry_id) s = (Ledger.reverse_entry C new_id entry_id s).1
  serve (Call.create_payout payout_id entry_id seller_id dto) s =
      (Payouts.create_payout C payout_id entry_id seller_id dto s).1
  serve (Call.update_payout_status entry_id payout_id seller_id dto now) s =
      (Payouts.update_payout_status C entry_id payout_id seller_id dto now s).1
  serve (Call.update_payment_status ids user payment_id status ref) s =
      (Endpoints.update_payment_status C ids user payment_id status ref s).1
  serve (Call.process_payment ids user payment_id ref) s =
      (Endpoints.process_payment C ids user payment_id ref s).1
  serve (Call.cancel_payment ids user_id payment_id) s =
      (Endpoints.cancel_payment C ids user_id payment_id s).1
  serve (Call.handle_provider_webhook ids event) s =
      (Endpoints.handle_provider_webhook C ids event s).1
  serve (Call.collect_cod_payment ids user payment_id) s =
      (Endpoints.collect_cod_payment C ids user payment_id s).1
  serve (Call.confirm_cod_payment ids user payment_id order_id) s =
      (Endpoints.confirm_cod_payment C ids user payment_id order_id s).1
  serve (Call.request_refund new_id user_id order_id amount reason) s =
      (Refunding.request_refund C new_id user_id order_id amount reason s).1
  serve (Call.approve_seller_refund ids user_id refund_id now) s =
      (Refunding.approve_seller_refund C ids user_id refund_id now s).1
  serve (Call.reject_seller_refund user_id refund_id reason now) s =
      (Refunding.reject_seller_refund C user_id refund_id reason now s).1

  unfoldable pub run_calls : List Call → C.State → C.State
  run_calls [] s = s
  run_calls (c ∷ cs) s = run_calls cs (serve c s)
