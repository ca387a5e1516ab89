-- ===== src/Database/Memory.antt =====
-- A client over tables in memory, which gives a transaction up when a create is refused, and one
-- which does not.
use ops_marketplace_server.Base.{inl, inr, refl, false, push}
use ops_marketplace_server.Database.{
  Client, Tables, put_row, put_index, put_refund_row, put_payment_row, clear_defaults, mark_default,
  delete_bank,
}

abbrev pub strict : Client
strict = record {
  State = Tables;
  seen = λ s. s;
  reports_rollback = false;
  refused = λ s. record s { is_open = false };
  put_account = λ k a s. record s { accounts = put_row k a s.accounts };
  create_account = λ k a s. record s {
    accounts = put_row k a s.accounts;
    account_ids = put_index a.owner_id a.type k s.account_ids;
  };
  put_entry = λ e s. record s { entries = push s.entries e };
  put_payout = λ k p s. record s { payouts = put_row k p s.payouts };
  put_payment = λ p s. record s { payments = put_payment_row p s.payments };
  put_order = λ k o s. record s { orders = put_row k o s.orders };
  put_refund = λ r s. record s { refunds = put_refund_row r s.refunds };
  clear_banks = λ user s. record s { bank_rows = clear_defaults user s.bank_rows };
  create_bank = λ r s. record s { bank_rows = push s.bank_rows r };
  mark_bank = λ id s. record s { bank_rows = mark_default id s.bank_rows };
  remove_bank = λ id s. record s { bank_rows = delete_bank id s.bank_rows };
  clear_banks_lem = λ user s. refl;
  create_bank_lem = λ r s. refl;
  mark_bank_lem = λ id s. refl;
  remove_bank_lem = λ id s. refl;
  refused_lem = λ s. inr refl;
  put_goods = λ g s. record s { goods = g };
  put_goods_lem = λ g s. refl;
  put_account_lem = λ k a s. refl;
  create_account_lem = λ k a s. refl;
  put_entry_lem = λ e s. refl;
  put_payout_lem = λ k p s. refl;
  put_payment_lem = λ p s. refl;
  put_order_lem = λ k o s. refl;
  put_refund_lem = λ r s. refl;
}

abbrev pub lenient : Client
lenient = record strict { refused = λ s. s; refused_lem = λ s. inl refl }
