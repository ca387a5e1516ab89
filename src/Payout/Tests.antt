-- ===== src/Payout/Tests.antt =====
-- A payout at concrete inputs.
use ops_marketplace_server.Base.{◌≡◌, refl, pos, List, [], ◌∷◌, none, some}
use ops_marketplace_server.Money.{Money}
use ops_marketplace_server.Payout.{
  Payout, set_state, pending, paid, failed, create, mark_paid, mark_failed,
}
use ops_marketplace_server.Payout.Lifecycle.{
  Call, paying, failing, setting, apply, run, IsValid, IsSettled, run_payout-Fits,
}

abbrev fee : Money
fee = record { amount = pos 900; currency = "VND" }

abbrev lost : Payout
lost = record {
  id = "out";
  user_id = "u";
  amount = fee;
  method = none;
  reference = none;
  created_at = 0;
  paid_at = none;
  state = failed;
  events = [];
}

-- The last two calls throw.
abbrev calls : List Call
calls = paying "ref" 1 ∷ failing 2 ∷ paying "again" 3 ∷ []

calls_pay :
    let p = run calls (create "out" "u" fee none 0) in
    (p.state ≡ paid) × (p.reference ≡ some "ref") × (p.paid_at ≡ some 1)
unfolding run apply create mark_paid mark_failed
calls_pay = (refl, refl, refl)

-- A failed payout, set back to pending and then paid.
abbrev retried : List Call
retried = failing 1 ∷ setting pending ∷ paying "ref" 2 ∷ []

-- A payout that failed.
abbrev failed_calls : List Call
failed_calls = failing 1 ∷ []

abbrev retry : List Call
retry = setting pending ∷ paying "ref" 2 ∷ []

run_payout-Fits_example :
    let p = run failed_calls (create "out" "u" fee none 0) in IsValid p × IsSettled (run retry p)
run_payout-Fits_example =
    run_payout-Fits failed_calls retry "out" "u" fee none 0 (refl, tt) (refl, (refl, tt))

retried_pays : (run retried (create "out" "u" fee none 0)).state ≡ paid
unfolding run apply create mark_paid mark_failed set_state
retried_pays = refl
