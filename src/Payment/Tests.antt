-- ===== src/Payment/Tests.antt =====
-- A payment at concrete inputs.
use ops_marketplace_server.Base.{◌≡◌, refl, ◌⊎◌, pos, List, [], ◌∷◌, none, some}
use ops_marketplace_server.Money.{Money}
use ops_marketplace_server.Metadata
use ops_marketplace_server.Payment.{
  Payment, momo, succeeded, failed, refunded, create, mark_as_paid, mark_as_failed, refund,
  set_metadata_key,
}
use ops_marketplace_server.Payment.History.{Call, paying, failing, refunding, setting, apply, run}
use ops_marketplace_server.Payment.Lifecycle.{◌⟶◌, status-apply, IsValid, run_payment-Fits}
use ops_marketplace_server.Payment.Settlement.{net, held, net-run}

abbrev price : Money
price = record { amount = pos 500; currency = "VND" }

abbrev bill : Payment
bill = record {
  id = "p-1";
  order_id = "o-1";
  amount = price;
  method = momo;
  status = succeeded;
  payment_intent_id = "pi";
  gateway = "momo";
  metadata = [];
  created_at = 0;
  updated_at = 0;
  paid_at = some 0;
  refunded_at = none;
  error_message = none;
  refund_reason = none;
  events = [];
}

abbrev lost : Payment
lost = record bill { status = failed }

-- The first call and the third throw.
abbrev calls : List Call
calls =
    refunding none none 1
    ∷ paying none 2
    ∷ failing "late" 3
    ∷ setting "k" "v" 4
    ∷ refunding none (some "broken") 5
    ∷ []

calls_refund :
    let p = run calls (create "p-1" "o-1" price momo "pi" "momo" none 0) in
    (p.status ≡ refunded) × (p.paid_at ≡ some 2) × (p.refunded_at ≡ some 5)
unfolding run apply create mark_as_paid refund mark_as_failed set_metadata_key Metadata.equals
    Metadata.set
calls_refund = (refl, refl, refl)

status-apply_example :
    ((apply (refunding none none 1) bill).1.status ≡ succeeded)
    ⊎ (succeeded ⟶ (apply (refunding none none 1) bill).1.status)
status-apply_example = status-apply (refunding none none 1) bill

run_payment-Fits_example : IsValid (run calls (create "p-1" "o-1" price momo "pi" "momo" none 0))
run_payment-Fits_example = run_payment-Fits calls "p-1" "o-1" price momo "pi" "momo" none 0

net-run_example :
    let p = run calls (create "p-1" "o-1" price momo "pi" "momo" none 0) in
    net p.events ≡ held p.status p.amount.amount
net-run_example =
    net-run calls "p-1" "o-1" price momo "pi" "momo" none 0
      (refl, (refl, (refl, (refl, (refl, tt)))))
