-- ===== src/Payment/Settlement.antt =====
-- The event log of Payment.ts as its account: successes are credits and refunds debits.
use ops_marketplace_server.Metadata
use ops_marketplace_server.Payment.History.{
  Call, paying, failing, refunding, intending, describing, setting, clearing, apply, run, keeps_log,
}
use ops_marketplace_server.Base.{
  refl, true, All, ℤ, pos, ◌+ℤ◌, ◌-ℤ◌, int_laws, ◌≡◌, List, [], ◌∷◌, push, Option, String,
}
use ops_marketplace_server.Ids.{OrderId, PaymentId, Date}
use ops_marketplace_server.Metadata.{Metadata}
use ops_marketplace_server.Payment.{
  create, PaymentMethod, Money, set_metadata_key, Payment, Event, payment_succeeded,
  payment_refunded, PaymentStatus, succeeded, mark_as_paid, mark_as_failed, refund,
  update_payment_intent_id, update_metadata,
}

-- What an event says of the money that is held.
abbrev pub cash : Event → ℤ
cash (payment_succeeded id order_id m t) = m.amount
cash (payment_refunded id order_id m r t) = pos 0 -ℤ m.amount
cash _ = pos 0

unfoldable pub net : List Event → ℤ
net [] = pos 0
net (e ∷ es) = cash e +ℤ net es

net-push : (es : List Event) (e : Event) → net (push es e) ≡ net es +ℤ cash e
unfolding net
net-push [] e = omega int_laws
net-push (x ∷ es) e = rw (net-push es e) (omega int_laws)

abbrev pub held : PaymentStatus → ℤ → ℤ
held succeeded amount = amount
held _ amount = pos 0

-- The log accounts for what the payment holds.
abbrev IsAccounted : Payment → Type 0
IsAccounted p = net p.events ≡ held p.status p.amount.amount

mark_as_paid-IsAccounted :
    (d : Option Date) (t : Date) (p : Payment) → IsAccounted p → IsAccounted (mark_as_paid d t p).1
unfolding mark_as_paid
mark_as_paid-IsAccounted d t p h = grind (int_laws, net-push)

mark_as_failed-IsAccounted :
    (m : String) (t : Date) (p : Payment) → IsAccounted p → IsAccounted (mark_as_failed m t p).1
unfolding mark_as_failed
mark_as_failed-IsAccounted m t p h = grind (int_laws, net-push)

refund-IsAccounted :
    (d : Option Date) (r : Option String) (t : Date) (p : Payment)
    → IsAccounted p
    → IsAccounted (refund d r t p).1
unfolding refund
refund-IsAccounted d r t p h = grind (int_laws, net-push)

intent-IsAccounted :
    (i : String) (t : Date) (p : Payment)
    → IsAccounted p
    → IsAccounted (update_payment_intent_id i t p).1
unfolding update_payment_intent_id
intent-IsAccounted i t p h = grind (int_laws, net-push)

metadata-IsAccounted :
    (m : Metadata) (t : Date) (p : Payment) → IsAccounted p → IsAccounted (update_metadata m t p).1
unfolding update_metadata
metadata-IsAccounted m t p h = grind (int_laws, net-push)

apply-IsAccounted :
    (c : Call) (p : Payment) → keeps_log c ≡ true → IsAccounted p → IsAccounted (apply c p).1
unfolding apply set_metadata_key
apply-IsAccounted (paying d t) p k h = mark_as_paid-IsAccounted d t p h
apply-IsAccounted (failing m t) p k h = mark_as_failed-IsAccounted m t p h
apply-IsAccounted (refunding d r t) p k h = refund-IsAccounted d r t p h
apply-IsAccounted (intending i t) p k h = intent-IsAccounted i t p h
apply-IsAccounted (describing m t) p k h = metadata-IsAccounted m t p h
apply-IsAccounted (setting key v t) p k h =
    metadata-IsAccounted (Metadata.set key v p.metadata) t p h
apply-IsAccounted clearing p k h = cc

run-IsAccounted :
    (cs : List Call) (p : Payment)
    → All (λ c. keeps_log c ≡ true) cs
    → IsAccounted p
    → IsAccounted (run cs p)
unfolding run
run-IsAccounted [] p k h = h
run-IsAccounted (c ∷ cs) p k h = run-IsAccounted cs (apply c p).1 k.1 (apply-IsAccounted c p k.0 h)

-- After any sequence of method calls on a new payment that does not clear the events, and of which
-- each may throw, the recorded successes less the recorded refunds come to the amount of the payment
-- when its status is succeeded, and to nothing in every other status.
pub net-run :
    (cs : List Call) (id : PaymentId) (order_id : OrderId) (amount : Money) (method : PaymentMethod)
    (intent gateway : String) (metadata : Option Metadata) (now : Date)
    → All (λ c. keeps_log c ≡ true) cs
    → let p = run cs (create id order_id amount method intent gateway metadata now) in
      net p.events ≡ held p.status p.amount.amount
net-run cs id order_id amount method intent gateway metadata now k =
    run-IsAccounted cs (create id order_id amount method intent gateway metadata now) k
      (unfold create net ◌+ℤ◌ in refl)
