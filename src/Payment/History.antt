-- ===== src/Payment/History.antt =====
-- A sequence of method calls on one payment, each of which may throw and be caught.
use ops_marketplace_server.Base.{Bool, true, false, Option, List, [], ◌∷◌, String, Action, Void}
use ops_marketplace_server.Ids.{Date}
use ops_marketplace_server.Metadata.{Metadata}
use ops_marketplace_server.Payment.{
  Payment, Error, mark_as_paid, mark_as_failed, refund, update_payment_intent_id, update_metadata,
  set_metadata_key, clear_events,
}

pub data Call : Type 0 where
  paying : Option Date → Date → Call
  failing : String → Date → Call
  refunding : Option Date → Option String → Date → Call
  intending : String → Date → Call
  describing : Metadata → Date → Call
  setting : String → String → Date → Call
  clearing : Call

unfoldable pub apply : Call → Action Payment Error Void
apply (paying d t) = mark_as_paid d t
apply (failing m t) = mark_as_failed m t
apply (refunding d r t) = refund d r t
apply (intending i t) = update_payment_intent_id i t
apply (describing m t) = update_metadata m t
apply (setting k v t) = set_metadata_key k v t
apply clearing = clear_events

unfoldable pub run : List Call → Payment → Payment
run [] p = p
run (c ∷ cs) p = run cs (apply c p).1

abbrev pub keeps_log : Call → Bool
keeps_log clearing = false
keeps_log _ = true
