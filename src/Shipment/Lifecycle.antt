-- ===== src/Shipment/Lifecycle.antt =====
-- The methods of Shipment.ts against the diagram of its states, and the fields that belong to each
-- state.
use ops_marketplace_server.Base.{
  subst, String, trim, trim-trim, is_blank, is_empty_text, ◌∙◌, ◌≡◌, refl, ◌⊎◌, inl, inr, arith,
  List, [], ◌∷◌, Option, none, some, is_some, true, false, ok, err,
}
use ops_marketplace_server.Shipment.{
  Address, ShopId, OrderId, Date, ShipmentId, Shipment, Error, ShipmentStatus, pending, delivered,
  failed, returned, is_terminal, create, assign_shipper, mark_as_picked_up, mark_as_in_transit,
  mark_as_delivered, mark_as_failed, mark_as_returned, update_tracking_number,
  update_estimated_delivery_at, clear_events,
}
use ops_marketplace_server.Shipment.Graph.{◌⟶◌, assign, pick_up, set_off, deliver, give_back, fail}
use ops_marketplace_server.Shipment.History.{assigning, Call, failing, clearing, apply, run}

-- A method that throws leaves the shipment exactly as it was.
pub shipment_atomic :
    (c : Call) (s : Shipment) {e : Error} → (apply c s).0 ≡ err e → (apply c s).1 ≡ s
unfolding apply assign_shipper mark_as_picked_up mark_as_in_transit mark_as_delivered mark_as_failed
    mark_as_returned update_tracking_number update_estimated_delivery_at clear_events
shipment_atomic clearing s h = cc
shipment_atomic _ s h = ground arith

ruleset edges = (assign, pick_up, set_off, deliver, give_back, fail)

-- Every call leaves the state of the shipment as it is or moves it along one edge of the diagram.
pub apply-⟶ :
    (c : Call) (s : Shipment) → ((apply c s).1.state ≡ s.state) ⊎ (s.state ⟶ (apply c s).1.state)
unfolding apply assign_shipper mark_as_picked_up mark_as_in_transit mark_as_delivered mark_as_failed
    mark_as_returned update_tracking_number update_estimated_delivery_at clear_events is_terminal
apply-⟶ clearing s = inl refl
apply-⟶ _ s = grind (arith, edges)

-- No edge leaves the states failed and returned.
final : {s t : ShipmentStatus} → s ⟶ t → (s ≡ failed) ⊎ (s ≡ returned) → ⊥
unfolding is_terminal
final assign h = ground arith
final pick_up h = ground arith
final set_off h = ground arith
final deliver h = ground arith
final give_back h = ground arith
final (fail {s = s} p) h = ground arith

apply_absorbed :
    (c : Call) (s : Shipment)
    → (s.state ≡ failed) ⊎ (s.state ≡ returned)
    → (apply c s).1.state ≡ s.state
apply_absorbed c s h = elim (apply-⟶ c s) [ inl same ↦ same | inr e ↦ absurd (final e h) ]

-- A reason of failure is there, trimmed and not empty.
abbrev pub HasReason : Option String → Type 0
HasReason none = ⊥
HasReason (some reason) = (is_empty_text reason ≡ false) × (trim reason ≡ reason)

-- The fields that each state promises.
abbrev pub Fits : ShipmentStatus → Shipment → Type 0
Fits pending s = (s.shipper_id ≡ none) × (s.delivered_at ≡ none) × (s.failed_at ≡ none)
Fits delivered s =
    (is_some s.shipper_id ≡ true) × (is_some s.delivered_at ≡ true) × (s.failed_at ≡ none)
Fits returned s =
    (is_some s.shipper_id ≡ true) × (is_some s.delivered_at ≡ true) × (s.failed_at ≡ none)
Fits failed s = (s.delivered_at ≡ none) × (is_some s.failed_at ≡ true) × HasReason s.failure_reason
Fits _ s = (is_some s.shipper_id ≡ true) × (s.delivered_at ≡ none) × (s.failed_at ≡ none)

abbrev pub IsValid : Shipment → Type 0
IsValid s = Fits s.state s

mark_as_failed-IsValid :
    (reason : String) (t : Date) (s : Shipment) → IsValid s → IsValid (mark_as_failed reason t s).1
unfolding mark_as_failed is_blank
mark_as_failed-IsValid reason t s v = ground (arith, trim-trim reason)

apply-IsValid : (c : Call) (s : Shipment) → IsValid s → IsValid (apply c s).1
unfolding apply assign_shipper mark_as_picked_up mark_as_in_transit mark_as_delivered
    mark_as_returned update_tracking_number update_estimated_delivery_at clear_events
apply-IsValid clearing s v = ground arith
apply-IsValid (failing reason t) s v = mark_as_failed-IsValid reason t s v
apply-IsValid _ s v = ground arith

run-IsValid_from : (cs : List Call) (s : Shipment) → IsValid s → IsValid (run cs s)
unfolding run
run-IsValid_from [] s v = v
run-IsValid_from (c ∷ cs) s v = run-IsValid_from cs (apply c s).1 (apply-IsValid c s v)

-- A shipper that was there before is there after.
abbrev pub IsKept : Option String → Option String → Type 0
IsKept none after = Unit
IsKept (some shipper) after = after ≡ some shipper

IsKept-same : (o : Option String) → IsKept o o
IsKept-same none = tt
IsKept-same (some x) = refl

IsKept-more : (a b c : Option String) → IsKept a b → IsKept b c → IsKept a c
IsKept-more none b c h k = tt
IsKept-more (some x) b c h k = subst (λ o. IsKept o c) h k

IsKept-of : (a b : Option String) → (a ≡ none) ⊎ (b ≡ a) → IsKept a b
IsKept-of none b h = tt
IsKept-of (some x) b h = ground arith

-- Only the assignment writes the shipper, and it returns in the pending state alone.
apply_shipper :
    (c : Call) (s : Shipment)
    → IsValid s
    → (s.shipper_id ≡ none) ⊎ ((apply c s).1.shipper_id ≡ s.shipper_id)
unfolding apply assign_shipper mark_as_picked_up mark_as_in_transit mark_as_delivered mark_as_failed
    mark_as_returned update_tracking_number update_estimated_delivery_at clear_events
apply_shipper clearing s v = inr refl
apply_shipper (assigning x n t) s v = ground arith
apply_shipper _ s v = inr (ground arith)

apply-IsKept : (c : Call) (s : Shipment) → IsValid s → IsKept s.shipper_id (apply c s).1.shipper_id
apply-IsKept c s v = IsKept-of s.shipper_id (apply c s).1.shipper_id (apply_shipper c s v)

run-IsKept : (cs : List Call) (s : Shipment) → IsValid s → IsKept s.shipper_id (run cs s).shipper_id
unfolding run
run-IsKept [] s v = IsKept-same s.shipper_id
run-IsKept (c ∷ cs) s v =
    let next = (apply c s).1 in
    IsKept-more s.shipper_id next.shipper_id (run cs next).shipper_id (apply-IsKept c s v)
      (run-IsKept cs next (apply-IsValid c s v))

-- After any sequence of method calls on a new shipment, of which each may throw, the fields fit the
-- state: no shipper when it is pending, and one in every other state but failed; a time of delivery
-- exactly when it was delivered; and a time and a trimmed reason that is not empty when it failed.
-- And a shipper that was assigned is the same after any calls that follow, failing among them.
pub run-Fits :
    (before after : List Call) (id : ShipmentId) (order_id : OrderId) (shop_id : ShopId)
    (pickup delivery : Option Address) (estimated : Option Date) (now : Date) {s : Shipment}
    → create id order_id shop_id pickup delivery estimated now ≡ ok s
    → IsValid (run before s)
      × IsKept (run before s).shipper_id (run after (run before s)).shipper_id
unfolding create
run-Fits before after id order_id shop_id pickup delivery estimated now h =
    let valid = run-IsValid_from before _ (ground arith) in
    (valid, run-IsKept after (run before _) valid)

-- Once a shipment has failed or has been returned, no sequence of method calls changes its state.
pub run_absorbed :
    (cs : List Call) (s : Shipment)
    → (s.state ≡ failed) ⊎ (s.state ≡ returned)
    → (run cs s).state ≡ s.state
unfolding run
run_absorbed [] s h = refl
run_absorbed (c ∷ cs) s h =
    let same = apply_absorbed c s h in run_absorbed cs (apply c s).1 (rw same h) ∙ same
