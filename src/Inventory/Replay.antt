-- ===== src/Inventory/Replay.antt =====
-- The event log of Inventory.ts as a specification of the stock: the replay of the events.
use ops_marketplace_server.Base.{
  some, Option, All, ℤ, ◌-ℤ◌, min_ℤ, ◌≡◌, refl, Bool, true, false, List, [], ◌∷◌, push, arith,
  int_laws,
}
use ops_marketplace_server.Ids.{ProductId, InventoryId, Date}
use ops_marketplace_server.Quantity
use ops_marketplace_server.Quantity.{Quantity}
use ops_marketplace_server.Inventory.{
  create, Inventory, Event, stock_restocked, stock_reserved, stock_unreserved, stock_reduced,
  min_threshold_changed, restock, outbound, reserve, unreserve, update_min_threshold,
}
use ops_marketplace_server.Inventory.History.{
  threshold, unreserving, reserving, outgoing, restocking, IsWellFormed, run, apply, Call, clearing,
}
use ops_marketplace_server.Inventory.Invariant.{create-IsValid, apply-IsValid, IsValid}

-- What a reader of the events knows of the stock.
pub record Stock : Type 0 where
  pub total : ℤ
  pub held : ℤ
  pub low_at : ℤ

abbrev pub view : Inventory → Stock
view i = record { total = i.quantity.value; held = i.reserved.value; low_at = i.min_threshold }

-- The meaning of one event. A reduction takes what goes out from the held quantity first.
abbrev pub replay_one : Event → Stock → Stock
replay_one (stock_restocked id product_id q total t) s = record s { total = total.value }
replay_one (stock_reserved id product_id q held t) s = record s { held = held.value }
replay_one (stock_unreserved id product_id q held t) s = record s { held = held.value }
replay_one (stock_reduced id product_id q total t) s = record s {
  total = total.value;
  held = s.held -ℤ min_ℤ s.held q.value;
}
replay_one (min_threshold_changed id product_id old new t) s = record s { low_at = new }

unfoldable pub replay : List Event → Stock → Stock
replay [] s = s
replay (e ∷ es) s = replay es (replay_one e s)

replay-push :
    (es : List Event) (e : Event) (s : Stock) → replay (push es e) s ≡ replay_one e (replay es s)
unfolding replay
replay-push [] e s = refl
replay-push (x ∷ es) e s = replay-push es e (replay_one x s)

-- The log of an inventory is complete with respect to where its stock began.
abbrev IsLogged : Stock → Inventory → Type 0
IsLogged start i = view i ≡ replay i.events start

abbrev pub keeps_log : Call → Bool
keeps_log clearing = false
keeps_log _ = true

module _ (start : Stock) where
  restock-IsLogged :
      (q : Quantity) (t : Date) (i : Inventory)
      → IsLogged start i
      → IsLogged start (restock q t i).1
  unfolding restock
  restock-IsLogged q t i h = grind (arith, replay-push)

  reserve-IsLogged :
      (q : Quantity) (t : Date) (i : Inventory)
      → IsLogged start i
      → IsLogged start (reserve q t i).1
  unfolding reserve
  reserve-IsLogged q t i h = grind (arith, replay-push)

  unreserve-IsLogged :
      (q : Quantity) (t : Date) (i : Inventory)
      → IsLogged start i
      → IsLogged start (unreserve q t i).1
  unfolding unreserve
  unreserve-IsLogged q t i h = grind (arith, replay-push)

  update_min_threshold-IsLogged :
      (n : ℤ) (t : Date) (i : Inventory)
      → IsLogged start i
      → IsLogged start (update_min_threshold n t i).1
  unfolding update_min_threshold
  update_min_threshold-IsLogged n t i h = grind (arith, replay-push)

  outbound-IsLogged :
      (q : Quantity) (t : Date) (i : Inventory)
      → Quantity.IsValid q
      → IsValid i
      → IsLogged start i
      → IsLogged start (outbound q t i).1
  unfolding outbound
  outbound-IsLogged q t i w v h = grind (int_laws, replay-push)

  apply-IsLogged :
      (c : Call) (i : Inventory)
      → IsWellFormed c
      → keeps_log c ≡ true
      → IsValid i
      → IsLogged start i
      → IsLogged start (apply c i).1
  unfolding apply
  apply-IsLogged (restocking q t) i w k v h = restock-IsLogged q t i h
  apply-IsLogged (outgoing q t) i w k v h = outbound-IsLogged q t i w v h
  apply-IsLogged (reserving q t) i w k v h = reserve-IsLogged q t i h
  apply-IsLogged (unreserving q t) i w k v h = unreserve-IsLogged q t i h
  apply-IsLogged (threshold n t) i w k v h = update_min_threshold-IsLogged n t i h
  apply-IsLogged clearing i w k v h = cc

  run-IsLogged :
      (cs : List Call) (i : Inventory)
      → All IsWellFormed cs
      → All (λ c. keeps_log c ≡ true) cs
      → IsValid i
      → IsLogged start i
      → IsLogged start (run cs i)
  unfolding run
  run-IsLogged [] i w k v h = h
  run-IsLogged (c ∷ cs) i w k v h =
      run-IsLogged cs (apply c i).1 w.1 k.1 (apply-IsValid c i w.0 v)
        (apply-IsLogged c i w.0 k.0 v h)

-- From a new inventory with an initial quantity within bounds, after any sequence of method calls
-- with quantities within bounds that does not clear the events, and of which each may throw, the
-- stock is what replaying the recorded events from the initial stock gives.
pub view-run :
    (cs : List Call) (id : InventoryId) (product_id : ProductId) (n : Option ℤ) (q : Quantity)
    (now : Date)
    → All IsWellFormed cs
    → All (λ c. keeps_log c ≡ true) cs
    → Quantity.IsValid q
    → let i = create id product_id n (some q) now in
      view (run cs i) ≡ replay (run cs i).events (view i)
view-run cs id product_id n q now w k h =
    let i : Inventory = create id product_id n (some q) now in
    run-IsLogged (view i) cs i w k (create-IsValid id product_id n q now h) (create-IsLogged)
  where
    create-IsLogged :
        IsLogged (view (create id product_id n (some q) now)) (create id product_id n (some q) now)
    create-IsLogged = unfold create replay in refl
