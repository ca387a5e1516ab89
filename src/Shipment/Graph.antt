-- ===== src/Shipment/Graph.antt =====
-- The diagram of the transitions of ShipmentState.ts, and what can be reached along it.
use ops_marketplace_server.Base.{◌≡◌, refl, true, false, ◌↔◌, arith, ℕ, suc, ◌≤◌}
use ops_marketplace_server.Shipment.State.{
  ShipmentStatus, pending, assigned, picked_up, in_transit, delivered, failed, returned,
  can_transition_to, is_terminal,
}

infix 40 ◌⟶◌ ◌⟶*◌
pub data ◌⟶◌ : ShipmentStatus → ShipmentStatus → Type 0 where
  assign : pending ⟶ assigned
  pick_up : assigned ⟶ picked_up
  set_off : picked_up ⟶ in_transit
  deliver : in_transit ⟶ delivered
  give_back : delivered ⟶ returned
  fail : {s : ShipmentStatus} → is_terminal s ≡ false → s ⟶ failed

pub data ◌⟶*◌ (s : ShipmentStatus) : ShipmentStatus → Type 0 where
  here : s ⟶* s
  next : {t u : ShipmentStatus} → s ⟶* t → t ⟶ u → s ⟶* u

sound : (s t : ShipmentStatus) → can_transition_to s t ≡ true → s ⟶ t
unfolding can_transition_to is_terminal
sound pending assigned h = assign
sound pending failed h = fail refl
sound assigned picked_up h = pick_up
sound assigned failed h = fail refl
sound picked_up in_transit h = set_off
sound picked_up failed h = fail refl
sound in_transit delivered h = deliver
sound in_transit failed h = fail refl
sound delivered returned h = give_back
sound _ _ h = cc

complete_fail : (s : ShipmentStatus) → is_terminal s ≡ false → can_transition_to s failed ≡ true
unfolding can_transition_to is_terminal
complete_fail s h = ground arith

complete : {s t : ShipmentStatus} → s ⟶ t → can_transition_to s t ≡ true
unfolding can_transition_to
complete assign = refl
complete pick_up = refl
complete set_off = refl
complete deliver = refl
complete give_back = refl
complete (fail {s = s} h) = complete_fail s h

-- The table of the code is the diagram: one forward path from pending to returned, and from every
-- state that is not terminal an edge to failed.
pub can_transition_to_iff : (s t : ShipmentStatus) → (can_transition_to s t ≡ true) ↔ (s ⟶ t)
can_transition_to_iff s t = (sound s t, complete)

-- How far a shipment has come.
abbrev pub rank : ShipmentStatus → ℕ
rank pending = 0
rank assigned = 1
rank picked_up = 2
rank in_transit = 3
rank delivered = 4
rank failed = 5
rank returned = 5

pub rank-⟶ : {s t : ShipmentStatus} → s ⟶ t → suc (rank s) ≤ rank t
rank-⟶ assign = omega arith
rank-⟶ pick_up = omega arith
rank-⟶ set_off = omega arith
rank-⟶ deliver = omega arith
rank-⟶ give_back = omega arith
rank-⟶ (fail {s = s} h) = rank_fail s h
  where
    rank_fail : (s : ShipmentStatus) → is_terminal s ≡ false → suc (rank s) ≤ 5
    rank_fail s h = unfold is_terminal in ground arith
