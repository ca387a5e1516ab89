-- ===== src/Payout/Status.antt =====
-- src/domain/value-objects/PayoutState.ts and src/domain/state/PayoutState.ts: the status of a payout,
-- the table of its transitions and what the class of each state allows. The state object is its status.
use ops_marketplace_server.Base.{Bool, true, false, ◌||◌, List, [], ◌∷◌}

pub data PayoutStatus : Type 0 where
  pending paid failed : PayoutStatus

unfoldable pub equals : PayoutStatus → PayoutStatus → Bool
equals pending pending = true
equals paid paid = true
equals failed failed = true
equals _ _ = false

abbrev pub includes : List PayoutStatus → PayoutStatus → Bool
unfolding equals
includes [] s = false
includes (x ∷ xs) s = equals x s || includes xs s

unfoldable pub transitions : PayoutStatus → List PayoutStatus
transitions pending = paid ∷ failed ∷ []
transitions paid = []
transitions failed = pending ∷ []

unfoldable pub can_transition_to : PayoutStatus → PayoutStatus → Bool
unfolding transitions equals
can_transition_to s t = includes (transitions s) t

-- `PaidPayoutState` and `FailedPayoutState` override the test of the base class.
unfoldable pub can_mark_paid : PayoutStatus → Bool
unfolding equals
can_mark_paid paid = false
can_mark_paid failed = false
can_mark_paid s = equals s pending

-- `FailedPayoutState` inherits this test.
unfoldable pub can_mark_failed : PayoutStatus → Bool
unfolding equals
can_mark_failed paid = false
can_mark_failed s = equals s pending
