-- ===== src/Order/Status.antt =====
-- The statuses of src/domain/entities/enums.enum.ts that an order uses, and the table of transitions of
-- src/domain/value-objects/OrderState.ts.
use ops_marketplace_server.Base.{Bool, true, false, ◌||◌, List, [], ◌∷◌}

pub data OrderStatus : Type 0 where
  pending confirmed processing shipped delivered cancelled refunded : OrderStatus

pub data OrderType : Type 0 where
  retail wholesale pre_order : OrderType

unfoldable pub equals : OrderStatus → OrderStatus → Bool
equals pending pending = true
equals confirmed confirmed = true
equals processing processing = true
equals shipped shipped = true
equals delivered delivered = true
equals cancelled cancelled = true
equals refunded refunded = true
equals _ _ = false

abbrev pub includes : List OrderStatus → OrderStatus → Bool
unfolding equals
includes [] s = false
includes (x ∷ xs) s = equals x s || includes xs s

unfoldable pub transitions : OrderStatus → List OrderStatus
transitions pending = confirmed ∷ cancelled ∷ []
transitions confirmed = shipped ∷ cancelled ∷ []
transitions shipped = delivered ∷ []
transitions delivered = []
transitions cancelled = []
transitions refunded = []
transitions processing = confirmed ∷ cancelled ∷ []

unfoldable pub can_transition_to : OrderStatus → OrderStatus → Bool
unfolding transitions equals
can_transition_to s t = includes (transitions s) t
