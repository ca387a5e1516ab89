-- ===== src/Ids.antt =====
-- The identifier classes of src/domain/value-objects: each wraps a string, and `equals` compares the
-- strings, so an identifier is its string here. A `Date` is a number of milliseconds.
use ops_marketplace_server.Base.{ℕ, String}

abbrev pub InventoryId : Type 0
InventoryId = String

abbrev pub ProductId : Type 0
ProductId = String

abbrev pub OrderId : Type 0
OrderId = String

abbrev pub PaymentId : Type 0
PaymentId = String

abbrev pub ShipmentId : Type 0
ShipmentId = String

abbrev pub ShopId : Type 0
ShopId = String

abbrev pub ShipperId : Type 0
ShipperId = String

abbrev pub PayoutId : Type 0
PayoutId = String

abbrev pub UserId : Type 0
UserId = String

abbrev pub CategoryId : Type 0
CategoryId = String

abbrev pub Date : Type 0
Date = ℕ
