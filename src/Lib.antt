-- ===== src/Lib.antt =====
-- Verification library of the marketplace server: the domain model of a marketplace for farm goods.
--
-- The program. Entities under src/domain/entities hold the rules of the marketplace; use cases and
-- services under src/modules load them from a database, call their methods and store them. A buyer's
-- cart (entities/orders/Cart.ts) becomes an order (entities/orders/Order.ts), for which stock is
-- reserved (entities/products/Inventory.ts), a payment is taken (entities/orders/Payment.ts) and a
-- shipment is made (entities/orders/Shipment.ts); sellers ask for payouts
-- (entities/payouts/Payout.ts). Amounts are value-objects/Money.ts, stock quantities
-- value-objects/Quantity.ts.
--
-- The model.
--  - Base: the names that all modules share; integers over the native numbers, texts with `trim`, and
--    `Action S E A`, a method call on an object of type S that may throw E. A throw keeps what was
--    written before it, as in JavaScript.
--  - Ids: identifiers, which are texts, and dates, which are numbers.
--  - Quantity, Money: the value objects. Inventory: the stock of a product. Metadata, Payment: a
--    payment, with Payment/Status for the classes of src/domain/state/PaymentState.ts. Shipment with
--    Shipment/State for src/domain/state/ShipmentState.ts. Payout with Payout/Status for the two
--    files PayoutState.ts. Order with Order/Status for value-objects/OrderState.ts. Cart with
--    Cart/Item for the class CartItem. Product with Product/Status for state/ProductState.ts and
--    Product/Values for the value objects of a product, whose certifications are a list that stands
--    for a set.
--  - Database: the tables of prisma/schema.prisma that the services use (Database/Rows for money,
--    Database/Catalog for products, stock, carts and orders), and the record `Client`, which is the Prisma client with PostgreSQL behind it. They are not part of
--    the repository, so the client is a parameter of every service: its state is opaque, and its laws
--    say what a query writes. After a create that the unique index refuses, the transaction is as it
--    was or given up, as PostgreSQL does; the services are modelled under both. Database/Memory has two
--    clients over tables in memory, Database/Returns rules for what is known of a call that returned. Database/Triples has
--    these rules as triples, Database/Leaves those for calls that return or throw, and
--    Database/Succeeds those by which a call returns.
--  - Ledger: src/modules/ledger/ledger.service.ts. Ledger/Balance says what books that balance are,
--    Ledger/Keeps and Ledger/Posting have the rules by which calls keep them, Ledger/Same those for calls
--    that change nothing. Payouts: src/modules/payout/payouts.service.ts. Payments:
--    src/modules/payment/payments.service.ts, with its refunds in Payments/Refunding and the calls that
--    set the status of a payment in Payments/Endpoints. Services: sequences of the calls of
--    the three over one database.
--  - Carts: src/modules/cart/carts.service.ts and its use cases that show and change a cart. Checkout: the
--    two checkouts of a cart, createOrdersFromCart of src/modules/order/orders.service.ts and
--    src/modules/cart/applications/use-cases/checkout.usecase.ts, which share the tests of the lines, the
--    groups by shop (Checkout/Lines) and the body of the transaction. Orders: the calls of orders.service.ts on one
--    order, with the use cases of src/modules/order/applications in Orders/UseCases and the
--    repository order-prisma.repository.ts in Orders/Repository.
-- An entity is a record of its private fields, with the list of its pending events where it has one; a
-- method keeps its name (markAsPaid is mark_as_paid) and takes the dates that the source reads from the
-- clock as arguments, one for each place that reads it. In each component History (Lifecycle
-- for a payout) declares the sequences of method calls, of which each may throw and be caught, and
-- Tests runs the model on concrete inputs.
--
-- A service is a `do` block of queries, one for each call of the client, in the order of the source;
-- `transaction` runs a block and keeps what it wrote if it returned and was not given up. The ids that
-- the database chooses for new rows, and the dates, are arguments. Requests that overlap in time are
-- not modelled: the calls of a sequence follow one another.
--
-- Bounds. Numbers are exact integers: an amount of money is a whole number of hundredths, so the
-- rounding of binary fractions is not modelled, and neither are NaN and the infinities. The columns
-- Decimal(12, 2) of prisma/schema.prisma bound the totals that a checkout stores (fits_column of
-- Checkout/Lines); for the other amounts no bound is modelled. Every function is structurally
-- recursive; no fuel is used.
--
-- Not modelled: multiply, divide, percentage and toString of Money; the entities of
-- categories, shops, notifications, users and bank accounts; the validation of the texts that
-- are not a product's; of the services of money the lists, the creation of a payment, and Stripe with its signatures; of carts and orders
-- the merging of a session's cart, the lists, the creation of one order, updatePaymentStatus of the
-- service, and rows that were deleted; the other services and use cases of src/modules; controllers, data transfer objects, authentication, the event bus, mail.
pub mod Base
pub mod Ids
pub mod Quantity
pub mod Money
pub mod Inventory
pub mod Shipment
pub mod Metadata
pub mod Payment
pub mod Payout
pub mod Order
pub mod Cart
pub mod Product
pub mod Database
pub mod Ledger
pub mod Payouts
pub mod Payments
pub mod Carts
pub mod Checkout
pub mod Orders
pub mod Services
