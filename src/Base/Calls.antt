-- ===== src/Base/Calls.antt =====
-- A method call on a mutable object. `throw` keeps what was written before it: the object comes
-- back after an error too, as in JavaScript.
use mathlib.Core.Path.{◌≡◌, ap}
use mathlib.Core.Bool.{Bool}
use ops_marketplace_server.Base.Tests.{if◌then◌else◌}

pub data Result (E : Type 0) (A : Type 0) : Type 0 where
  ok : A → Result E A
  err : E → Result E A

abbrev pub Action : Type 0 → Type 0 → Type 0 → Type 0
Action S E A = S → Result E A × S

-- The result of a call that returns nothing.
abbrev pub Void : Type 0
Void = Unit

module _ {S E : Type 0} where
  abbrev pub pure : {A : Type 0} → A → Action S E A
  pure a s = (ok a, s)

  abbrev pub throw : {A : Type 0} → E → Action S E A
  throw e s = (err e, s)

  -- `if (test) throw e;`
  abbrev pub throw_if : Bool → E → Action S E Void
  throw_if c e s = (if c then err e else ok tt, s)

  abbrev pub self : Action S E S
  self s = (ok s, s)

  -- `if (test) { ... }`
  abbrev pub when : Bool → Action S E Void → Action S E Void
  when c m s = if c then m s else (ok tt, s)

  abbrev pub gets : {A : Type 0} → (S → A) → Action S E A
  gets f s = (ok (f s), s)

  abbrev pub modify : (S → S) → Action S E Void
  modify f s = (ok tt, f s)

  -- A call that touches no object.
  abbrev pub lift : {A : Type 0} → Result E A → Action S E A
  lift r s = (r, s)

infixl 5 ◌>>=◌ ◌>>◌
abbrev pub ◌>>=◌ : {S E A B : Type 0} → Action S E A → (A → Action S E B) → Action S E B
◌>>=◌ m f s = let (r, s') = m s in elim r [ ok a ↦ f a s' | err e ↦ (err e, s') ]

abbrev pub ◌>>◌ : {S E B : Type 0} → Action S E Void → Action S E B → Action S E B
m >> k = m >>= λ _. k

-- The same error under the name that the caller's errors give it.
abbrev pub map_err : {E F A : Type 0} → (E → F) → Result E A → Result F A
map_err f (ok a) = ok a
map_err f (err e) = err (f e)

-- What a finished call satisfies: the property of its value, or that of its error.
abbrev pub Outcome : {E A : Type 0} → (A → Type 0) → (E → Type 0) → Result E A → Type 0
Outcome P Q (ok a) = P a
Outcome P Q (err e) = Q e

result_holds :
    {S E A B : Type 0} (P : S → Type 0) (r : Result E A) (s : S) (k : A → Action S E B)
    → P s
    → ((a : A) → P (k a s).1)
    → P (elim r as (λ _. Result E B × S) [ ok a ↦ k a s | err e ↦ (err e, s) ]).1
result_holds P (ok a) s k p q = q a
result_holds P (err e) s k p q = p

-- What holds after the first call, and after the rest, holds after both.
pub bind_holds :
    {S E A B : Type 0} (P : S → Type 0) (m : Action S E A) (k : A → Action S E B) (s : S)
    → P (m s).1
    → ((a : A) → P (k a (m s).1).1)
    → P ((m >>= k) s).1
bind_holds P m k s p q = result_holds P (m s).0 (m s).1 k p q

-- The rest of a `do` block, after a first call of which the outcome is known.
pub bind_ok :
    {S E A B : Type 0} (m : Action S E A) (k : A → Action S E B) {s s' : S} {a : A}
    → m s ≡ (ok a, s')
    → (m >>= k) s ≡ k a s'
bind_ok {S} {E} {A} {B} m k {s} {s'} {a} e =
    ap
      (λ (p : Result E A × S).
        let (r, t) = p in elim r as (λ _. Result E B × S) [ ok a ↦ k a t | err x ↦ (err x, t) ])
      e

pub bind_err :
    {S E A B : Type 0} (m : Action S E A) (k : A → Action S E B) {s s' : S} {x : E}
    → m s ≡ (err x, s')
    → (m >>= k) s ≡ (err x, s')
bind_err {S} {E} {A} {B} m k {s} {s'} {x} e =
    ap
      (λ (p : Result E A × S).
        let (r, t) = p in elim r as (λ _. Result E B × S) [ ok a ↦ k a t | err x ↦ (err x, t) ])
      e
