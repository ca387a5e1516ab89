-- ===== src/Product/Lifecycle.antt =====
-- The statuses of a product over any sequence of method calls of product.ts.
use ops_marketplace_server.Base.{
  inr, ◌≡◌, ◌⊎◌, inl, ◌↔◌, refl, ◌∙◌, ap, sym, subst, arith, Bool, true, false, List, [], ◌∷◌, All,
}
use ops_marketplace_server.Ids.{Date}
use ops_marketplace_server.Product.{
  Product, Props, ProductStatus, draft, pending, active, out_of_stock, discontinued, create,
  update_info, update_pricing, update_season, add_certification, remove_certification, publish,
  confirm_by_admin, mark_out_of_stock, mark_in_stock, unpublish,
}
use ops_marketplace_server.Product.History.{
  Call, setting, publishing, confirming, selling_out, restocking, unpublishing, apply, run,
}

-- What each call does to the status, as a table.
pub next : Call → ProductStatus → ProductStatus
next (setting status) s = status
next (publishing t) draft = pending
next (confirming t) pending = active
next (selling_out t) active = out_of_stock
next (restocking t) out_of_stock = active
next (unpublishing t) pending = draft
next (unpublishing t) active = draft
next _ s = s

pub next_all : List Call → ProductStatus → ProductStatus
unfolding next
next_all [] s = s
next_all (c ∷ cs) s = next_all cs (next c s)

state-apply : (c : Call) (p : Product) → (apply c p).1.state ≡ next c p.state
unfolding apply next update_info update_pricing update_season add_certification remove_certification
    publish confirm_by_admin mark_out_of_stock mark_in_stock unpublish
state-apply (publishing t) p = ground arith
state-apply (confirming t) p = ground arith
state-apply (selling_out t) p = ground arith
state-apply (restocking t) p = ground arith
state-apply (unpublishing t) p = ground arith
state-apply _ p = ground arith

-- After any sequence of method calls, setState among them, of which each may throw, the status of a
-- product is what the table of moves makes of the status it had before; setState moves to its
-- argument from every status.
pub state-run : (cs : List Call) (p : Product) → (run cs p).state ≡ next_all cs p.state
unfolding run next_all
state-run [] p = refl
state-run (c ∷ cs) p = state-run cs (apply c p).1 ∙ ap (next_all cs) (state-apply c p)

-- The calls that can show a hidden product: the confirmation by an admin, and setState with a state
-- other than draft and pending.
abbrev pub is_admission : Call → Bool
is_admission (confirming t) = true
is_admission (setting draft) = false
is_admission (setting pending) = false
is_admission (setting _) = true
is_admission _ = false

abbrev pub is_setting : Call → Bool
is_setting (setting s) = true
is_setting _ = false

abbrev IsHidden : ProductStatus → Type 0
IsHidden s = (s ≡ draft) ⊎ (s ≡ pending)

next-IsHidden :
    (c : Call) (s : ProductStatus) → is_admission c ≡ false → IsHidden s → IsHidden (next c s)
unfolding next
next-IsHidden (setting draft) s h v = inl refl
next-IsHidden (setting pending) s h v = inr refl
next-IsHidden (setting _) s h v = ground arith
next-IsHidden (publishing t) s h v = ground arith
next-IsHidden (confirming t) s h v = ground arith
next-IsHidden (selling_out t) s h v = ground arith
next-IsHidden (restocking t) s h v = ground arith
next-IsHidden (unpublishing t) s h v = ground arith
next-IsHidden _ s h v = v

next_all-IsHidden :
    (cs : List Call) (s : ProductStatus)
    → All (λ c. is_admission c ≡ false) cs
    → IsHidden s
    → IsHidden (next_all cs s)
unfolding next_all
next_all-IsHidden [] s h v = v
next_all-IsHidden (c ∷ cs) s h v = next_all-IsHidden cs (next c s) h.1 (next-IsHidden c s h.0 v)

-- A sequence of method calls without a confirmation by an admin, in which setState is called with the
-- states draft and pending only, takes a created product no further than draft and pending: it is
-- never active.
pub run_unconfirmed :
    (cs : List Call) (props : Props) (now : Date)
    → All (λ c. is_admission c ≡ false) cs
    → let p = run cs (create props now) in (p.state ≡ draft) ⊎ (p.state ≡ pending)
unfolding create
run_unconfirmed cs props now h =
    subst IsHidden (sym (state-run cs (create props now))) (next_all-IsHidden cs draft h (inl refl))

next_discontinued :
    (c : Call) (s : ProductStatus)
    → is_setting c ≡ false
    → (next c s ≡ discontinued) ↔ (s ≡ discontinued)
unfolding next
next_discontinued (setting t) s h = ground arith
next_discontinued (publishing t) s h = ground arith
next_discontinued (confirming t) s h = ground arith
next_discontinued (selling_out t) s h = ground arith
next_discontinued (restocking t) s h = ground arith
next_discontinued (unpublishing t) s h = ground arith
next_discontinued _ s h = ground arith

-- No sequence of method calls without setState leads to the discontinued status or out of it.
pub run_discontinued_iff :
    (cs : List Call) (p : Product)
    → All (λ c. is_setting c ≡ false) cs
    → ((run cs p).state ≡ discontinued) ↔ (p.state ≡ discontinued)
unfolding run
run_discontinued_iff [] p h = ground arith
run_discontinued_iff (c ∷ cs) p h = ground (
  arith,
  run_discontinued_iff cs (apply c p).1 h.1,
  state-apply c p,
  next_discontinued c p.state h.0,
)
