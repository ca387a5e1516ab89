-- ===== src/Product/Certifications.antt =====
-- The certifications of a product (ProductCertifications.ts): a list that stands for a set.
use ops_marketplace_server.Base.{
  ℕ, ◌+◌, pos, eqb_ℤ, ◌≡◌, refl, sym, subst, ap, ◌∙◌, arith, eq_iff, ◌==◌, Bool, false, not, ◌&&◌,
  ◌||◌, List, [], ◌∷◌, ◌++◌, push, length, length-push, IsAbsent, IsDistinct, IsDistinct-push,
  String,
}
use ops_marketplace_server.Ids.{Date}
use ops_marketplace_server.Product.{
  update_info, update_pricing, update_season, add_certification, remove_certification, publish,
  confirm_by_admin, mark_out_of_stock, mark_in_stock, unpublish, find_index, keep_first,
  create_certifications, includes, add_to, remove_from, Product, Props, create,
}
use ops_marketplace_server.Product.History.{
  Call, setting, informing, pricing, timing, certifying, uncertifying, publishing, confirming,
  selling_out, restocking, unpublishing, apply, run,
}

includes-push :
    (k c : String) (xs : List String) → includes k (push xs c) ≡ includes k xs || (c == k)
unfolding includes
includes-push k c [] = ground arith
includes-push k c (x ∷ xs) = ground (arith, includes-push k c xs)

push-append : (xs : List String) (c : String) (ys : List String) → push xs c ++ ys ≡ xs ++ (c ∷ ys)
push-append [] c ys = refl
push-append (x ∷ xs) c ys = ap (λ zs. x ∷ zs) (push-append xs c ys)

IsAbsent-of_includes : (k : String) (xs : List String) → includes k xs ≡ false → IsAbsent k xs
unfolding includes IsAbsent
IsAbsent-of_includes k [] h = tt
IsAbsent-of_includes k (x ∷ xs) h = ground (arith, IsAbsent-of_includes k xs)

-- The first index of an element is its own exactly when no element before it is equal to it.
find_index_lem :
    (c : String) (n : ℕ) (before after : List String)
    → eqb_ℤ (find_index c n (before ++ (c ∷ after))) (pos (n + length before))
      ≡ not (includes c before)
unfolding find_index includes
find_index_lem c n [] after = ground (arith, eq_iff c c)
find_index_lem c n (b ∷ before) after = ground (arith, find_index_lem c (n + 1) before after)

-- The rest of the filter, with the element counted among those before it.
keep_first_shift :
    (before items : List String) (c : String)
    → keep_first (push before c ++ items) (length (push before c)) items
      ≡ keep_first (before ++ (c ∷ items)) (length before + 1) items
keep_first_shift before items c = rw (push-append before c items, length-push before c) refl

keep_first_lem :
    (before items : List String) (k : String)
    → IsDistinct (keep_first (before ++ items) (length before) items)
      × (includes k (keep_first (before ++ items) (length before) items)
          ≡ not (includes k before) && includes k items)
unfolding keep_first includes IsDistinct
keep_first_lem before [] k = (tt, ground arith)
keep_first_lem before (c ∷ items) k =
    let shift = keep_first_shift before items c in
    let rest = keep_first (before ++ (c ∷ items)) (length before + 1) items in
    let (distinct, is_k) =
      subst
        (λ xs.
          IsDistinct xs × (includes k xs ≡ not (includes k (push before c)) && includes k items))
        shift (keep_first_lem (push before c) items k) in
    let is_c =
      subst (λ xs. includes c xs ≡ not (includes c (push before c)) && includes c items) shift
        (keep_first_lem (push before c) items c).1 in
    let absent = IsAbsent-of_includes c rest in
    ground (
      arith,
      find_index_lem c 0 before items,
      distinct,
      is_k,
      is_c,
      absent,
      includes-push k c before,
      includes-push c c before,
      eq_iff c c,
      eq_iff c k,
    )

-- `ProductCertifications.create` keeps exactly the certifications it is given, each once.
pub create_certifications_lem :
    (items : List String) (k : String)
    → IsDistinct (create_certifications items)
      × (includes k (create_certifications items) ≡ includes k items)
unfolding create_certifications includes
create_certifications_lem items k = let (d, e) = keep_first_lem [] items k in (d, ground (arith, e))

includes-add_to :
    (k c : String) (xs : List String) → includes k (add_to c xs) ≡ includes k xs || (c == k)
unfolding add_to
includes-add_to k c xs = ground (arith, includes-push k c xs, eq_iff c k)

includes-remove_from :
    (k c : String) (xs : List String)
    → includes k (remove_from c xs) ≡ includes k xs && not (c == k)
unfolding remove_from includes
includes-remove_from k c [] = refl
includes-remove_from k c (x ∷ xs) =
    ground (arith, includes-remove_from k c xs, eq_iff x c, eq_iff x k, eq_iff c k)

add_to-IsDistinct : (c : String) (xs : List String) → IsDistinct xs → IsDistinct (add_to c xs)
unfolding add_to
add_to-IsDistinct c xs d =
    let absent = IsAbsent-of_includes c xs in
    let more = IsDistinct-push xs c d in ground (arith, absent, more)

IsAbsent-remove_from :
    (k c : String) (xs : List String) → IsAbsent k xs → IsAbsent k (remove_from c xs)
unfolding remove_from IsAbsent
IsAbsent-remove_from k c [] a = tt
IsAbsent-remove_from k c (x ∷ xs) a = ground (arith, IsAbsent-remove_from k c xs a.1)

remove_from-IsDistinct :
    (c : String) (xs : List String) → IsDistinct xs → IsDistinct (remove_from c xs)
unfolding remove_from IsDistinct
remove_from-IsDistinct c [] d = tt
remove_from-IsDistinct c (x ∷ xs) d =
    ground (arith, remove_from-IsDistinct c xs d.1, IsAbsent-remove_from x c xs d.0)

-- Whether the product has the certification `k` after the calls, when it had it before or not.
pub has_after : String → List Call → Bool → Bool
has_after k [] b = b
has_after k (certifying c t ∷ cs) b = has_after k cs (b || (c == k))
has_after k (uncertifying c t ∷ cs) b = has_after k cs (b && not (c == k))
has_after k (_ ∷ cs) b = has_after k cs b

apply_has :
    (m : Call) (cs : List Call) (k : String) (p : Product)
    → has_after k (m ∷ cs) (includes k p.certifications)
      ≡ has_after k cs (includes k (apply m p).1.certifications)
unfolding apply has_after update_info update_pricing update_season add_certification
    remove_certification publish confirm_by_admin mark_out_of_stock mark_in_stock unpublish
apply_has (certifying c t) cs k p = ap (has_after k cs) (sym (includes-add_to k c p.certifications))
apply_has (uncertifying c t) cs k p =
    ap (has_after k cs) (sym (includes-remove_from k c p.certifications))
apply_has (informing i t) cs k p = refl
apply_has (pricing r w t) cs k p = ap (λ xs. has_after k cs (includes k xs)) (ground arith)
apply_has (timing s t) cs k p = refl
apply_has (setting s) cs k p = refl
apply_has (publishing t) cs k p = ap (λ xs. has_after k cs (includes k xs)) (ground arith)
apply_has (confirming t) cs k p = ap (λ xs. has_after k cs (includes k xs)) (ground arith)
apply_has (selling_out t) cs k p = ap (λ xs. has_after k cs (includes k xs)) (ground arith)
apply_has (restocking t) cs k p = ap (λ xs. has_after k cs (includes k xs)) (ground arith)
apply_has (unpublishing t) cs k p = ap (λ xs. has_after k cs (includes k xs)) (ground arith)

apply-IsDistinct :
    (m : Call) (p : Product) → IsDistinct p.certifications → IsDistinct (apply m p).1.certifications
unfolding apply update_info update_pricing update_season add_certification remove_certification
    publish confirm_by_admin mark_out_of_stock mark_in_stock unpublish
apply-IsDistinct (certifying c t) p d = add_to-IsDistinct c p.certifications d
apply-IsDistinct (uncertifying c t) p d = remove_from-IsDistinct c p.certifications d
apply-IsDistinct _ p d = ground arith

run_certified_from :
    (cs : List Call) (k : String) (p : Product)
    → IsDistinct p.certifications
    → IsDistinct (run cs p).certifications
      × (includes k (run cs p).certifications ≡ has_after k cs (includes k p.certifications))
unfolding run has_after
run_certified_from [] k p d = (d, refl)
run_certified_from (m ∷ cs) k p d =
    let (distinct, same) = run_certified_from cs k (apply m p).1 (apply-IsDistinct m p d) in
    (distinct, same ∙ sym (apply_has m cs k p))

-- After any sequence of method calls on a created product, no certification is listed twice, and a
-- certification is listed exactly when adding and removing it from the set of those given at the
-- creation, in the order of the calls, leaves it there.
pub run_certified :
    (cs : List Call) (props : Props) (now : Date) (k : String)
    → let p = run cs (create props now) in
      IsDistinct p.certifications
      × (includes k p.certifications ≡ has_after k cs (includes k props.certifications))
unfolding create
run_certified cs props now k =
    let (d, e) = create_certifications_lem props.certifications k in
    let (distinct, same) = run_certified_from cs k (create props now) d in
    (distinct, same ∙ ap (has_after k cs) e)
