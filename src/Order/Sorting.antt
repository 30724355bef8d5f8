-- ===== src/Order/Sorting.antt =====
-- ORDER BY created_at DESC of internal/order/adapter/postgres/order_repo.go, where no two rows have one
-- time: the order does not depend on how the rows are met.
use mathlib.Core.List.{Permᴰ}
use realtime_order_inventory.Prelude.{◌≡◌, refl, ◌∙◌, ap, sym, subst, List, [], ◌∷◌, All, arith}
use realtime_order_inventory.Order.Domain.{OrderRow}
use realtime_order_inventory.Order.Postgres.{newest_first, insert_by_age}

module _ {F : Type 0} where
  -- Two rows have different times.
  abbrev pub Differ : OrderRow F → OrderRow F → Type 0
  Differ r x = x.created_at ≡ r.created_at → ⊥

  abbrev pub HasNoTies : List (OrderRow F) → Type 0
  HasNoTies [] = Unit {0}
  HasNoTies (r ∷ rs) = All (Differ r) rs × HasNoTies rs

  insert_swap :
      (a b : OrderRow F) (rs : List (OrderRow F))
      → Differ a b
      → insert_by_age a (insert_by_age b rs) ≡ insert_by_age b (insert_by_age a rs)
  unfolding insert_by_age
  insert_swap a b [] d = ground (arith, d)
  insert_swap a b (x ∷ rs) d = ground (arith, d, insert_swap a b rs d)

  All-back :
      (P : OrderRow F → Type 0) {xs ys : List (OrderRow F)} → Permᴰ xs ys → All P ys → All P xs
  All-back P Permᴰ.nil h = tt
  All-back P (Permᴰ.cons e p) h = (subst P (sym e) h.0, All-back P p h.1)
  All-back P (Permᴰ.swap e e') h = (subst P (sym e) h.1.0, (subst P (sym e') h.0, h.1.1))
  All-back P (Permᴰ.trans p q) h = All-back P p (All-back P q h)

  HasNoTies-back : {xs ys : List (OrderRow F)} → Permᴰ xs ys → HasNoTies ys → HasNoTies xs
  HasNoTies-back Permᴰ.nil u = tt
  HasNoTies-back (Permᴰ.cons {l₁ = xs} e p) u =
      (subst (λ r. All (Differ r) xs) (sym e) (All-back _ p u.0), HasNoTies-back p u.1)
  HasNoTies-back (Permᴰ.swap {l = xs} e e') u = (
    (
      λ same. u.0.0 (ap (λ r. r.created_at) (sym e) ∙ sym same ∙ ap (λ r. r.created_at) e'),
      subst (λ r. All (Differ r) xs) (sym e) u.1.0,
    ),
    (subst (λ r. All (Differ r) xs) (sym e') u.0.1, u.1.1),
  )
  HasNoTies-back (Permᴰ.trans p q) u = HasNoTies-back p (HasNoTies-back q u)

  pub newest_first_rearranged :
      {xs ys : List (OrderRow F)} → Permᴰ xs ys → HasNoTies ys → newest_first xs ≡ newest_first ys
  unfolding newest_first
  newest_first_rearranged Permᴰ.nil u = refl
  newest_first_rearranged (Permᴰ.cons {l₁ = xs} {l₂ = ys} e p) u =
      ap (λ r. insert_by_age r (newest_first xs)) e
      ∙ ap (insert_by_age _) (newest_first_rearranged p u.1)
  newest_first_rearranged (Permᴰ.swap {b = b} {a' = a'} {b' = b'} {l = xs} e e') u =
      ap (λ r. insert_by_age r (insert_by_age b (newest_first xs))) e
      ∙ ap (λ r. insert_by_age b' (insert_by_age r (newest_first xs))) e'
      ∙ sym (insert_swap a' b' (newest_first xs) (u.0.0))
  newest_first_rearranged (Permᴰ.trans p q) u =
      newest_first_rearranged p (HasNoTies-back q u) ∙ newest_first_rearranged q u
