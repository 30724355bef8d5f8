-- ===== src/Order/Moves.antt =====
-- The states of an order of internal/order/domain/order.go, and how the rows of the table follow one another.
use realtime_order_inventory.Prelude.{
  ℕ, ◌≡◌, refl, ◌∙◌, sym, ap, subst, Bool, Bool-cases, inl, inr, true, false, false≢true, String,
  some, List, [], ◌∷◌, ◌++◌, ◌==◌, ◌||◌, ◌⊎◌, if◌then◌else◌, arith, eq_iff, All, find, some_row,
  update,
}
use realtime_order_inventory.Order.Domain.{
  OrderStatus, Order, OrderRow, can_cancel, pending_payment, paid, processing, cancelled,
}

-- What a use case may do to the status of an order.
pub data Move : OrderStatus → OrderStatus → Type 0 where
  cancels_pending : Move pending_payment cancelled
  cancels_paid : Move paid cancelled
  confirms : Move pending_payment processing

pub data Near (s : OrderStatus) : OrderStatus → Type 0 where
  kept : Near s s
  moved : {t : OrderStatus} → Move s t → Near s t

abbrev moves_on : OrderStatus → Bool
moves_on s = (s == pending_payment) || (s == paid)

Move-begins : {s t : OrderStatus} → Move s t → moves_on s ≡ true
Move-begins cancels_pending = refl
Move-begins cancels_paid = refl
Move-begins confirms = refl

Move-ends : {s t : OrderStatus} → Move s t → moves_on t ≡ false
Move-ends cancels_pending = refl
Move-ends cancels_paid = refl
Move-ends confirms = refl

-- A status that a move leads to admits no further move.
Move-last : {s t u : OrderStatus} → Move s t → Move t u → Near s u
Move-last m n = absurd (false≢true (sym (Move-ends m) ∙ Move-begins n))

Near-trans : {s t u : OrderStatus} → Near s t → Near t u → Near s u
Near-trans kept n = n
Near-trans (moved m) kept = moved m
Near-trans (moved m) (moved m') = Move-last m m'

or_true : (a b : Bool) → (a || b) ≡ true → (a ≡ true) ⊎ (b ≡ true)
or_true true b e = inl refl
or_true false b e = inr e

near_cancelled :
    (s t : OrderStatus)
    → Near s t
    → ((t == pending_payment) || (t == paid)) ≡ true
    → Near s cancelled
near_cancelled s t kept may = elim (or_true (s == pending_payment) (s == paid) may) [
  | inl e ↦
      subst (λ x. Near x cancelled) (sym ((eq_iff s pending_payment).0 e)) (moved cancels_pending)
  | inr e ↦ subst (λ x. Near x cancelled) (sym ((eq_iff s paid).0 e)) (moved cancels_paid)
]
near_cancelled s t (moved cancels_pending) may = absurd (false≢true may)
near_cancelled s t (moved cancels_paid) may = absurd (false≢true may)
near_cancelled s t (moved confirms) may = absurd (false≢true may)

-- An order that has moved already may not be cancelled.
pub cancellable_near :
    {F : Type 0} (s : OrderStatus) (o : Order F)
    → Near s o.status
    → can_cancel o ≡ true
    → Near s cancelled
unfolding can_cancel
cancellable_near s o = near_cancelled s o.status

pub pending_near :
    (s t : OrderStatus) → Near s t → (t == pending_payment) ≡ true → Near s processing
pending_near s t kept may =
    subst (λ x. Near x processing) (sym ((eq_iff s pending_payment).0 may)) (moved confirms)
pending_near s t (moved cancels_pending) may = absurd (false≢true may)
pending_near s t (moved cancels_paid) may = absurd (false≢true may)
pending_near s t (moved confirms) may = absurd (false≢true may)

module _ {F : Type 0} where
  -- Each row stays at its place, with its identifier, at most one move from its status; new rows follow.
  abbrev pub Tracks : List (OrderRow F) → List (OrderRow F) → Type 0
  Tracks [] rs' = Unit {0}
  Tracks (r ∷ rs) [] = ⊥
  Tracks (r ∷ rs) (r' ∷ rs') = (r'.id ≡ r.id) × Near r.status r'.status × Tracks rs rs'

  -- The primary key.
  abbrev pub UniqueIds : List (OrderRow F) → Type 0
  UniqueIds [] = Unit {0}
  UniqueIds (r ∷ rs) = (some_row (λ x. x.id == r.id) rs ≡ false) × UniqueIds rs

  -- A write of `s` to the order `id` keeps within one move of the rows.
  abbrev pub MayBecome : String → OrderStatus → List (OrderRow F) → Type 0
  MayBecome id s rs = All (λ r. (r.id == id) ≡ true → Near r.status s) rs

  pub Tracks-refl : (rs : List (OrderRow F)) → Tracks rs rs
  Tracks-refl [] = tt
  Tracks-refl (r ∷ rs) = (refl, kept, Tracks-refl rs)

  pub Tracks-trans :
      (rs rs' rs'' : List (OrderRow F)) → Tracks rs rs' → Tracks rs' rs'' → Tracks rs rs''
  Tracks-trans [] rs' rs'' h k = tt
  Tracks-trans (r ∷ rs) [] rs'' h k = absurd h
  Tracks-trans (r ∷ rs) (r' ∷ rs') [] h k = absurd k
  Tracks-trans (r ∷ rs) (r' ∷ rs') (r'' ∷ rs'') (i, p, h) (j, q, k) =
      (j ∙ i, Near-trans p q, Tracks-trans rs rs' rs'' h k)

  pub Tracks-append :
      (rs rs' : List (OrderRow F)) (row : OrderRow F) → Tracks rs rs' → Tracks rs (rs' ++ row ∷ [])
  Tracks-append [] rs' row h = tt
  Tracks-append (r ∷ rs) [] row h = absurd h
  Tracks-append (r ∷ rs) (r' ∷ rs') row (i, p, h) = (i, p, Tracks-append rs rs' row h)

  status_written :
      (id : String) (s : OrderStatus) (time : ℕ) (r r' : OrderRow F) (b : Bool)
      → (r'.id == id) ≡ b
      → r'.id ≡ r.id
      → Near r.status r'.status
      → ((r.id == id) ≡ true → Near r.status s)
      → let written : OrderRow F = if b then record r' { status = s; updated_at = time } else r' in
        (written.id ≡ r.id) × Near r.status written.status
  status_written id s time r r' true e i p may = (i, may (ap (λ x. x == id) (sym i) ∙ e))
  status_written id s time r r' false e i p may = (i, p)

  pub Tracks-update :
      (id : String) (s : OrderStatus) (time : ℕ) (rs rs' : List (OrderRow F))
      → MayBecome id s rs
      → Tracks rs rs'
      → Tracks rs (update (λ r. r.id == id) (λ r. record r { status = s; updated_at = time }) rs')
  unfolding update
  Tracks-update id s time [] rs' may h = tt
  Tracks-update id s time (r ∷ rs) [] may h = absurd h
  Tracks-update id s time (r ∷ rs) (r' ∷ rs') may (i, p, h) =
      let (i', p') = status_written id s time r r' (r'.id == id) refl i p may.0 in
      (i', p', Tracks-update id s time rs rs' may.1 h)

  -- Where identifiers are unique, the row that a lookup finds is the one that tells the status.
  no_other :
      (id : String) (s : OrderStatus) (rs : List (OrderRow F))
      → some_row (λ x. x.id == id) rs ≡ false
      → MayBecome id s rs
  unfolding some_row
  no_other id s [] h = tt
  no_other id s (r ∷ rs) h = (λ e. ground arith, no_other id s rs (ground arith))

  pub found-Near :
      (id : String) (rs rs' : List (OrderRow F)) (row : OrderRow F)
      → UniqueIds rs
      → Tracks rs rs'
      → find (λ r. r.id == id) rs' ≡ some row
      → MayBecome id row.status rs
  unfolding find
  found-Near id [] rs' row u h e = tt
  found-Near id (r ∷ rs) [] row u h e = absurd h
  found-Near id (r ∷ rs) (r' ∷ rs') row u (i, p, h) e = elim (Bool-cases (r'.id == id)) [
    | inl is ↦
        let is_row : r' ≡ row = (ground arith) in
        let here : r.id ≡ id = sym i ∙ (eq_iff r'.id id).0 is in
        (
          λ _. subst (λ x. Near r.status x.status) is_row p,
          no_other id row.status rs (subst (λ x. some_row (λ y. y.id == x) rs ≡ false) here u.0),
        )
    | inr differs ↦ (
      λ is. absurd (false≢true (sym differs ∙ ap (λ x. x == id) i ∙ is)),
      found-Near id rs rs' row u.1 h (ground arith),
    )
  ]

  -- What one status allows, another may allow too.
  pub MayBecome-then :
      (id : String) (s t : OrderStatus) (rs : List (OrderRow F))
      → ((u : OrderStatus) → Near u s → Near u t)
      → MayBecome id s rs
      → MayBecome id t rs
  MayBecome-then id s t [] f h = tt
  MayBecome-then id s t (r ∷ rs) f (near, h) =
      (λ is. f r.status (near is), MayBecome-then id s t rs f h)
