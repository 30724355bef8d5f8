-- ===== src/Http/Listing.antt =====
-- ListOrders of internal/order/adapter/httpd/handler.go, page after page.
use mathlib.Core.List.{map-append, Permᴰ}
use realtime_order_inventory.Prelude.{
  ℕ, zero, suc, ◌+◌, ◌-◌, ◌*◌, ◌≤◌, ◌≡◌, refl, sym, ◌∙◌, ap, String, none, some, Option, List, [],
  ◌∷◌, ◌++◌, map, length, take, drop, select, arith,
}
use realtime_order_inventory.Prelude.Int.{ℤ, pos}
use realtime_order_inventory.Errors.{Result, ok, err}
use realtime_order_inventory.Exec.{World, Exec, ◌>>=◌, pure, attempt, query, read}
use realtime_order_inventory.Exec.Envs.{quiet}
use realtime_order_inventory.Http.Response.{Response, total_pages, json_with_pagination}
use realtime_order_inventory.Http.OrderHandler.{effective_limit, list_orders, page_response}
use realtime_order_inventory.Http.Pages.{total_pages_ceiling, effective_limit_lem}
use realtime_order_inventory.Order.Domain.{Order, OrderRow, Host, Db, Cached}
use realtime_order_inventory.Order.Postgres
use realtime_order_inventory.Order.Postgres.{
  newest_first, insert_by_age, of_customer, page, row_to_order,
}
use realtime_order_inventory.Order.Repository.{OrderItemRepository, order_repository}
use realtime_order_inventory.Order.UseCase
use realtime_order_inventory.Order.Sorting.{HasNoTies, newest_first_rearranged}

module _ {A : Type 0} where
  take-drop : (n : ℕ) (xs : List A) → take n xs ++ drop n xs ≡ xs
  take-drop zero xs = refl
  take-drop (suc n) [] = refl
  take-drop (suc n) (x ∷ xs) = ap (λ t. x ∷ t) (take-drop n xs)

  drop-nil : (n : ℕ) → drop {A = A} n [] ≡ []
  drop-nil zero = refl
  drop-nil (suc n) = refl

  drop-drop : (a b : ℕ) (xs : List A) → drop (a + b) xs ≡ drop b (drop a xs)
  drop-drop zero b xs = let h : 0 + b ≡ b = omega arith in rw h
  drop-drop (suc a) b [] = drop-nil (suc a + b) ∙ sym (drop-nil b)
  drop-drop (suc a) b (x ∷ xs) =
      let h : suc a + b ≡ suc (a + b) = omega arith in rw h (drop-drop a b xs)

  length-drop : (n : ℕ) (xs : List A) → length (drop n xs) ≡ length xs - n
  length-drop zero xs = omega arith
  length-drop (suc n) [] = omega arith
  length-drop (suc n) (x ∷ xs) = let rest = length-drop n xs in omega arith

  nothing_left : (xs : List A) → length xs ≤ 0 → xs ≡ []
  nothing_left [] h = refl
  nothing_left (x ∷ xs) h = ground arith

  -- Pages of a list: as many as n of them, from an offset.
  pages : ℕ → List A → ℕ → ℕ → List A
  pages limit xs zero offset = []
  pages limit xs (suc n) offset = take limit (drop offset xs) ++ pages limit xs n (offset + limit)

  pages_lem :
      (limit : ℕ) (xs : List A) (n offset : ℕ)
      → length xs ≤ offset + n * limit
      → pages limit xs n offset ≡ drop offset xs
  unfolding pages
  pages_lem limit xs zero offset h =
      let size = length-drop offset xs in sym (nothing_left (drop offset xs) (omega arith))
  pages_lem limit xs (suc n) offset h =
      ap (λ t. take limit (drop offset xs) ++ t)
        (pages_lem limit xs n (offset + limit) (omega arith) ∙ drop-drop offset limit xs)
      ∙ take-drop limit (drop offset xs)

module _ {F : Type 0} where
  insert-length :
      (r : OrderRow F) (rows : List (OrderRow F))
      → length (insert_by_age r rows) ≡ suc (length rows)
  unfolding insert_by_age
  insert-length r [] = refl
  insert-length r (x ∷ rows) = ground (arith, insert-length r rows)

  newest_first-length : (rows : List (OrderRow F)) → length (newest_first rows) ≡ length rows
  unfolding newest_first
  newest_first-length [] = refl
  newest_first-length (r ∷ rows) =
      insert-length r (newest_first rows) ∙ ap suc (newest_first-length rows)

  -- The orders of a response.
  abbrev pub entries : Option (List (Order F)) → List (Order F)
  entries none = []
  entries (some orders) = orders

  abbrev pub orders_of : Result (Response (List (Order F))) → List (Order F)
  orders_of (ok r) = entries r.payload
  orders_of (err x) = []

  -- How many pages a response says that there are.
  abbrev pub pages_said : Result (Response (List (Order F))) → ℕ
  pages_said (ok r) = elim r.meta [ none ↦ 0 | some m ↦ m.total_pages ]
  pages_said (err x) = 0

module _ {F : Type 0} (h : Host F) (ids : ℕ → String) (items : OrderItemRepository F)
    (customer : String) (limit : ℤ) where
  abbrev pub one_page : ℕ → Exec (Db F) (Cached F) (Response (List (Order F)))
  one_page offset =
      list_orders h (quiet ids) (order_repository h (quiet ids)) items customer limit (pos offset)

  -- The requests of a client that asks for one page after the other.
  abbrev pub browse : ℕ → ℕ → World (Db F) (Cached F) → List (Order F)
  browse zero offset w = []
  browse (suc n) offset w =
      let (r, w') = one_page offset w in orders_of r ++ browse n (offset + effective_limit limit) w'

  -- The rows of the customer, the newest first.
  abbrev pub listed : World (Db F) (Cached F) → List (OrderRow F)
  listed w = newest_first (select (of_customer customer) w.db.orders)

  -- No two of the customer's orders were created at one time.
  abbrev pub AreUntied : World (Db F) (Cached F) → Type 0
  AreUntied w = HasNoTies (select (of_customer customer) w.db.orders)

  -- The page of an order of the rows.
  abbrev paged :
      ℕ
      → World (Db F) (Cached F)
      → List (OrderRow F)
      → Result (Response (List (Order F))) × World (Db F) (Cached F)
  paged offset w rows = (
    ok (
        json_with_pagination 200
          (map (row_to_order h) (take (effective_limit limit) (drop offset rows)))
          (length (select (of_customer customer) w.db.orders)) (effective_limit limit)
          (pos offset)),
    record w { calls = suc (suc w.calls) },
  )

  page_met :
      (offset : ℕ) (w : World (Db F) (Cached F))
      → one_page offset w
        ≡ paged offset w (
            newest_first (
              h.scan
                (pos (effective_limit limit))
                (pos offset)
                (select (of_customer customer) w.db.orders)))
  unfolding list_orders UseCase.list_orders Postgres.list ◌>>=◌ pure attempt query read page
      page_response
  page_met offset w = refl

  module _ (scans : (l o : ℤ) (rows : List (OrderRow F)) → Permᴰ (h.scan l o rows) rows) where
    page_run :
        (offset : ℕ) (w : World (Db F) (Cached F))
        → AreUntied w
        → one_page offset w ≡ paged offset w (listed w)
    page_run offset w untied =
        page_met offset w
        ∙ ap (paged offset w) (
            newest_first_rearranged
              (scans (pos (effective_limit limit)) (pos offset)
                (select (of_customer customer) w.db.orders))
              untied)

    browse_lem :
        (n offset : ℕ) (w : World (Db F) (Cached F))
        → AreUntied w
        → browse n offset w
          ≡ map (row_to_order h) (pages (effective_limit limit) (listed w) n offset)
    unfolding pages json_with_pagination
    browse_lem zero offset w untied = refl
    browse_lem (suc n) offset w untied =
        let size = effective_limit limit in
        let w' : World (Db F) (Cached F) = record w { calls = suc (suc w.calls) } in
        rw (page_run offset w untied) (
          ap (λ t. map (row_to_order h) (take size (drop offset (listed w))) ++ t)
            (browse_lem n (offset + size) w' untied)
          ∙ sym (map-append (row_to_order h) (take size (drop offset (listed w))) _))

    -- While the service is alone and nothing fails, the pages of ListOrders put together, as many as the
    -- first page says that there are, are the whole list of the customer's orders in the query's order,
    -- for any limit that is asked for, where no two of the customer's orders were created at one time: in
    -- whichever order PostgreSQL meets the rows of each query.
    pub listing_complete :
        (w : World (Db F) (Cached F))
        → AreUntied w
        → browse (pages_said (one_page 0 w).0) 0 w ≡ map (row_to_order h) (listed w)
    unfolding json_with_pagination
    listing_complete w untied =
        let size = effective_limit limit in
        let chosen = select (of_customer customer) w.db.orders in
        let count = total_pages (length chosen) size in
        let enough = (total_pages_ceiling (length chosen) size 0 (effective_limit_lem limit).0).0 in
        let same = newest_first-length chosen in
        rw (page_run 0 w untied) (
          browse_lem count 0 w untied
          ∙ ap (map (row_to_order h)) (pages_lem size (listed w) count 0 (omega arith)))
