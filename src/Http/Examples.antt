-- ===== src/Http/Examples.antt =====
-- Pages of concrete listings.
use mathlib.Core.List.Permᴰ
use realtime_order_inventory.Prelude.{ℕ, ◌≡◌}
use realtime_order_inventory.Prelude.Int.{pos}
use realtime_order_inventory.Prelude.{map, select, [], ◌∷◌, arith}
use realtime_order_inventory.Exec.{World}
use realtime_order_inventory.Order.Domain.{Db, Cached}
use realtime_order_inventory.Exec.Envs.{quiet}
use realtime_order_inventory.Order.Fixtures.{ids, host, waiting, done, tables, world}
use realtime_order_inventory.Order.Postgres.{row_to_order, of_customer}
use realtime_order_inventory.Order.Repository.{OrderItemRepository, order_item_repository}
use realtime_order_inventory.Http.Listing.{
  browse, pages_said, one_page, listed, AreUntied, listing_complete,
}

abbrev no_items : OrderItemRepository ℕ
no_items = order_item_repository host (quiet ids)

-- Two orders of different times.
abbrev listing : World (Db ℕ) (Cached ℕ)
listing = record world {
  db = record tables { orders = waiting ∷ record done { created_at = 1 } ∷ [] };
}

untied : AreUntied host ids no_items "ann" (pos 1) listing
unfolding select of_customer
untied = ((λ e. omega arith, tt), (tt, tt))

-- One order on a page.
listing_complete_example :
    browse host ids no_items "ann"
      (pos 1)
      (pages_said (one_page host ids no_items "ann" (pos 1) 0 listing).0)
      0
      listing
    ≡ map (row_to_order host) (listed host ids no_items "ann" (pos 1) listing)
listing_complete_example =
    listing_complete host ids no_items "ann" (pos 1) (λ l o rows. Permᴰ.refl rows) listing untied
