-- ===== src/Order/Cache.antt =====
-- internal/order/adapter/cache/order_repo.go: repositories that read through Redis. A status that
-- is changed in a transaction does not touch the cache.
use Prim.Native.String.{◌++◌ as concat}
use realtime_order_inventory.Prelude.{
  String, Option, none, some, List, [], ◌∷◌, ◌==◌, if◌then◌else◌, some_row,
}
use realtime_order_inventory.Exec.{pure, ◌>>=◌, ◌>>◌}
use realtime_order_inventory.Redis
use realtime_order_inventory.Redis.{Cache}
use realtime_order_inventory.Order.Domain.{
  OrderStatus, Order, OrderItem, Cached, cached_order, cached_items,
}
use realtime_order_inventory.Order.Postgres.{M, E}
use realtime_order_inventory.Order.Repository.{OrderRepository, OrderItemRepository}

unfoldable pub order_key : String → String
order_key id = id

unfoldable pub order_items_key : String → String
order_items_key id = concat "items:" id

unfoldable pub as_order : {F : Type 0} → Cached F → Option (Order F)
as_order (cached_order o) = some o
as_order _ = none

unfoldable pub as_items : {F : Type 0} → Cached F → Option (List (OrderItem F))
as_items (cached_items is) = some is
as_items _ = none

-- The keys of the orders of the items, each once, in the order of the items.
unfoldable pub item_keys : {F : Type 0} → List String → List (OrderItem F) → List String
unfolding order_items_key
item_keys seen [] = []
item_keys seen (item ∷ items) =
    let again = item_keys seen items in
    let fresh = order_items_key item.order_id ∷ item_keys (item.order_id ∷ seen) items in
    if some_row (λ id. id == item.order_id) seen then again else fresh

module _ {F : Type 0} (e : E F) (cache : Cache) where
  unfoldable pub read_through : {A : Type 0} → String → (A → Cached F) → M F A → Option A → M F A
  read_through key encode load (some a) = pure a
  read_through key encode load none = do a ← load; Redis.set e cache key (encode a); pure a

  module _ (inner : OrderRepository F) where
    unfoldable pub get_by_id : String → M F (Order F)
    unfolding order_key
    get_by_id id = do
      hit ← Redis.get e cache as_order (order_key id)
      read_through (order_key id) cached_order (inner.get_by_id id) hit

    unfoldable pub update_status : String → OrderStatus → M F (Unit {0})
    unfolding order_key
    update_status id status = do
      inner.update_status id status
      Redis.delete e cache (order_key id ∷ [])

    abbrev pub order_cache : OrderRepository F
    order_cache = record {
      create = inner.create;
      create_in_tx = inner.create_in_tx;
      get_by_id = get_by_id;
      get_by_idempotency_key = inner.get_by_idempotency_key;
      list = inner.list;
      update_status = update_status;
      update_status_in_tx = inner.update_status_in_tx;
    }

  module _ (inner : OrderItemRepository F) where
    unfoldable pub create_items : List (OrderItem F) → M F (Unit {0})
    unfolding item_keys
    create_items [] = inner.create []
    create_items (item ∷ items) = do
      inner.create (item ∷ items)
      Redis.delete e cache (item_keys [] (item ∷ items))

    unfoldable pub get_by_order_id : String → M F (List (OrderItem F))
    unfolding order_items_key
    get_by_order_id id = do
      hit ← Redis.get e cache as_items (order_items_key id)
      read_through (order_items_key id) cached_items (inner.get_by_order_id id) hit

    abbrev pub order_item_cache : OrderItemRepository F
    order_item_cache = record {
      create = create_items;
      create_in_tx = inner.create_in_tx;
      get_by_order_id = get_by_order_id;
    }
