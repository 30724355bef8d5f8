-- ===== src/Inventory/Safety.antt =====
-- No oversell: in every stock row 0 <= quantity_reserved <= quantity_on_hand.
mod Rows
mod Postgres
mod Cache
mod UseCase
pub use Rows.{IsStocked, IsBooked, IsSound}
pub use Postgres.{KeepsStock, inventory_repository-KeepsStock}
pub use Cache.{inventory_cache-KeepsStock}
pub use UseCase.{reserve_stock-IsSound, release_reservation-IsSound, update_stock-IsSound}
