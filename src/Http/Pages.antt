-- ===== src/Http/Pages.antt =====
-- The pages of pkg/response and of the listing of orders.
use Prim.Native.Nat.{◌/◌}
use native.Mathlib.Nat.{div-add-mod', mod-lt, div-mul-le_self, lt_of_mul-lt-mul_right}
use realtime_order_inventory.Prelude.{ℕ, zero, suc, ◌+◌, ◌-◌, ◌*◌, ◌≤◌, ◌<◌, ◌≡◌, arith}
use realtime_order_inventory.Prelude.Int.{ℤ, pos, negsuc}
use realtime_order_inventory.Http.Response.{total_pages}
use realtime_order_inventory.Http.OrderHandler.{effective_limit}

-- The pages hold all entries, and one page less does not, for a positive limit.
pub total_pages_ceiling :
    (total limit n : ℕ)
    → 0 < limit
    → (total ≤ total_pages total limit * limit) × (total ≤ n * limit → total_pages total limit ≤ n)
unfolding total_pages
total_pages_ceiling total limit n positive = (
  omega (arith, div-add-mod' (total + (limit - 1)) limit, mod-lt (total + (limit - 1)) positive),
  λ h. fits (lt_of_mul-lt-mul_right limit (below h)),
)
  where
    below : total ≤ n * limit → (total + (limit - 1)) / limit * limit < suc n * limit
    below h = omega (arith, div-mul-le_self (total + (limit - 1)) limit)

    fits : (total + (limit - 1)) / limit < suc n → (total + (limit - 1)) / limit ≤ n
    fits h = omega arith

-- ListOrders never asks for a page without entries, and keeps a positive limit.
pub effective_limit_lem :
    (limit : ℤ)
    → (0 < effective_limit limit) × ((n : ℕ) → limit ≡ pos (suc n) → effective_limit limit ≡ suc n)
unfolding effective_limit
effective_limit_lem (pos zero) = (omega arith, λ n h. cc)
effective_limit_lem (pos (suc m)) = (omega arith, λ n h. ground arith)
effective_limit_lem (negsuc m) = (omega arith, λ n h. cc)
