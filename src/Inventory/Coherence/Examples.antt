-- ===== src/Inventory/Coherence/Examples.antt =====
-- Runs of the stock behind Redis on concrete calls.
use realtime_order_inventory.Prelude.{List, ◌∷◌, []}
use realtime_order_inventory.Prelude.Int.{pos}
use realtime_order_inventory.Inventory.Coherence.Tables.{
  Call, get, get_all, reserve, release, warehouse,
}

-- The second reservation has an old version, and is refused.
abbrev a_day : List Call
a_day =
    get "lamp" "hanoi"
    ∷ reserve "lamp" "hanoi" (pos 3) 7
    ∷ get "lamp" "hanoi"
    ∷ reserve "lamp" "hanoi" (pos 1) 7
    ∷ release "lamp" "hanoi" (pos 2)
    ∷ get_all "lamp"
    ∷ get "lamp" "hanoi"
    ∷ warehouse "HN"
    ∷ []
