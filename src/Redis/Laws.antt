-- ===== src/Redis/Laws.antt =====
-- Redis as a map: what a key holds after a SET and after a DEL, and keys that differ.
use text.Mathlib.TextLemmas.{append_cancel_left}
use realtime_order_inventory.Prelude.{
  ◌≡◌, ◌⊎◌, inl, inr, Bool-cases, String, false, none, some, [], ◌∷◌, ◌==◌, eq_iff, if◌then◌else◌,
  arith,
}
use realtime_order_inventory.Exec.{Store}
use realtime_order_inventory.Redis.{Cache, full_key, lookup, without, remove_all}

module _ {V : Type 0} where
  pub lookup-without :
      (k j : String) (s : Store V) → lookup j (without k s) ≡ (if k == j then none else lookup j s)
  unfolding lookup without
  lookup-without k j [] = ground arith
  lookup-without k j ((i, v) ∷ s) =
      ground (arith, eq_iff k j, eq_iff i k, eq_iff i j, lookup-without k j s)

  pub lookup-set :
      (k j : String) (v : V) (s : Store V)
      → lookup j ((k, v) ∷ without k s) ≡ (if k == j then some v else lookup j s)
  unfolding lookup
  lookup-set k j v s = ground (arith, lookup-without k j s)

  pub lookup-remove_two :
      (k l j : String) (s : Store V)
      → lookup j (remove_all (k ∷ l ∷ []) s)
        ≡ (if l == j then none else if k == j then none else lookup j s)
  unfolding remove_all
  lookup-remove_two k l j s = ground (arith, lookup-without l j (without k s), lookup-without k j s)

pub full_key-inj : (c : Cache) (k l : String) → full_key c k ≡ full_key c l → k ≡ l
unfolding full_key
full_key-inj c k l e = append_cancel_left ":" k l (append_cancel_left c.prefix _ _ e)

module _ {V : Type 0} where
  -- What is found after a SET was written by it, or was there before.
  pub set_cases :
      (k j : String) (v u : V) (s : Store V)
      → lookup j ((k, v) ∷ without k s) ≡ some u
      → ((k ≡ j) × (v ≡ u)) ⊎ (lookup j s ≡ some u)
  set_cases k j v u s h = elim (Bool-cases (k == j)) [
    | inl same ↦ inl (ground (arith, eq_iff k j), ground (arith, lookup-set k j v s))
    | inr other ↦ inr (ground (arith, lookup-set k j v s))
  ]

  -- What is found after a DEL of two keys is under neither, and was there before.
  pub remove_cases :
      (k l j : String) (u : V) (s : Store V)
      → lookup j (remove_all (k ∷ l ∷ []) s) ≡ some u
      → ((k == j) ≡ false) × ((l == j) ≡ false) × (lookup j s ≡ some u)
  remove_cases k l j u s h = (
    ground (arith, lookup-remove_two k l j s),
    ground (arith, lookup-remove_two k l j s),
    ground (arith, lookup-remove_two k l j s),
  )
