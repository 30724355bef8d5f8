-- ===== src/Redis.antt =====
-- pkg/cache/cache.go: a cache whose failures are misses. A stored JSON text is modelled by the
-- value that it encodes, and a reader's `decode` fails on a value of another shape.
pub mod Laws
pub mod Reading
use Prim.Native.String.{◌++◌ as concat}
use realtime_order_inventory.Prelude.{
  String, Option, none, some, List, [], ◌∷◌, map, ◌==◌, if◌then◌else◌,
}
use realtime_order_inventory.Errors.{ok}
use realtime_order_inventory.Exec.{Env, Exec, Store, advance, on_fault}

pub record Cache : Type 0 where
  pub prefix : String

-- c.prefix + ":" + k
unfoldable pub full_key : Cache → String → String
full_key c k = concat c.prefix (concat ":" k)

module _ {V : Type 0} where
  unfoldable pub lookup : String → Store V → Option V
  lookup k [] = none
  lookup k ((j, v) ∷ s) = if j == k then some v else lookup k s

  unfoldable pub without : String → Store V → Store V
  without k [] = []
  without k ((j, v) ∷ s) = let rest = without k s in if j == k then rest else (j, v) ∷ rest

  unfoldable pub remove_all : List String → Store V → Store V
  remove_all [] s = s
  remove_all (k ∷ ks) s = remove_all ks (without k s)

abbrev pub decoded : {V A : Type 0} → (V → Option A) → Option V → Option A
decoded decode none = none
decoded decode (some v) = decode v

module _ {D V : Type 0} (e : Env D V) (c : Cache) where
  -- Get: a Redis error and a value that does not decode are misses.
  unfoldable pub get : {A : Type 0} → (V → Option A) → String → Exec D V (Option A)
  unfolding advance full_key lookup
  get decode k w =
      on_fault (e.fault w.calls)
        (ok (decoded decode (lookup (full_key c k) (advance e w).store)), advance e w)
        λ _. (ok none, advance e w)

  -- Set: an error is logged only.
  unfoldable pub set : String → V → Exec D V (Unit {0})
  unfolding advance full_key without
  set k v w =
      on_fault (e.fault w.calls)
        (
          ok tt,
          record (advance e w) {
            store = (full_key c k, v) ∷ without (full_key c k) (advance e w).store;
          },
        )
        λ _. (ok tt, advance e w)

  -- Delete: an error is logged only.
  unfoldable pub delete : List String → Exec D V (Unit {0})
  unfolding advance full_key remove_all
  delete keys w =
      on_fault (e.fault w.calls)
        (
          ok tt,
          record (advance e w) { store = remove_all (map (full_key c) keys) (advance e w).store },
        )
        λ _. (ok tt, advance e w)
