-- ===== src/Inventory/Coherence/Keys.antt =====
-- The keys of internal/inventory/adapter/cache/inventory_repo.go: which texts have one key.
use Prim.Native.Char.{Char, code}
use Prim.Native.String.{◌++◌ as concat}
use text.Mathlib.TextLemmas.{
  append_cancel_left, nil-append, cons-append, head-eq_of_cons-eq, tail-eq_of_cons-eq,
}
use realtime_order_inventory.Prelude.{◌≡◌, ◌≢◌, refl, sym, ◌∙◌, ap, String}
use realtime_order_inventory.Redis.{Cache, full_key}
use realtime_order_inventory.Redis.Laws.{full_key-inj}
use realtime_order_inventory.Inventory.Cache.{
  inventory_by_product_warehouse_key, inventory_by_product_key, warehouse_code_key,
}

-- A text without a colon, as the identifiers of products are.
abbrev pub HasNoColon : String → Type 0
HasNoColon String.[] = Unit {0}
HasNoColon (String.◌∷◌ c s) = (code c ≢ 58) × HasNoColon s

concat-colon : (w : String) → concat ":" w ≡ String.◌∷◌ ":" w
concat-colon w = cons-append ":" "" w ∙ ap (λ t. String.◌∷◌ ":" t) (nil-append w)

-- What stands before the colon does not begin with one.
no-colon-first :
    (c : Char) (s w t : String)
    → HasNoColon (String.◌∷◌ c s)
    → concat "" (concat ":" w) ≡ concat (String.◌∷◌ c s) t
    → ⊥
no-colon-first c s w t h e = h.0 (
    ap code (
      sym (
        head-eq_of_cons-eq
          (sym (nil-append (concat ":" w) ∙ concat-colon w) ∙ e ∙ cons-append c s t))))

split-inj :
    (p p' w w' : String)
    → HasNoColon p
    → HasNoColon p'
    → concat p (concat ":" w) ≡ concat p' (concat ":" w')
    → (p ≡ p') × (w ≡ w')
split-inj String.[] String.[] w w' h h' e =
    (refl, append_cancel_left ":" w w' (append_cancel_left "" _ _ e))
split-inj String.[] (String.◌∷◌ c s) w w' h h' e = absurd (no-colon-first c s w _ h' e)
split-inj (String.◌∷◌ c s) String.[] w w' h h' e = absurd (no-colon-first c s w' _ h (sym e))
split-inj (String.◌∷◌ c s) (String.◌∷◌ c' s') w w' h h' e =
    let e' = sym (cons-append c s (concat ":" w)) ∙ e ∙ cons-append c' s' (concat ":" w') in
    let (same, rest) = split-inj s s' w w' h.1 h'.1 (tail-eq_of_cons-eq e') in
    (ap (λ d. String.◌∷◌ d s) (head-eq_of_cons-eq e') ∙ ap (λ t. String.◌∷◌ c' t) same, rest)

-- The keys of two places differ, where the products' identifiers have no colon.
pub place_key-inj :
    (cache : Cache) (p p' w w' : String)
    → HasNoColon p
    → HasNoColon p'
    → full_key cache (inventory_by_product_warehouse_key p w)
      ≡ full_key cache (inventory_by_product_warehouse_key p' w')
    → (p ≡ p') × (w ≡ w')
unfolding inventory_by_product_warehouse_key
place_key-inj cache p p' w w' h h' e =
    split-inj p p' w w' h h' (append_cancel_left "stock:warehouse:" _ _ (full_key-inj cache _ _ e))

pub product_key-inj :
    (cache : Cache) (p p' : String)
    → full_key cache (inventory_by_product_key p) ≡ full_key cache (inventory_by_product_key p')
    → p ≡ p'
unfolding inventory_by_product_key
product_key-inj cache p p' e = append_cancel_left "stock:" _ _ (full_key-inj cache _ _ e)

pub warehouse_key-inj :
    (cache : Cache) (a b : String)
    → full_key cache (warehouse_code_key a) ≡ full_key cache (warehouse_code_key b)
    → a ≡ b
unfolding warehouse_code_key
warehouse_key-inj cache a b e = append_cancel_left "warehouse:code:" _ _ (full_key-inj cache _ _ e)
