-- ===== src/Exec/Yields.antt =====
-- Calls whose values satisfy a condition, where an invariant holds.
use realtime_order_inventory.Prelude.{subst, ◌≡◌, refl, arith, String, Option, none, some}
use realtime_order_inventory.Errors.{Result, ok, err}
use realtime_order_inventory.Exec.{
  Env, World, Exec, direct, pure, lift, ◌>>=◌, run_stmt, fail_stmt, query, on_fault, read,
}
use realtime_order_inventory.Exec.Keeps.{
  Keeps, Holds, Relies, Keeps-bind, Keeps-pure, query-Keeps, read-StmtKeeps, advance-Holds,
}

-- The call keeps `P`, and a value that it returns satisfies `Q`.
pub record Yields {D V A : Type 0} (P : World D V → Type 0) (Q : A → Type 0) (m : Exec D V A)
    : Type 0 where
  pub at : (w : World D V) → P w → P (m w).1
  pub value : (w : World D V) → P w → (a : A) → (m w).0 ≡ ok a → Q a

module _ {D V A B : Type 0} where
  returned-Yields :
      (Q : A → Type 0) (R : B → Type 0) (r : Result A) (f : A → B) (w : World D V) (b : B)
      → ((a : A) → r ≡ ok a → Q a)
      → ((a : A) → Q a → R (f a))
      → ((lift r >>= λ a. pure (f a)) w).0 ≡ ok b
      → R b
  unfolding ◌>>=◌ pure
  returned-Yields Q R (ok a) f w b q k e = subst R (ground arith) (k a (q a refl))
  returned-Yields Q R (err x) f w b q k e = cc

module _ {D V A B : Type 0} {P : World D V → Type 0} where
  yielded-Keeps :
      (r : Result A) (f : A → Exec D V B) (w : World D V) (Q : A → Type 0)
      → ((a : A) → r ≡ ok a → Q a)
      → ((a : A) → Q a → Keeps P (f a))
      → P w
      → P ((lift r >>= f) w).1
  unfolding ◌>>=◌
  yielded-Keeps (ok a) f w Q q kf h = (kf a (q a refl)).at w h
  yielded-Keeps (err x) f w Q q kf h = h

  pub Yields-bind :
      {Q : A → Type 0} (m : Exec D V A) (f : A → Exec D V B)
      → Yields P Q m
      → ((a : A) → Q a → Keeps P (f a))
      → Keeps P (m >>= f)
  unfolding ◌>>=◌
  Yields-bind {Q} m f y kf = record {
    at = λ w h. yielded-Keeps (m w).0 f (m w).1 Q (y.value w h) kf (y.at w h);
  }

  -- A value that is computed from what a call has yielded.
  pub Yields-then :
      {Q : A → Type 0} {R : B → Type 0} (m : Exec D V A) (f : A → B)
      → Yields P Q m
      → ((a : A) → Q a → R (f a))
      → Yields P R (m >>= λ a. pure (f a))
  unfolding ◌>>=◌
  Yields-then {Q} {R} m f y k = record {
    at = (Keeps-bind m (λ a. pure (f a)) (record { at = y.at }) λ a. Keeps-pure (f a)).at;
    value = λ w h b e. returned-Yields Q R (m w).0 f (m w).1 b (y.value w h) k e;
  }

module _ {D V A : Type 0} {P : World D V → Type 0} where
  pub Yields-weaken :
      {Q R : A → Type 0} (m : Exec D V A) → Yields P Q m → ((a : A) → Q a → R a) → Yields P R m
  Yields-weaken m y k = record { at = y.at; value = λ w h a e. k a (y.value w h a e) }

module _ {D V : Type 0} (e : Env D V) {I : D → Type 0} (rely : Relies I e) where
  read-Yields_at :
      {A : Type 0} (Q : A → Type 0) (r : D → Result A) (w : World D V) (f : Option String) (a : A)
      → ((d : D) (a : A) → I d → r d ≡ ok a → Q a)
      → Holds I w
      → (on_fault f (run_stmt direct (read r) w) (λ text. fail_stmt direct text w)).0 ≡ ok a
      → Q a
  unfolding run_stmt fail_stmt read
  read-Yields_at Q r w none a q h p = q w.db a h.committed (ground arith)
  read-Yields_at Q r w (some text) a q h p = cc

  -- What a SELECT finds satisfies what `I` says of it.
  pub read-Yields :
      {A : Type 0} {Q : A → Type 0} (r : D → Result A)
      → ((d : D) (a : A) → I d → r d ≡ ok a → Q a)
      → Yields (Holds I) Q (query e direct (read r))
  unfolding query
  read-Yields {A} {Q} r q = record {
    at = λ w h. (query-Keeps e rely (read r) (read-StmtKeeps I r) direct).at w h;
    value = λ w h a p. read-Yields_at Q r _ (e.fault w.calls) a q (advance-Holds e rely w h) p;
  }
