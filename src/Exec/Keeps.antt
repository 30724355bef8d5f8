-- ===== src/Exec/Keeps.antt =====
-- Invariants of calls: one rule for each way to build a call.
use realtime_order_inventory.Prelude.{
  subst, sym, ◌≡◌, refl, Bool, true, false, String, Option, none, some, if◌then◌else◌, Bool-cases,
  inl, inr,
}
use realtime_order_inventory.Errors.{Error, Result, ok, err}
use realtime_order_inventory.Exec.{
  Env, World, Exec, Executor, direct, in_tx, Stmt, pure, raise, lift, ◌>>=◌, wrap, attempt, ignore,
  deferring_rollback, advance, after, run_stmt, fail_stmt, query, begin, commit, new_id, now,
  run_in_tx, idle, settle, on_fault, read, attach, state_of,
}

-- The call keeps `P`, whether it returns or fails.
pub record Keeps {D V A : Type 0} (P : World D V → Type 0) (m : Exec D V A) : Type 0 where
  pub at : (w : World D V) → P w → P (m w).1

-- `I` holds of the committed data, and the open transaction would keep it at its commit.
pub record Holds {D V : Type 0} (I : D → Type 0) (w : World D V) : Type 0 where
  pub committed : I w.db
  pub pending : (d : D) → I d → I (w.tx.writes d)

-- The other connections keep `I`.
pub record Relies {D V : Type 0} (I : D → Type 0) (e : Env D V) : Type 0 where
  pub others : (n : _) (d : D) → I d → I (e.others n d)

pub record StmtKeeps {D A : Type 0} (I : D → Type 0) (s : Stmt D A) : Type 0 where
  pub at : (d : D) → I d → I (after s d)

module _ {D V A : Type 0} {P : World D V → Type 0} where
  pub Keeps-pure : (a : A) → Keeps P (pure a)
  unfolding pure
  Keeps-pure a = record { at = λ w h. h }

  pub Keeps-raise : (x : Error) → Keeps P (raise {A = A} x)
  unfolding raise
  Keeps-raise x = record { at = λ w h. h }

  pub Keeps-lift : (r : Result A) → Keeps P (lift r)
  unfolding lift
  Keeps-lift r = record { at = λ w h. h }

  pub Keeps-if :
      (b : Bool) (m n : Exec D V A) → Keeps P m → Keeps P n → Keeps P (if b then m else n)
  Keeps-if true m n km kn = km
  Keeps-if false m n km kn = kn

  -- The second call may rest on what the test has refused.
  pub Keeps-guard :
      (b : Bool) (m n : Exec D V A)
      → Keeps P m
      → (b ≡ false → Keeps P n)
      → Keeps P (if b then m else n)
  Keeps-guard true m n km kn = km
  Keeps-guard false m n km kn = kn refl

  pub Keeps-wrap : (text : String) (m : Exec D V A) → Keeps P m → Keeps P (wrap text m)
  unfolding wrap
  Keeps-wrap text m k = record { at = k.at }

  pub Keeps-attempt : (m : Exec D V A) → Keeps P m → Keeps P (attempt m)
  unfolding attempt
  Keeps-attempt m k = record { at = k.at }

  pub Keeps-ignore : (m : Exec D V A) → Keeps P m → Keeps P (ignore m)
  unfolding ignore
  Keeps-ignore m k = record { at = k.at }

module _ {D V A B : Type 0} {P : World D V → Type 0} where
  Keeps-continue :
      (r : Result A) (f : A → Exec D V B) (w : World D V)
      → ((a : A) → Keeps P (f a))
      → P w
      → P ((lift r >>= f) w).1
  unfolding ◌>>=◌
  Keeps-continue (ok a) f w kf h = (kf a).at w h
  Keeps-continue (err x) f w kf h = h

  pub Keeps-bind :
      (m : Exec D V A) (f : A → Exec D V B)
      → Keeps P m
      → ((a : A) → Keeps P (f a))
      → Keeps P (m >>= f)
  unfolding ◌>>=◌
  Keeps-bind m f km kf = record {
    at = λ w h. let (r, w') = m w in Keeps-continue r f w' kf (km.at w h);
  }

module _ {D V A B C : Type 0} where
  bind-continue :
      (f : A → Exec D V B) (g : B → Exec D V C) (r : Result A) (w : World D V)
      → ((lift r >>= f) >>= g) w ≡ (lift r >>= λ a. f a >>= g) w
  unfolding ◌>>=◌
  bind-continue f g (ok a) w = refl
  bind-continue f g (err x) w = refl

  -- A call inside a call may be read as one sequence.
  pub bind_assoc-Keeps :
      {P : World D V → Type 0} (m : Exec D V A) (f : A → Exec D V B) (g : B → Exec D V C)
      → Keeps P (m >>= λ a. f a >>= g)
      → Keeps P (m >>= f >>= g)
  unfolding ◌>>=◌
  bind_assoc-Keeps {P} m f g k = record {
    at = λ w h. subst (λ r. P r.1) (sym (bind-continue f g (m w).0 (m w).1)) (k.at w h);
  }

pub ruleset keeps_rules = (
  Keeps-pure, Keeps-raise, Keeps-lift, Keeps-if, Keeps-wrap, Keeps-attempt, Keeps-ignore,
  Keeps-bind,
)

module _ {D V : Type 0} (e : Env D V) {I : D → Type 0} (rely : Relies I e) where
  pub advance-Holds : (w : World D V) → Holds I w → Holds I (advance e w)
  unfolding advance
  advance-Holds w h = record {
    committed = rely.others w.calls w.db h.committed;
    pending = h.pending;
  }

  pub on_fault-Holds :
      {A : Type 0} (f : Option String) (through : Result A × World D V)
      (failed : String → Result A × World D V)
      → Holds I through.1
      → ((text : String) → Holds I (failed text).1)
      → Holds I (on_fault f through failed).1
  on_fault-Holds none through failed h k = h
  on_fault-Holds (some text) through failed h k = k text

  idle-Holds : (w : World D V) → I w.db → Holds I (record w { tx = idle })
  idle-Holds w h = record { committed = h; pending = λ d k. k }

  pub begin-Keeps : Keeps (Holds I) (begin e)
  unfolding begin
  begin-Keeps = record {
    at = λ w h.
        let a = advance-Holds w h in
        on_fault-Holds (e.fault w.calls) _ _ (idle-Holds (advance e w) a.committed) (λ text. a);
  }

  settle-Holds : (b : Bool) (w : World D V) → Holds I w → Holds I (settle b w).1
  unfolding settle
  settle-Holds true w h = idle-Holds w h.committed
  settle-Holds false w h =
      idle-Holds (record w { db = w.tx.writes w.db }) (h.pending w.db h.committed)

  pub commit-Keeps : Keeps (Holds I) (commit e)
  unfolding commit
  commit-Keeps = record {
    at = λ w h.
        let a = advance-Holds w h in
        on_fault-Holds (e.fault w.calls) _ _ (settle-Holds w.tx.aborted (advance e w) a)
          (λ text. idle-Holds (advance e w) a.committed);
  }

  fail_stmt-Holds :
      (A : Type 0) (x : Executor) (text : String) (w : World D V)
      → Holds I w
      → Holds I (fail_stmt {A = A} x text w).1
  unfolding fail_stmt
  fail_stmt-Holds A direct text w h = h
  fail_stmt-Holds A in_tx text w h = record { committed = h.committed; pending = h.pending }

  module _ {A : Type 0} (s : Stmt D A) (k : StmtKeeps I s) where
    run_in_tx-Holds : (r : Result (A × D)) (w : World D V) → Holds I w → Holds I (run_in_tx s r w)
    unfolding run_in_tx
    run_in_tx-Holds (ok (a, d)) w h = record {
      committed = h.committed;
      pending = λ d i. k.at _ (h.pending d i);
    }
    run_in_tx-Holds (err x) w h = record { committed = h.committed; pending = h.pending }

    run_stmt-Holds : (x : Executor) (w : World D V) → Holds I w → Holds I (run_stmt x s w).1
    unfolding run_stmt
    run_stmt-Holds direct w h = record { committed = k.at w.db h.committed; pending = h.pending }
    run_stmt-Holds in_tx w h = elim (Bool-cases w.tx.aborted) [
      | inl e ↦ simp e h
      | inr e ↦ simp e (run_in_tx-Holds (s (w.tx.writes w.db)) w h)
    ]

    pub query-Keeps : (x : Executor) → Keeps (Holds I) (query e x s)
    unfolding query
    query-Keeps x = record {
      at = λ w h.
          let a = advance-Holds w h in
          on_fault-Holds (e.fault w.calls) _ _ (run_stmt-Holds x _ a)
            (λ text. fail_stmt-Holds A x text _ a);
    }

  pub new_id-Keeps : Keeps (Holds I) (new_id e)
  unfolding new_id
  new_id-Keeps = record { at = λ w h. record { committed = h.committed; pending = h.pending } }

  pub now-Keeps : Keeps (Holds I) (now e)
  unfolding now
  now-Keeps = record { at = λ w h. record { committed = h.committed; pending = h.pending } }

module _ {D V A : Type 0} {I : D → Type 0} where
  pub deferring_rollback-Keeps :
      (m : Exec D V A) → Keeps (Holds I) m → Keeps (Holds I) (deferring_rollback m)
  unfolding deferring_rollback
  deferring_rollback-Keeps m k = record {
    at = λ w h. record { committed = (k.at w h).committed; pending = λ d i. i };
  }

module _ {D A : Type 0} (I : D → Type 0) where
  read-after : (d : D) (r : Result A) → I d → I (state_of d (attach d r))
  read-after d (ok a) h = h
  read-after d (err x) h = h

  pub read-StmtKeeps : (r : D → Result A) → StmtKeeps I (read r)
  unfolding read
  read-StmtKeeps r = record { at = λ d h. read-after d (r d) h }
