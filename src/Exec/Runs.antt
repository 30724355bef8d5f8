-- ===== src/Exec/Runs.antt =====
-- Runs of calls, step by step, where the service is alone and nothing fails.
use realtime_order_inventory.Prelude.{ℕ, zero, suc, ◌≡◌, String, false}
use realtime_order_inventory.Errors.{Error, Result, ok, err}
use realtime_order_inventory.Exec.{
  World, Exec, direct, in_tx, Stmt, idle, after, ◌>>=◌, query, wrap, ignore, deferring_rollback,
}
use realtime_order_inventory.Exec.Envs.{quiet}

-- `later k c` is the number of the call that comes k after the call number c.
abbrev pub later : ℕ → ℕ → ℕ
later zero c = c
later (suc k) c = suc (later k c)

module _ {D V A B : Type 0} where
  pub bind_ok :
      (m : Exec D V A) (f : A → Exec D V B) (w : World D V) (a : A) (w' : World D V)
      {r : Result B × World D V}
      → m w ≡ (ok a, w')
      → f a w' ≡ r
      → (m >>= f) w ≡ r
  unfolding ◌>>=◌
  bind_ok m f w a w' p q = rw p q

  pub bind_err :
      (m : Exec D V A) (f : A → Exec D V B) (w : World D V) (x : Error) (w' : World D V)
      → m w ≡ (err x, w')
      → (m >>= f) w ≡ (err x, w')
  unfolding ◌>>=◌
  bind_err m f w x w' p = rw p

module _ {D V A : Type 0} where
  pub wrap_ok :
      (text : String) (m : Exec D V A) (w : World D V) (a : A) (w' : World D V)
      → m w ≡ (ok a, w')
      → wrap text m w ≡ (ok a, w')
  unfolding wrap
  wrap_ok text m w a w' p = rw p

  pub ignore_any :
      (m : Exec D V A) (w : World D V) (r : Result A) (w' : World D V)
      → m w ≡ (r, w')
      → ignore m w ≡ (ok tt, w')
  unfolding ignore
  ignore_any m w r w' p = rw p

  pub rollback_any :
      (m : Exec D V A) (w : World D V) (r : Result A) (w' : World D V)
      → m w ≡ (r, w')
      → deferring_rollback m w ≡ (r, record w' { tx = idle })
  unfolding deferring_rollback
  rollback_any m w r w' p = rw p

  module _ (ids : ℕ → String) (s : Stmt D A) (w : World D V) where
    pub query_direct :
        (a : A) (d : D)
        → s w.db ≡ ok (a, d)
        → query (quiet ids) direct s w ≡ (ok a, record w { db = d; calls = suc w.calls })
    unfolding query
    query_direct a d p = rw (p, after)

    pub query_in_tx :
        (a : A) (d : D)
        → w.tx.aborted ≡ false
        → s (w.tx.writes w.db) ≡ ok (a, d)
        → query (quiet ids) in_tx s w ≡ (
          ok a,
          record w {
            tx = record { aborted = w.tx.aborted; writes = λ x. after s (w.tx.writes x) };
            calls = suc w.calls;
          },
        )
    unfolding query
    query_in_tx a d h p = simp (h, p)
