-- ===== src/Exec/Atomic.antt =====
-- Calls that fail have left the database as it was: one rule for each way to build a call, where no
-- other connection writes.
use realtime_order_inventory.Prelude.{
  ◌≡◌, Bool, true, false, String, Option, none, some, ◌∙◌, if◌then◌else◌,
}
use realtime_order_inventory.Errors.{Error, Result, ok, err}
use realtime_order_inventory.Exec.{
  Env, World, Exec, in_tx, direct, Stmt, pure, lift, ◌>>=◌, wrap_result, wrap, deferring_rollback,
  advance, state_of, attach, read, on_fault, run_in_tx, run_stmt, query, begin, settle, commit,
  new_id, now,
}
use realtime_order_inventory.Exec.Keeps.{Keeps}

-- The committed data is `d`.
abbrev pub Stands : {D V : Type 0} → D → World D V → Type 0
Stands d w = w.db ≡ d

-- No other connection writes.
pub record IsAlone {D V : Type 0} (e : Env D V) : Type 0 where
  pub others : (n : _) (d : D) → e.others n d ≡ d

abbrev pub OnError : {A : Type 0} → Result A → Type 0 → Type 0
OnError (ok a) P = Unit {0}
OnError (err x) P = P

-- A call that fails has left the data as it was.
pub record IsAtomic {D V A : Type 0} (d : D) (m : Exec D V A) : Type 0 where
  pub at : (w : World D V) → w.db ≡ d → OnError (m w).0 ((m w).1.db ≡ d)

OnError-always : {A : Type 0} (P : Type 0) (r : Result A) → P → OnError r P
OnError-always P (ok a) p = tt
OnError-always P (err x) p = p

OnError-wrap :
    {A : Type 0} (P : Type 0) (t : String) (r : Result A)
    → OnError r P
    → OnError (wrap_result t r) P
OnError-wrap P t (ok a) p = tt
OnError-wrap P t (err x) p = p

pub OnError-err : {A : Type 0} (P : Type 0) (r : Result A) (x : Error) → r ≡ err x → OnError r P → P
OnError-err P (ok a) x e p = cc
OnError-err P (err y) x e p = p

returned_value :
    {D V A B : Type 0} (d : D) (r : Result A) (f : A → B) (w : World D V)
    → OnError r (Stands d w)
    → OnError ((lift r >>= λ a. pure (f a)) w).0 (((lift r >>= λ a. pure (f a)) w).1.db ≡ d)
unfolding ◌>>=◌
returned_value d (ok a) f w k = tt
returned_value d (err x) f w k = k

module _ {D V : Type 0} {d : D} where
  pub IsAtomic-of : {A : Type 0} (m : Exec D V A) → Keeps (Stands d) m → IsAtomic d m
  IsAtomic-of m k = record { at = λ w h. OnError-always _ (m w).0 (k.at w h) }

  pub IsAtomic-wrap :
      {A : Type 0} (t : String) (m : Exec D V A) → IsAtomic d m → IsAtomic d (wrap t m)
  unfolding wrap
  IsAtomic-wrap t m k = record { at = λ w h. OnError-wrap _ t (m w).0 (k.at w h) }

  pub IsAtomic-rollback :
      {A : Type 0} (m : Exec D V A) → IsAtomic d m → IsAtomic d (deferring_rollback m)
  unfolding deferring_rollback
  IsAtomic-rollback m k = record { at = k.at }

  pub IsAtomic-if :
      {A : Type 0} (b : Bool) (m n : Exec D V A)
      → IsAtomic d m
      → IsAtomic d n
      → IsAtomic d (if b then m else n)
  IsAtomic-if true m n k l = k
  IsAtomic-if false m n k l = l

  module _ {A B : Type 0} where
    continue-IsAtomic :
        (r : Result A) (f : A → Exec D V B) (w : World D V)
        → ((a : A) → IsAtomic d (f a))
        → w.db ≡ d
        → OnError ((lift r >>= f) w).0 (((lift r >>= f) w).1.db ≡ d)
    unfolding ◌>>=◌
    continue-IsAtomic (ok a) f w k h = (k a).at w h
    continue-IsAtomic (err y) f w k h = h

    pub IsAtomic-bind :
        (m : Exec D V A) (f : A → Exec D V B)
        → Keeps (Stands d) m
        → ((a : A) → IsAtomic d (f a))
        → IsAtomic d (m >>= f)
    unfolding ◌>>=◌
    IsAtomic-bind m f k l = record { at = λ w h. continue-IsAtomic (m w).0 f (m w).1 l (k.at w h) }

    -- What follows a call may be a value only.
    pub IsAtomic-then :
        (m : Exec D V A) (f : A → B) → IsAtomic d m → IsAtomic d (m >>= λ a. pure (f a))
    unfolding ◌>>=◌
    IsAtomic-then m f k = record { at = λ w h. returned_value _ (m w).0 f (m w).1 (k.at w h) }

pub on_fault-elim :
    {D V A : Type 0} (P : Result A × World D V → Type 0) (f : Option String)
    (through : Result A × World D V) (failed : String → Result A × World D V)
    → P through
    → ((text : String) → P (failed text))
    → P (on_fault f through failed)
on_fault-elim P none through failed p q = p
on_fault-elim P (some text) through failed p q = q text

module _ {D V A : Type 0} {d : D} where
  run_in_tx-Stands :
      (s : Stmt D A) (r : Result (A × D)) (w : World D V) → Stands d w → Stands d (run_in_tx s r w)
  unfolding run_in_tx
  run_in_tx-Stands s (ok a) w h = h
  run_in_tx-Stands s (err x) w h = h

  stmt-Stands :
      (s : Stmt D A) (aborted : Bool) (r : Result A) (x : Error) (v w : World D V)
      → Stands d v
      → Stands d w
      → let out : Result A × World D V = if aborted then (err x, v) else (r, w) in Stands d out.1
  stmt-Stands s true r x v w h k = h
  stmt-Stands s false r x v w h k = k

settle-IsAtomic :
    {D V : Type 0} {d : D} (aborted : Bool) (w : World D V)
    → w.db ≡ d
    → OnError (settle aborted w).0 ((settle aborted w).1.db ≡ d)
unfolding settle
settle-IsAtomic true w h = h
settle-IsAtomic false w h = tt

selected : {D A : Type 0} {d : D} (d' : D) (r : Result A) → d' ≡ d → state_of d' (attach d' r) ≡ d
selected d' (ok a) h = h
selected d' (err x) h = h

module _ {D V : Type 0} {d : D} (e : Env D V) (alone : IsAlone e) where
  still : (w : World D V) → w.db ≡ d → e.others w.calls w.db ≡ d
  still w h = alone.others w.calls w.db ∙ h

  pub read_in_tx : {A : Type 0} (s : Stmt D A) → Keeps (Stands d) (query e in_tx s)
  unfolding query advance run_stmt
  read_in_tx s = record {
    at = λ w h.
        on_fault-elim (λ o. Stands d o.1) (e.fault w.calls) _ _
          (stmt-Stands s w.tx.aborted _ _ _ _ (still w h) (
            run_in_tx-Stands s (s (w.tx.writes (e.others w.calls w.db))) (advance e w) (still w h)))
          λ text. still w h;
  }

  pub read_direct : {A : Type 0} (r : D → Result A) → Keeps (Stands d) (query e direct (read r))
  unfolding query advance run_stmt read
  read_direct r = record {
    at = λ w h.
        on_fault-elim (λ o. Stands d o.1) (e.fault w.calls) _ _
          (selected _ (r (e.others w.calls w.db)) (still w h)) λ text. still w h;
  }

  pub begin-Stands : Keeps (Stands d) (begin e)
  unfolding begin advance
  begin-Stands = record {
    at = λ w h.
        on_fault-elim (λ o. Stands d o.1) (e.fault w.calls) _ _ (still w h) λ text. still w h;
  }

  pub commit-IsAtomic : IsAtomic d (commit e)
  unfolding commit advance settle
  commit-IsAtomic = record {
    at = λ w h.
        on_fault-elim (λ o. OnError o.0 (o.1.db ≡ d)) (e.fault w.calls) _ _
          (settle-IsAtomic w.tx.aborted (advance e w) (still w h)) λ text. still w h;
  }

  pub new_id-Stands : Keeps (Stands d) (new_id e)
  unfolding new_id
  new_id-Stands = record { at = λ w h. h }

  pub now-Stands : Keeps (Stands d) (now e)
  unfolding now
  now-Stands = record { at = λ w h. h }
