-- ===== src/Redis/Reading.antt =====
-- Reads through Redis where it answers: an entry that is right when it is stored is right when it is
-- found, also where Redis forgets entries.
use realtime_order_inventory.Prelude.{
  ℕ, suc, ◌≡◌, refl, ◌∙◌, String, Option, none, some, List, ◌∷◌, map,
}
use realtime_order_inventory.Errors.{Result, ok, err}
use realtime_order_inventory.Exec.{
  Env, World, Store, direct, Stmt, after, value_of, attach, read, query,
}
use realtime_order_inventory.Redis
use realtime_order_inventory.Redis.{Cache, full_key, lookup, without, remove_all, decoded}

-- No call fails, no other connection writes, and what Redis still holds it held before.
pub record IsReliable {D V : Type 0} (e : Env D V) : Type 0 where
  pub no_fault : (n : ℕ) → e.fault n ≡ none
  pub alone : (n : ℕ) (d : D) → e.others n d ≡ d
  pub forgets :
      (n : ℕ) (s : Store V) (k : String) (v : V)
      → lookup k (e.evict n s) ≡ some v
      → lookup k s ≡ some v

module _ {D V : Type 0} (e : Env D V) (reliable : IsReliable e) where
  -- The world after a call that has no effect of its own.
  abbrev pub seen : World D V → World D V
  seen w = record w { store = e.evict w.calls w.store; calls = suc w.calls }

  pub query_reliable :
      {A : Type 0} (s : Stmt D A) (w : World D V)
      → query e direct s w ≡ (value_of (s w.db), record (seen w) { db = after s w.db })
  unfolding query
  query_reliable s w = rw (reliable.no_fault w.calls, reliable.alone w.calls w.db)

  pub get_reliable :
      {A : Type 0} (c : Cache) (decode : V → Option A) (k : String) (w : World D V)
      → Redis.get e c decode k w
        ≡ (ok (decoded decode (lookup (full_key c k) (seen w).store)), seen w)
  unfolding Redis.get
  get_reliable c decode k w = rw (reliable.no_fault w.calls, reliable.alone w.calls w.db)

  pub set_reliable :
      (c : Cache) (k : String) (v : V) (w : World D V)
      → Redis.set e c k v w ≡ (
        ok tt,
        record (seen w) { store = (full_key c k, v) ∷ without (full_key c k) (seen w).store },
      )
  unfolding Redis.set
  set_reliable c k v w = rw (reliable.no_fault w.calls, reliable.alone w.calls w.db)

  pub delete_reliable :
      (c : Cache) (ks : List String) (w : World D V)
      → Redis.delete e c ks w
        ≡ (ok tt, record (seen w) { store = remove_all (map (full_key c) ks) (seen w).store })
  unfolding Redis.delete
  delete_reliable c ks w = rw (reliable.no_fault w.calls, reliable.alone w.calls w.db)

  attach-value : {A : Type 0} (d : D) (r : Result A) → value_of (attach d r) ≡ r
  attach-value d (ok a) = refl
  attach-value d (err x) = refl

  attach-state :
      {A : Type 0} (s : Stmt D A) (d : D) (r : Result A) → s d ≡ attach d r → after s d ≡ d
  attach-state s d (ok a) h = rw h
  attach-state s d (err x) h = rw h

  -- A SELECT gives its rows and changes nothing.
  pub select_reliable :
      {A : Type 0} (r : D → Result A) (w : World D V) → query e direct (read r) w ≡ (r w.db, seen w)
  unfolding read
  select_reliable r w =
      query_reliable (read r) w
      ∙ rw (attach-value w.db (r w.db), attach-state (read r) w.db (r w.db) refl)
