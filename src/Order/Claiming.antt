-- ===== src/Order/Claiming.antt =====
-- What ClaimBatch of the outbox takes: pending events that nobody else holds, the oldest first, at
-- most as many as the limit, and none of them again.
use realtime_order_inventory.Prelude.{
  ℕ, zero, suc, ◌≡◌, refl, String, Bool, true, false, not, List, [], ◌∷◌, map, if◌then◌else◌,
  select, update, take, All, arith,
}
use realtime_order_inventory.Errors.{ok}
use realtime_order_inventory.Exec.{
  World, pure, ◌>>=◌, wrap, deferring_rollback, query, read, begin, commit, settle, idle,
}
use realtime_order_inventory.Exec.Envs.{quiet}
use realtime_order_inventory.Exec.Runs.{later}
use realtime_order_inventory.Order.Domain.{OutboxEventRow, Db, Cached, Host}
use realtime_order_inventory.Order.Outbox.{
  claim_rows, claim_batch, row_to_event, is_pending, insert_by_age, oldest_first, pending_rows,
  unlocked, is_in, claim,
}

abbrev IsUnlocked : (String → Bool) → OutboxEventRow → Type 0
IsUnlocked locked r = locked r.id ≡ false

module _ (timestamp : String → ℕ) where
  module _ (P : OutboxEventRow → Type 0) where
    All-insert :
        (r : OutboxEventRow) (rs : List OutboxEventRow)
        → P r
        → All P rs
        → All P (insert_by_age timestamp r rs)
    unfolding insert_by_age
    All-insert r [] p a = (p, tt)
    All-insert r (x ∷ xs) p a = ground (arith, All-insert r xs p a.1)

    All-oldest : (rs : List OutboxEventRow) → All P rs → All P (oldest_first timestamp rs)
    unfolding oldest_first
    All-oldest [] a = tt
    All-oldest (r ∷ rs) a = All-insert r _ a.0 (All-oldest rs a.1)

    All-take : (n : ℕ) (rs : List OutboxEventRow) → All P rs → All P (take n rs)
    All-take zero rs a = tt
    All-take (suc n) [] a = tt
    All-take (suc n) (r ∷ rs) a = (a.0, All-take n rs a.1)

    All-select :
        (p : OutboxEventRow → Bool) (rs : List OutboxEventRow) → All P rs → All P (select p rs)
    unfolding select
    All-select p [] a = tt
    All-select p (r ∷ rs) a = ground (arith, All-select p rs a.1)

  All-selected :
      (p : OutboxEventRow → Bool) (rs : List OutboxEventRow) → All (λ r. p r ≡ true) (select p rs)
  unfolding select
  All-selected p [] = tt
  All-selected p (r ∷ rs) = ground (arith, All-selected p rs)

  unlocked_rows :
      (locked : String → Bool) (rs : List OutboxEventRow)
      → All (IsUnlocked locked) (unlocked locked rs)
  unfolding unlocked select
  unlocked_rows locked [] = tt
  unlocked_rows locked (r ∷ rs) = ground (arith, unlocked_rows locked rs)

module _ (taken : List String) where
  abbrev IsNotTaken : OutboxEventRow → Type 0
  IsNotTaken r = is_in taken r.id ≡ false

  claimed_row :
      (r : OutboxEventRow) (b : Bool)
      → is_in taken r.id ≡ b
      → let row : OutboxEventRow = if b then record r { status = "CLAIMED" } else r in
        is_pending row ≡ true → IsNotTaken row
  unfolding is_pending
  claimed_row r true h p = cc
  claimed_row r false h p = h

  claimed_rows :
      (rows : List OutboxEventRow)
      → All
          (λ r. is_pending r ≡ true → IsNotTaken r)
          (update (λ r. is_in taken r.id) (λ r. record r { status = "CLAIMED" }) rows)
  unfolding update
  claimed_rows [] = tt
  claimed_rows (r ∷ rs) = (claimed_row r (is_in taken r.id) refl, claimed_rows rs)

  pending_of :
      (rows : List OutboxEventRow)
      → All (λ r. is_pending r ≡ true → IsNotTaken r) rows
      → All IsNotTaken (select is_pending rows)
  unfolding select
  pending_of [] a = tt
  pending_of (r ∷ rs) a = ground (arith, pending_of rs a.1, a.0)

  later-IsNotTaken :
      (timestamp : String → ℕ) (locked : String → Bool) (limit : ℕ) (rows : List OutboxEventRow)
      → All (λ r. is_pending r ≡ true → IsNotTaken r) rows
      → All IsNotTaken (pending_rows timestamp limit (unlocked locked rows))
  unfolding pending_rows unlocked
  later-IsNotTaken timestamp locked limit rows a = All-take timestamp IsNotTaken limit _ (
      All-oldest timestamp IsNotTaken _ (
        pending_of _ (
          All-select timestamp (λ r. is_pending r ≡ true → IsNotTaken r) (λ r. not (locked r.id))
            rows a)))

nothing_taken : (rows : List OutboxEventRow) → All (λ r. is_pending r ≡ true → IsNotTaken [] r) rows
unfolding is_in
nothing_taken [] = tt
nothing_taken (r ∷ rs) = (λ p. refl, nothing_taken rs)

module _ {F : Type 0} (h : Host F) (ids : ℕ → String) where
  abbrev pub ids_of : List OutboxEventRow → List String
  ids_of rows = map (λ r. r.id) rows

  claim_rows_run :
      (found : List OutboxEventRow) (w : World (Db F) (Cached F))
      → w.tx ≡ idle
      → let out = claim_rows h (quiet ids) found w in
        (out.0 ≡ ok (map (row_to_event h) found))
        × All (λ r. is_pending r ≡ true → IsNotTaken (ids_of found) r) out.1.db.outbox_events
  unfolding claim_rows pure query ◌>>=◌ wrap commit settle claim
  claim_rows_run [] w t = (refl, nothing_taken w.db.outbox_events)
  claim_rows_run (r ∷ rs) w t = (simp t, simp t (claimed_rows (ids_of (r ∷ rs)) w.db.outbox_events))

  pub claim_batch_once :
      (locked locked' : String → Bool) (limit limit' : ℕ) (w : World (Db F) (Cached F))
      → let found = pending_rows h.timestamp limit (unlocked locked w.db.outbox_events) in
        let out = claim_batch h (quiet ids) locked limit w in
        (out.0 ≡ ok (map (row_to_event h) found))
        × All
            (λ r. is_in (ids_of found) r.id ≡ false)
            (pending_rows h.timestamp limit' (unlocked locked' out.1.db.outbox_events))
  unfolding claim_batch begin ◌>>=◌ wrap deferring_rollback query read
  claim_batch_once locked locked' limit limit' w =
      let found = pending_rows h.timestamp limit (unlocked locked w.db.outbox_events) in
      let (result, rest) =
        claim_rows_run found (record w { tx = idle; calls = later 2 w.calls }) refl in
      (result, later-IsNotTaken (ids_of found) h.timestamp locked' limit' _ rest)
