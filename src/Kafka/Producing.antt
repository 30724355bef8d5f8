-- ===== src/Kafka/Producing.antt =====
-- What WriteMessages of pkg/kafka/producer.go has written when it returns.
use mathlib.Core.List.{append-nil, append_assoc}
use realtime_order_inventory.Prelude.{
  ℕ, suc, ◌<◌, ◌≡◌, refl, sym, ◌∙◌, ap, subst, String, none, some, List, [], ◌∷◌, ◌++◌, map, take,
  length, Option-cases, inl, inr, ◌⊎◌, arith,
}
use realtime_order_inventory.Errors.{Error, driver, Result, ok, err}
use realtime_order_inventory.Exec.{Env, World, Message, pure, write_message, advance}
use realtime_order_inventory.Exec.Runs.{bind_ok, bind_err}
use realtime_order_inventory.Kafka.TraceHeaders.{inject_trace_headers}
use realtime_order_inventory.Kafka.Producer.{write_messages}

module _ {D V : Type 0} (e : Env D V) (trace : Message → List (String × String)) where
  -- A message with the fields of its span.
  abbrev pub traced : Message → Message
  traced m = inject_trace_headers (trace m) m

  -- The first messages of a list were written in order, and no other; all of them exactly where there
  -- is no error.
  pub record IsPrefixWritten (ms : List Message) (w : World D V)
      (out : Result (Unit {0}) × World D V) : Type 0 where
    pub count : ℕ
    pub sent : out.1.sent ≡ w.sent ++ map traced (take count ms)
    pub complete :
        ((out.0 ≡ ok tt) × (count ≡ length ms))
        ⊎ ((x : Error) × ((out.0 ≡ err x) × (count < length ms)))

  one_written :
      (m : Message) (w : World D V)
      → e.fault w.calls ≡ none
      → write_message e m w ≡ (ok tt, record (advance e w) { sent = w.sent ++ m ∷ [] })
  unfolding write_message
  one_written m w h = rw h

  one_failed :
      (m : Message) (w : World D V) (text : String)
      → e.fault w.calls ≡ some text
      → write_message e m w ≡ (err (driver text), advance e w)
  unfolding write_message
  one_failed m w text h = rw h

  later_error :
      (out : Result (Unit {0})) (count size : ℕ)
      → ((out ≡ ok tt) × (count ≡ size)) ⊎ ((x : Error) × ((out ≡ err x) × (count < size)))
      → ((out ≡ ok tt) × (suc count ≡ suc size))
        ⊎ ((x : Error) × ((out ≡ err x) × (suc count < suc size)))
  later_error out count size (inl (done, same)) = inl (done, ap suc same)
  later_error out count size (inr (x, (failed, less))) = inr (x, (failed, omega arith))

  -- WriteMessages writes a prefix of its messages, in order and each with the fields of its span,
  -- whichever calls fail: all of them where it returns no error, and fewer where it returns one.
  pub written_prefix :
      (ms : List Message) (w : World D V) → IsPrefixWritten ms w (write_messages e trace ms w)
  unfolding write_messages pure advance
  written_prefix [] w = record {
    count = 0;
    sent = sym (append-nil w.sent);
    complete = inl (refl, refl);
  }
  written_prefix (m ∷ ms) w = elim (Option-cases (e.fault w.calls)) [
    | inl through ↦
        let w1 : World D V = record (advance e w) { sent = w.sent ++ traced m ∷ [] } in
        let rest = written_prefix ms w1 in
        let run =
          bind_ok (write_message e (traced m)) (λ _. write_messages e trace ms) w tt w1
            (one_written (traced m) w through) refl in
        subst (IsPrefixWritten (m ∷ ms) w) (sym run) (record {
          count = suc rest.count;
          sent = rest.sent ∙ append_assoc w.sent (traced m ∷ []) _;
          complete = later_error _ _ _ rest.complete;
        })
    | inr (text, failed) ↦
        let run =
          bind_err (write_message e (traced m)) (λ _. write_messages e trace ms) w (driver text)
            (advance e w) (one_failed (traced m) w text failed) in
        subst (IsPrefixWritten (m ∷ ms) w) (sym run) (record {
          count = 0;
          sent = sym (append-nil w.sent);
          complete = inr (driver text, (refl, omega arith));
        })
  ]
