-- ===== src/Websocket/Safety.antt =====
-- What the hub of pkg/websocket keeps: a client of its map has an open channel, no buffer is over its
-- capacity, and the hub itself neither sends on nor closes a closed channel.
use realtime_order_inventory.Prelude.{
  ◌∙◌, suc, ◌≤◌, ◌≡◌, refl, String, true, false, List, [], ◌∷◌, ◌++◌, ◌==◌, if◌then◌else◌, length,
  All, All-append, arith,
}
use realtime_order_inventory.Websocket.Hub.{
  Client, Hub, Change, send_capacity, can_send, enqueue, drop_client, count_closed, keep,
  unregister_client, broadcast_client, broadcast_channel_client, over_clients, total, apply,
  connect, unregister, broadcast, broadcast_to_channel, take_message, write_pump, Event, connected,
  unregistered, broadcasted, sent_to_channel, written, step, steps,
}

pub record IsValidClient (c : Client) : Type 0 where
  pub open_ : c.registered ≡ true → c.closed ≡ false
  pub bounded : length c.send ≤ send_capacity

abbrev pub IsValid : Hub → Type 0
IsValid h = All IsValidClient h.clients

length-snoc : {A : Type 0} (xs : List A) (x : A) → length (xs ++ x ∷ []) ≡ suc (length xs)
length-snoc [] x = refl
length-snoc (y ∷ xs) x = rw (length-snoc xs x)

-- An operation on one client that keeps it valid and does not panic.
pub record IsSafe (f : Client → Change) : Type 0 where
  pub valid : (c : Client) → IsValidClient c → IsValidClient (f c).client
  pub calm : (c : Client) → IsValidClient c → (f c).panics ≡ 0

over_clients-IsValid :
    (f : Client → Change) (cs : List Client)
    → IsSafe f
    → All IsValidClient cs
    → All IsValidClient (over_clients f cs)
unfolding over_clients
over_clients-IsValid f [] s v = tt
over_clients-IsValid f (c ∷ cs) s v = (s.valid c v.0, over_clients-IsValid f cs s v.1)

total-IsSafe :
    (f : Client → Change) (cs : List Client)
    → IsSafe f
    → All IsValidClient cs
    → total (λ x. x.panics) f cs ≡ 0
unfolding total
total-IsSafe f [] s v = refl
total-IsSafe f (c ∷ cs) s v = ground (arith, s.calm c v.0, total-IsSafe f cs s v.1)

abbrev pub Calmly : Hub → Hub → Type 0
Calmly h h' = IsValid h' × (h'.panics ≡ h.panics)

apply-Calmly : (f : Client → Change) (h : Hub) → IsSafe f → IsValid h → Calmly h (apply f h)
unfolding apply
apply-Calmly f h s v =
    (over_clients-IsValid f h.clients s v, ground (arith, total-IsSafe f h.clients s v))

unregister_client-IsSafe : IsSafe unregister_client
unfolding unregister_client drop_client count_closed
unregister_client-IsSafe = record {
  valid = λ c v. ground (arith, v.open_, v.bounded);
  calm = λ c v. ground (arith, v.open_);
}

broadcast_client-IsSafe : (m : String) → IsSafe (broadcast_client m)
unfolding broadcast_client drop_client count_closed can_send enqueue keep
broadcast_client-IsSafe m = record {
  valid = λ c v. ground (arith, v.open_, v.bounded, length-snoc c.send m);
  calm = λ c v. ground (arith, v.open_);
}

broadcast_channel_client-IsSafe : (channel m : String) → IsSafe (broadcast_channel_client channel m)
unfolding broadcast_channel_client unregister_client drop_client count_closed can_send enqueue keep
broadcast_channel_client-IsSafe channel m = record {
  valid = λ c v. ground (arith, v.open_, v.bounded, length-snoc c.send m);
  calm = λ c v. ground (arith, v.open_);
}

only :
    (id : String) (f : Client → Change)
    → IsSafe f
    → IsSafe (λ c. if c.id == id then f c else keep c)
unfolding keep
only id f s = record {
  valid = λ c v. ground (arith, s.valid c v);
  calm = λ c v. ground (arith, s.calm c v);
}

taken-IsValid :
    (c : Client) (send : List String)
    → IsValidClient c
    → length send ≤ send_capacity
    → IsValidClient (elim send [ [] ↦ c | m ∷ rest ↦ record c { send = rest } ])
taken-IsValid c [] v b = v
taken-IsValid c (m ∷ rest) v b = record { open_ = v.open_; bounded = omega arith }

write_pump-IsSafe : (id : String) → IsSafe (λ c. keep (if c.id == id then take_message c else c))
unfolding keep take_message
write_pump-IsSafe id = record {
  valid = λ c v. ground (arith, taken-IsValid c c.send v v.bounded);
  calm = λ c v. refl;
}

step-Calmly : (ev : Event) (h : Hub) → IsValid h → Calmly h (step ev h)
unfolding step connect unregister broadcast broadcast_to_channel write_pump
step-Calmly (connected id) h v = (
  All-append IsValidClient h.clients _ v (record { open_ = λ _. refl; bounded = omega arith }, tt),
  refl,
)
step-Calmly (unregistered id) h v =
    apply-Calmly _ h (only id unregister_client unregister_client-IsSafe) v
step-Calmly (broadcasted m) h v = apply-Calmly _ h (broadcast_client-IsSafe m) v
step-Calmly (sent_to_channel channel m) h v =
    apply-Calmly _ h (broadcast_channel_client-IsSafe channel m) v
step-Calmly (written id) h v = apply-Calmly _ h (write_pump-IsSafe id) v

-- However clients connect, leave and read, and messages are broadcast, one step at a time, every
-- client of the hub's map keeps an open channel, no buffer gets longer than 256, and no step panics.
pub hub_safe :
    (evs : List Event) (h : Hub)
    → IsValid h
    → IsValid (steps evs h) × ((steps evs h).panics ≡ h.panics)
unfolding steps
hub_safe [] h v = (v, refl)
hub_safe (ev ∷ evs) h v =
    let (valid, calm) = step-Calmly ev h v in
    let (valid', calm') = hub_safe evs (step ev h) valid in (valid', calm' ∙ calm)
