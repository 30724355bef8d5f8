-- ===== src/Websocket/Upgrading.antt =====
-- Who gets a connection of internal/websocket/handler.go, with the wrappers of
-- cmd/websocket-service/main.go and without, and what the statistics count.
use realtime_order_inventory.Prelude.{
  ℕ, ◌+◌, ◌≡◌, ◌∙◌, String, Bool, true, false, ◌&&◌, List, [], ◌∷◌, ◌==◌, eq_iff, Bool-cases, inl,
  inr, subst, if◌then◌else◌, some_row, select, length, All, arith,
}
use realtime_order_inventory.Serving.Writer.{Request, connection, fresh, Connection}
use realtime_order_inventory.Serving.Middleware.{
  Counted, Span, status_writer, status_recorder, metrics, tracing,
}
use realtime_order_inventory.Websocket.Hub.{Client, Hub, connect, has_channel}
use realtime_order_inventory.Websocket.Handler.{
  Upgrader, handle_web_socket, increment, count_channels, count_clients, get_stats,
}

-- gorilla needs a Hijacker to take a connection over.
pub record NeedsHijacker (u : Upgrader) : Type 0 where
  pub refuses : (r : Request) → u.upgrades false r ≡ false

module _ (u : Upgrader) (id : String) (r : Request) (hub : Hub) where
  -- As cmd/websocket-service/main.go routes it.
  abbrev pub wrapped : Connection × (Counted × (Span × Hub))
  wrapped =
      metrics "websocket-service" r (tracing r (handle_web_socket u id r hub)) Connection connection
        fresh

  -- Without the wrappers.
  abbrev pub bare : Connection × Hub
  bare = handle_web_socket u id r hub Connection connection fresh

  -- Where gorilla needs a Hijacker, a request that it would upgrade gets no connection behind the
  -- wrappers for metrics and traces, and the hub stays as it is; without the wrappers the request
  -- becomes a client of the hub.
  pub never_connected :
      NeedsHijacker u → u.upgrades true r ≡ true → (wrapped.1.1.1 ≡ hub) × (bare.1 ≡ connect id hub)
  unfolding metrics tracing handle_web_socket status_writer status_recorder
  never_connected needs h = (rw (needs.refuses r), rw h)

-- How often a channel is counted.
abbrev pub count_of : String → List (String × ℕ) → ℕ
count_of ch [] = 0
count_of ch ((k, n) ∷ counts) = if k == ch then n else count_of ch counts

-- The channels of a client are the keys of a map.
abbrev pub Distinct : List String → Type 0
Distinct [] = Unit {0}
Distinct (ch ∷ chs) = (some_row (λ x. x == ch) chs ≡ false) × Distinct chs

abbrev pub one_if : Bool → ℕ
one_if true = 1
one_if false = 0

count-increment :
    (ch k : String) (counts : List (String × ℕ))
    → count_of k (increment ch counts) ≡ one_if (ch == k) + count_of k counts
unfolding increment
count-increment ch k [] = ground arith
count-increment ch k ((j, n) ∷ counts) =
    ground (arith, eq_iff j ch, eq_iff j k, eq_iff ch k, count-increment ch k counts)

count-channels :
    (k : String) (chs : List String) (counts : List (String × ℕ))
    → Distinct chs
    → count_of k (count_channels chs counts)
      ≡ one_if (some_row (λ x. x == k) chs) + count_of k counts
unfolding count_channels some_row
count-channels k [] counts h = omega arith
count-channels k (ch ∷ chs) counts h =
    let rest = count-channels k chs (increment ch counts) h.1 in
    let here = count-increment ch k counts in
    elim (Bool-cases (ch == k)) [
      | inl same ↦
          let e : ch ≡ k = (eq_iff ch k).0 same in
          let none_left : some_row (λ x. x == k) chs ≡ false =
            subst (λ y. some_row (λ x. x == y) chs ≡ false) e h.0 in
          ground arith
      | inr other ↦ ground arith
    ]

abbrev pub listens : String → Client → Bool
listens k c = c.registered && has_channel c k

count-clients :
    (k : String) (cs : List Client) (counts : List (String × ℕ))
    → All (λ c. Distinct c.channels) cs
    → count_of k (count_clients cs counts) ≡ length (select (listens k) cs) + count_of k counts
unfolding count_clients select has_channel
count-clients k [] counts h = omega arith
count-clients k (c ∷ cs) counts h = ground (
  arith,
  count-clients k cs counts h.1,
  count-clients k cs (count_channels c.channels counts) h.1,
  count-channels k c.channels counts h.0,
)

-- The statistics count for each channel the registered clients that listen to it, where the channels of
-- a client are distinct.
pub stats_count :
    (time : ℕ) (hub : Hub) (ch : String)
    → All (λ c. Distinct c.channels) hub.clients
    → count_of ch (get_stats time hub).channels ≡ length (select (listens ch) hub.clients)
unfolding get_stats
stats_count time hub ch h = count-clients ch hub.clients [] h ∙ omega arith
