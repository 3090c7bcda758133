-- ===== src/Video/Roles.antt =====
-- services/transport/video_manager.cxx: who may push video, and who gets it.
use aqua_regulator_server.Base.{
  ℕ, ◌≡◌, ◌↔◌, refl, ap, true, false, some, List, [], ◌∷◌, ◌++◌, append_assoc, append-nil, map,
  Bytes, codes, ◌==◌, if◌then◌else◌, arith,
}
use aqua_regulator_server.Monitor.{update}
use aqua_regulator_server.Platform.{Platform}
use aqua_regulator_server.Video.{
  VideoPacket, VideoClient, Video, find_client, put_client, bytes_eq, starts_with, report, set_role,
  is_subscriber, on_receive, broadcast, relay,
}
use aqua_regulator_server.World.{World, Call, send}

bytes_eq_refl : (a : Bytes) → bytes_eq a a ≡ true
unfolding bytes_eq
bytes_eq_refl [] = refl
bytes_eq_refl (x ∷ a) = ground (arith, bytes_eq_refl a)

bytes_eq→eq : (a b : Bytes) → bytes_eq a b ≡ true → a ≡ b
unfolding bytes_eq
bytes_eq→eq [] [] h = refl
bytes_eq→eq [] (y ∷ b) h = cc
bytes_eq→eq (x ∷ a) [] h = cc
bytes_eq→eq (x ∷ a) (y ∷ b) h = ground (arith, bytes_eq→eq a b)

find_client-id :
    (id : ℕ) (cs : List VideoClient) (c : VideoClient) → find_client id cs ≡ some c → c.id ≡ id
unfolding find_client
find_client-id id [] c h = cc
find_client-id id (x ∷ cs) c h = ground (arith, find_client-id id cs c)

find_client-put_client :
    (c : VideoClient) (cs : List VideoClient) (id : ℕ)
    → find_client id (put_client c cs) ≡ (if c.id == id then some c else find_client id cs)
unfolding find_client put_client
find_client-put_client c [] id = refl
find_client-put_client c (x ∷ cs) id = ground (arith, find_client-put_client c cs id)

module _ {E W J : Type 0} (lib : Platform E W J) where
  -- A connected client that declares a role may push video afterwards exactly if the bytes behind
  -- `ROLE:` are those of `PUBLISHER`, without a newline or anything else behind them.
  pub on_receive_role :
      (id : ℕ) (role : Bytes) (v : Video E W) (c : VideoClient)
      → find_client id v.clients ≡ some c
      → (is_subscriber lib id (on_receive lib id (codes "ROLE:" ++ role) v).clients ≡ false)
        ↔ (role ≡ codes "PUBLISHER")
  unfolding on_receive set_role is_subscriber starts_with codes
  on_receive_role id role v c known =
      let c' : VideoClient = record c { is_publisher = bytes_eq role (codes "PUBLISHER") } in
      let found = find_client-put_client c' v.clients id in
      let same = find_client-id id v.clients c known in
      let listed : find_client id (put_client c' v.clients) ≡ some c' = ground (arith, found) in
      (
        λ pushes. bytes_eq→eq role (codes "PUBLISHER") (ground (arith, listed)),
        λ e. ground (
          arith,
          listed,
          bytes_eq_refl (codes "PUBLISHER"),
          ap (λ (r : Bytes). bytes_eq r (codes "PUBLISHER")) e,
        ),
      )

  -- Those that get a packet.
  abbrev pub receivers : List VideoClient → List VideoClient
  receivers [] = []
  receivers (c ∷ cs) = if c.is_publisher then receivers cs else c ∷ receivers cs

  abbrev pub to_clients : List VideoClient → Bytes → List Call
  to_clients cs payload = map (λ (c : VideoClient). send c.id payload) cs

  broadcast_lem :
      (pkt : VideoPacket) (cs : List VideoClient) (w : World E W)
      → (broadcast lib pkt cs w).1.calls ≡ w.calls ++ to_clients (receivers cs) pkt.payload
  unfolding broadcast
  broadcast_lem pkt [] w = rw append-nil
  broadcast_lem pkt (c ∷ cs) w = ground (
    arith,
    broadcast_lem pkt cs w,
    broadcast_lem pkt cs (record w { calls = w.calls ++ (send c.id pkt.payload ∷ []) }),
    append_assoc w.calls (send c.id pkt.payload ∷ []) (to_clients (receivers cs) pkt.payload),
  )

  -- While the relay is running, a round of its thread with a packet in the queue sends the front
  -- packet once to every client that is not a publisher, in the order of the table, and nothing
  -- else, and leaves the rest of the queue and the clients.
  pub relay_broadcast :
      (pkt : VideoPacket) (rest : List VideoPacket) (v : Video E W)
      → v.running ≡ true
      → v.queue ≡ pkt ∷ rest
      → (v' : Video E W) × (relay lib v ≡ some v')
        × (v'.world.calls ≡ v.world.calls ++ to_clients (receivers v.clients) pkt.payload)
        × (v'.queue ≡ rest)
        × (v'.clients ≡ v.clients)
  unfolding relay report update
  relay_broadcast pkt rest v on full =
      let sent = record v { queue = rest; world = (broadcast lib pkt v.clients v.world).1 } in
      (
        report lib true "Video packet broadcast" sent,
        ground arith,
        ground (arith, broadcast_lem pkt v.clients v.world),
        ground arith,
        ground arith,
      )
