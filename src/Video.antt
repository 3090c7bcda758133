-- ===== src/Video.antt =====
-- services/transport/video_manager.{hpp,cxx}: `VideoManager`. Its callbacks and the rounds of the
-- relay thread as functions; how the threads interleave is in Video/Threads.
pub mod Threads
pub mod Relay
pub mod Roles
use Prim.Native.String.{◌++◌ as ◌<>◌}
use aqua_regulator_server.Base.{
  ℕ, String, Bool, true, false, Option, none, some, List, [], ◌∷◌, ◌++◌, Bytes, codes, drop,
  is_empty, ◌&&◌, not, ◌==◌, if◌then◌else◌,
}
use aqua_regulator_server.Base.Decimal.{to_string}
use aqua_regulator_server.Monitor.{update}
use aqua_regulator_server.Platform.{Platform}
use aqua_regulator_server.World.{World, send, Action, pure, call, record_call, for_each}

pub record VideoPacket : Type 0 where
  pub payload : Bytes
  pub timestamp : ℕ

pub record VideoClient : Type 0 where
  pub id : ℕ
  pub is_publisher : Bool

-- The members of `VideoManager`. `clients` is an association list, one entry to an id, in an order
-- that no theorem uses; `monitored` says that `healthMonitor_` is not null.
pub record Video (E W : Type 0) : Type 0 where
  pub world : World E W
  pub clients : List VideoClient
  pub queue : List VideoPacket
  pub running : Bool
  pub monitored : Bool

-- clients_.find(id)
unfoldable pub find_client : ℕ → List VideoClient → Option VideoClient
find_client id [] = none
find_client id (c ∷ cs) = if c.id == id then some c else find_client id cs

-- clients_[client.id] = client
unfoldable pub put_client : VideoClient → List VideoClient → List VideoClient
put_client client [] = client ∷ []
put_client client (c ∷ cs) = if c.id == client.id then client ∷ cs else c ∷ put_client client cs

-- clients_.erase(id)
unfoldable pub erase_client : ℕ → List VideoClient → List VideoClient
erase_client id [] = []
erase_client id (c ∷ cs) = if c.id == id then cs else c ∷ erase_client id cs

-- Equality of byte strings, and `payload.rfind(prefix, 0) == 0`.
unfoldable pub bytes_eq : Bytes → Bytes → Bool
bytes_eq [] [] = true
bytes_eq (a ∷ as') (b ∷ bs) = a == b && bytes_eq as' bs
bytes_eq _ _ = false

unfoldable pub starts_with : Bytes → Bytes → Bool
starts_with [] payload = true
starts_with (a ∷ as') (b ∷ bs) = a == b && starts_with as' bs
starts_with (a ∷ as') [] = false

module _ {E W J : Type 0} (lib : Platform E W J) where
  -- if (healthMonitor_) healthMonitor_->update("video_manager", healthy, detail);
  unfoldable pub report : Bool → String → Video E W → Video E W
  report healthy detail v =
      if v.monitored
      then record v { world = (update lib "video_manager" healthy detail v.world).1 }
      else v

  -- `start`. The relay thread begins with `running` true.
  unfoldable pub start : ℕ → Video E W → Bool × Video E W
  start port v =
      let (started, w) = call (lib.server.start "" port) v.world in
      if started
      then (
        true,
        report true ("Listening on port " <> to_string port)
            (record v { world = w; running = true }),
      )
      else (false, report false "Start failed" (record v { world = w }))

  unfoldable pub on_accept : ℕ → Video E W → Video E W
  on_accept id v =
      report true ("Client connected: " <> to_string id)
        (record v { clients = put_client (record { id = id; is_publisher = false }) v.clients })

  unfoldable pub on_close : ℕ → Video E W → Video E W
  on_close id v =
      report true ("Client disconnected: " <> to_string id)
        (record v { clients = erase_client id v.clients })

  -- A role: an unknown connection has none.
  unfoldable pub set_role : ℕ → Bytes → Video E W → Video E W
  set_role id role v = elim (find_client id v.clients) [
    | none ↦ v
    | some c ↦ record v {
      clients =
          put_client (record c { is_publisher = bytes_eq role (codes "PUBLISHER") }) v.clients;
    }
  ]

  -- it != end && !it->second.isPublisher
  unfoldable pub is_subscriber : ℕ → List VideoClient → Bool
  is_subscriber id clients = elim (find_client id clients) [
    | none ↦ false
    | some c ↦ not c.is_publisher
  ]

  unfoldable pub enqueue : Bytes → Video E W → Video E W
  enqueue payload v =
      let (now, w) = call lib.clock.steady_now v.world in
      record v {
        world = w;
        queue = v.queue ++ (record { payload = payload; timestamp = now } ∷ []);
      }

  unfoldable pub on_receive : ℕ → Bytes → Video E W → Video E W
  on_receive id payload v =
      if is_empty payload
      then v
      else if starts_with (codes "ROLE:") payload
      then set_role id (drop 5 payload) v
      else if is_subscriber id v.clients
      then v
      else enqueue payload v

  -- One packet to every client that is not a publisher.
  unfoldable pub broadcast : VideoPacket → List VideoClient → Action E W (Unit {0})
  broadcast pkt =
      for_each (λ client.
        if client.is_publisher then pure tt else record_call (send client.id pkt.payload))

  -- A round of `relayThreadFunc` behind the wait: `none` if the loop ends.
  unfoldable pub relay : Video E W → Option (Video E W)
  relay v =
      if v.running
      then elim v.queue [
        | [] ↦ some v
        | pkt ∷ rest ↦ some (
            report true "Video packet broadcast"
              (record v { queue = rest; world = (broadcast pkt v.clients v.world).1 }))
      ]
      else none
