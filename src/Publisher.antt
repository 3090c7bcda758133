-- ===== src/Publisher.antt =====
-- transport/tcp_data_sender.hpp: `TelemetryPublisher`.
pub mod Wire
pub mod Delivery
pub mod Connections
pub mod Streams
use Prim.Native.String.{◌++◌ as ◌<>◌}
use aqua_regulator_server.Base.{
  ℕ, ◌/◌, ◌%◌, ◌^◌, Bool, true, false, Option, none, some, List, [], ◌∷◌, ◌++◌, Bytes, length,
  if◌then◌else◌,
}
use aqua_regulator_server.Base.Decimal.{to_string}
use aqua_regulator_server.Config.{PublisherConfig}
use aqua_regulator_server.Domain.{TelemetryFrame, frame_to_json}
use aqua_regulator_server.Monitor.{update}
use aqua_regulator_server.Network
use aqua_regulator_server.Platform.{Platform}
use aqua_regulator_server.Router.{Server, feed, has_subscribers}
use aqua_regulator_server.World.{
  send, Action, pure, call, gets, record_call, for_each, bind, ◌>>=◌, ◌>>◌,
}

-- The bytes of `htonl(n)` in memory: the highest first.
unfoldable pub htonl : ℕ → Bytes
htonl n = n / 2 ^ 24 % 256 ∷ n / 2 ^ 16 % 256 ∷ n / 2 ^ 8 % 256 ∷ n % 256 ∷ []

-- The packet of a payload: `static_cast<uint32_t>` of its size in four bytes, and the payload.
unfoldable pub packet : Bytes → Bytes
unfolding htonl
packet payload = htonl (length payload % 2 ^ 32) ++ payload

module _ {E W J : Type 0} (lib : Platform E W J) where
  open lib use {json, server}

  -- `start`; the two setters before it only configure the library.
  unfoldable pub start : PublisherConfig → Action E W Bool
  start config = do
    started ← call (server.start config.bind_address config.port)
    if started
        then (do update lib "telemetry_publisher" true "Server listening"; pure true)
        else pure false

  -- `stop`, behind `server_->Stop()`.
  unfoldable pub stop : Action E W (Unit {0})
  stop = update lib "telemetry_publisher" false "Server stopped"

  unfoldable pub broadcast : Bytes → Action E W (Unit {0})
  broadcast buffer = Network.for_each_connection (λ id. record_call (send id buffer))

  unfoldable pub publish : TelemetryFrame W → Action E W (Unit {0})
  publish frame = do
    subscribed ← gets (has_subscribers lib)
    if subscribed
        then (do
          broadcast (packet (json.dump (frame_to_json json frame)))
          update lib "telemetry_publisher" true "Frame delivered to clients")
        else pure tt

  -- `OnAccept`, with the snapshot provider that is set at the time.
  unfoldable pub on_accept :
      Option (Action E W (List (TelemetryFrame W))) → ℕ → Action E W (Unit {0})
  on_accept provider id = do
    Network.on_accept id
    update lib "telemetry_publisher" true ("Client connected: " <> to_string id)
    elim provider [ none ↦ pure tt | some frames ↦ bind frames (for_each publish) ]

  unfoldable pub on_close : ℕ → Action E W (Unit {0})
  on_close id = do
    update lib "telemetry_publisher" true ("Client disconnected: " <> to_string id)
    Network.on_close id

  -- `OnReceive`: each answer goes back with a newline behind it.
  unfoldable pub on_receive : ℕ → Bytes → Server E W → Server E W
  on_receive id chunk = feed lib (some (λ reply. record_call (send id (reply ++ 10 ∷ [])))) id chunk
