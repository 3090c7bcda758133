-- ===== src/Publisher/Delivery.antt =====
-- transport/tcp_data_sender.hpp and network/server_listener_tcp.hpp: who is sent what.
use Prim.Native.String.{◌++◌ as ◌<>◌}
use aqua_regulator_server.Base.Decimal.{to_string}
use aqua_regulator_server.Base.{
  ℕ, ◌≡◌, ◌≢◌, ap, ap₂, ◌==◌, ◌∙◌, true, false, none, some, List, [], ◌∷◌, ◌++◌, map, append-nil,
  append_assoc, Bytes, All, arith, Bool-cases, inl, inr,
}
use aqua_regulator_server.Domain.{TelemetryFrame, frame_to_json}
use aqua_regulator_server.Monitor.{update}
use aqua_regulator_server.Network
use aqua_regulator_server.Platform.{Platform}
use aqua_regulator_server.Publisher.{packet, broadcast, publish, on_accept, on_close}
use aqua_regulator_server.Router.{has_subscribers}
use aqua_regulator_server.World.{World, Action, Call, send, Listener, record_call, for_each}

-- Who a call is addressed to.
abbrev pub to_all : List ℕ → Bytes → List Call
to_all ids buffer = map (λ id. send id buffer) ids

for_each-send :
    {E W : Type 0} (ids : List ℕ) (buffer : Bytes) (w : World E W)
    → for_each (λ id. record_call (send id buffer)) ids w
      ≡ (tt, record w { calls = w.calls ++ to_all ids buffer })
for_each-send [] buffer w = rw append-nil
for_each-send (id ∷ ids) buffer w =
    for_each-send ids buffer (record w { calls = w.calls ++ (send id buffer ∷ []) })
    ∙ ap (λ (cs : List Call). (tt, record w { calls = cs }))
        (append_assoc w.calls (send id buffer ∷ []) (to_all ids buffer))

module _ {E W J : Type 0} (lib : Platform E W J) where
  pub broadcast_lem :
      (buffer : Bytes) (w : World E W)
      → broadcast lib buffer w
        ≡ (tt, record w { calls = w.calls ++ to_all w.listener.conn_ids buffer })
  unfolding broadcast Network.for_each_connection Network.get_all_connection_ids
  broadcast_lem buffer w = for_each-send w.listener.conn_ids buffer w

  -- With a subscriber, publishing a frame sends its packet once to every listed connection, in the
  -- order of the list, and nothing else, and leaves the list.
  publish_subscribed :
      (frame : TelemetryFrame W) (w : World E W)
      → has_subscribers lib w ≡ true
      → ((publish lib frame w).1.calls
          ≡ w.calls
            ++ to_all w.listener.conn_ids (packet (lib.json.dump (frame_to_json lib.json frame))))
        × ((publish lib frame w).1.listener ≡ w.listener)
  unfolding publish update
  publish_subscribed frame w h =
      ground (arith, broadcast_lem (packet (lib.json.dump (frame_to_json lib.json frame))) w)

  -- With none it does nothing at all.
  publish_unsubscribed :
      (frame : TelemetryFrame W) (w : World E W)
      → has_subscribers lib w ≡ false
      → publish lib frame w ≡ (tt, w)
  unfolding publish
  publish_unsubscribed frame w h = rw (h, publish)

  abbrev pub frame_packet : TelemetryFrame W → Bytes
  frame_packet frame = packet (lib.json.dump (frame_to_json lib.json frame))

  -- The calls that carry a list of frames to a list of connections.
  abbrev pub deliveries : List ℕ → List (TelemetryFrame W) → List Call
  deliveries ids [] = []
  deliveries ids (f ∷ fs) = to_all ids (frame_packet f) ++ deliveries ids fs

  -- With a subscriber at all times, publishing frames one after the other sends each of them to every
  -- listed connection, in order, and nothing else.
  publish_each :
      (subscribed : (v : World E W) → has_subscribers lib v ≡ true)
      (frames : List (TelemetryFrame W)) (w : World E W)
      → (for_each (publish lib) frames w).1.calls ≡ w.calls ++ deliveries w.listener.conn_ids frames
  publish_each subscribed [] w = rw append-nil
  publish_each subscribed (f ∷ fs) w =
      let one = publish_subscribed f w (subscribed w) in
      publish_each subscribed fs (publish lib f w).1
      ∙ ap₂ (λ (cs : List Call) (l : Listener). cs ++ deliveries l.conn_ids fs) one.0 one.1
      ∙ append_assoc w.calls (to_all w.listener.conn_ids (frame_packet f))
          (deliveries w.listener.conn_ids fs)

  -- What a snapshot provider that only reads finds: the new connection is listed, and so far nothing
  -- was sent.
  abbrev pub listed : ℕ → World E W → World E W
  listed id w =
      (update lib "telemetry_publisher" true ("Client connected: " <> to_string id)
        (Network.on_accept id w).1).1

  -- A new connection sets off the frames of the snapshot, and each goes to every connection, the old
  -- ones too, if the provider sends nothing itself and leaves the list of connections.
  pub on_accept_to_all :
      (subscribed : (v : World E W) → has_subscribers lib v ≡ true)
      (provider : Action E W (List (TelemetryFrame W))) (id : ℕ) (w : World E W)
      → ((v : World E W) → (provider v).1.calls ≡ v.calls)
      → ((v : World E W) → (provider v).1.listener ≡ v.listener)
      → (on_accept lib (some provider) id w).1.calls
        ≡ w.calls ++ deliveries (w.listener.conn_ids ++ id ∷ []) (provider (listed id w)).0
  unfolding on_accept Network.on_accept update
  on_accept_to_all subscribed provider id w quiet keeps =
      publish_each subscribed (provider (listed id w)).0 (provider (listed id w)).1
      ∙ ap₂
          (λ (cs : List Call) (l : Listener).
            cs ++ deliveries l.conn_ids (provider (listed id w)).0)
          (quiet (listed id w)) (keeps (listed id w))

remove-All : (id : ℕ) (ids : List ℕ) → All (λ i. i ≢ id) (Network.remove id ids)
unfolding Network.remove
remove-All id [] = tt
remove-All id (x ∷ xs) = elim (Bool-cases (x == id)) [
  | inl e ↦ rw (e, Network.remove) (remove-All id xs)
  | inr e ↦ rw (e, Network.remove) ((λ p. ground arith), remove-All id xs)
]

remove_absent :
    (id : ℕ) (ids : List ℕ) → All (λ i. i ≢ id) ids → Network.remove id (ids ++ id ∷ []) ≡ ids
unfolding Network.remove
remove_absent id [] h = ground arith
remove_absent id (x ∷ xs) h = ground (arith, remove_absent id xs h.1)

module _ {E W J : Type 0} (lib : Platform E W J) where
  -- When a connection closes, it is off the list, however often it stood there.
  on_close_unlists :
      (id : ℕ) (w : World E W) → All (λ i. i ≢ id) (on_close lib id w).1.listener.conn_ids
  unfolding on_close Network.on_close update
  on_close_unlists id w = remove-All id w.listener.conn_ids

  -- A connection that comes and goes leaves the list as it was, if it was not on it before.
  on_close-on_accept :
      (id : ℕ) (w : World E W)
      → All (λ i. i ≢ id) w.listener.conn_ids
      → (on_close lib id (on_accept lib none id w).1).1.listener.conn_ids ≡ w.listener.conn_ids
  unfolding on_close on_accept Network.on_close Network.on_accept update
  on_close-on_accept id w h = remove_absent id w.listener.conn_ids h
