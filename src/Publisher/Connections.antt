-- ===== src/Publisher/Connections.antt =====
-- transport/tcp_data_sender.hpp over network/server_listener_tcp.hpp: the list of connections in any
-- sequence of callbacks.
use aqua_regulator_server.Base.{
  ℕ, ◌+◌, ◌≡◌, ◌∙◌, refl, ap, Bool, true, false, Option, none, some, List, [], ◌∷◌, ◌++◌, ◌==◌,
  if◌then◌else◌, arith,
}
use aqua_regulator_server.Domain.{TelemetryFrame}
use aqua_regulator_server.Monitor.{update}
use aqua_regulator_server.Network
use aqua_regulator_server.Platform.{Platform}
use aqua_regulator_server.Publisher.{publish, on_accept, on_close}
use aqua_regulator_server.Publisher.Delivery.{frame_packet, broadcast_lem, listed}
use aqua_regulator_server.World.{World, Listener, Action, for_each}

-- HPSocket reports a connection as opened or closed.
pub data Event : Type 0 where
  opened closed : ℕ → Event

-- Whether a connection is open, by what was last reported of it.
abbrev pub open_after : ℕ → Bool → List Event → Bool
open_after id b [] = b
open_after id b (opened j ∷ es) = open_after id (if j == id then true else b) es
open_after id b (closed j ∷ es) = open_after id (if j == id then false else b) es

-- No connection is reported as opened while it is open.
abbrev pub OpensOnce : ℕ → Bool → List Event → Type 0
OpensOnce id b [] = Unit {0}
OpensOnce id b (opened j ∷ es) =
    ((j == id) ≡ true → b ≡ false) × OpensOnce id (if j == id then true else b) es
OpensOnce id b (closed j ∷ es) = OpensOnce id (if j == id then false else b) es

-- How often a connection is on a list.
abbrev pub times : ℕ → List ℕ → ℕ
times id [] = 0
times id (x ∷ xs) = (if x == id then 1 else 0) + times id xs

times-append : (id : ℕ) (xs ys : List ℕ) → times id (xs ++ ys) ≡ times id xs + times id ys
times-append id [] ys = ground arith
times-append id (x ∷ xs) ys = ground (arith, times-append id xs ys)

times-remove :
    (id j : ℕ) (xs : List ℕ) → times id (Network.remove j xs) ≡ (if j == id then 0 else times id xs)
unfolding Network.remove
times-remove id j [] = ground arith
times-remove id j (x ∷ xs) = ground (arith, times-remove id j xs)

module _ {E W J : Type 0} (lib : Platform E W J) where
  publish-listener :
      (frame : TelemetryFrame W) (w : World E W) → (publish lib frame w).1.listener ≡ w.listener
  unfolding publish update
  publish-listener frame w = ground (arith, broadcast_lem lib (frame_packet lib frame) w)

  publish_each-listener :
      (frames : List (TelemetryFrame W)) (w : World E W)
      → (for_each (publish lib) frames w).1.listener ≡ w.listener
  publish_each-listener [] w = refl
  publish_each-listener (f ∷ fs) w =
      publish_each-listener fs (publish lib f w).1 ∙ publish-listener f w

  abbrev pub LeavesListener : Option (Action E W (List (TelemetryFrame W))) → Type 0
  LeavesListener none = Unit {0}
  LeavesListener (some frames) = (w : World E W) → (frames w).1.listener ≡ w.listener

  on_accept-conn_ids :
      (provider : Option (Action E W (List (TelemetryFrame W)))) (id : ℕ) (w : World E W)
      → LeavesListener provider
      → (on_accept lib provider id w).1.listener.conn_ids ≡ w.listener.conn_ids ++ id ∷ []
  unfolding on_accept Network.on_accept update
  on_accept-conn_ids none id w h = refl
  on_accept-conn_ids (some frames) id w h =
      let v = listed lib id w in
      ap (λ (l : Listener). l.conn_ids) (publish_each-listener (frames v).0 (frames v).1 ∙ h v)

  on_accept-times :
      (provider : Option (Action E W (List (TelemetryFrame W)))) (id j : ℕ) (w : World E W)
      → LeavesListener provider
      → times id (on_accept lib provider j w).1.listener.conn_ids
        ≡ times id w.listener.conn_ids + (if j == id then 1 else 0)
  on_accept-times provider id j w leaves =
      ap (times id) (on_accept-conn_ids provider j w leaves)
      ∙ times-append id w.listener.conn_ids (j ∷ [])
      ∙ ground arith

  on_close-times :
      (id j : ℕ) (w : World E W)
      → times id (on_close lib j w).1.listener.conn_ids
        ≡ (if j == id then 0 else times id w.listener.conn_ids)
  unfolding on_close Network.on_close update
  on_close-times id j w = times-remove id j w.listener.conn_ids

  module _ (provider : Option (Action E W (List (TelemetryFrame W)))) where
    abbrev pub callback : Event → World E W → World E W
    callback (opened id) w = (on_accept lib provider id w).1
    callback (closed id) w = (on_close lib id w).1

    abbrev pub callbacks : List Event → World E W → World E W
    callbacks [] w = w
    callbacks (e ∷ es) w = callbacks es (callback e w)

    -- After any sequence of callbacks that opens no connection twice without closing it in between, a
    -- connection is on the list exactly once if it is open, and else not at all, whatever frames the
    -- new connections set off, if the snapshot provider leaves the list.
    pub connections_listed :
        LeavesListener provider
        → (id : ℕ) (b : Bool) (es : List Event) (w : World E W)
        → times id w.listener.conn_ids ≡ (if b then 1 else 0)
        → OpensOnce id b es
        → times id (callbacks es w).listener.conn_ids ≡ (if open_after id b es then 1 else 0)
    connections_listed leaves id b [] w h o = h
    connections_listed leaves id b (opened j ∷ es) w h o =
        connections_listed leaves id (if j == id then true else b) es _
          (on_accept-times provider id j w leaves ∙ ground (arith, o.0)) o.1
    connections_listed leaves id b (closed j ∷ es) w h o =
        connections_listed leaves id (if j == id then false else b) es _
          (on_close-times id j w ∙ ground arith) o
