-- ===== src/Tests/Clients.antt =====
-- The streams of the clients, the packets and the deliveries at concrete inputs.
use mathlib.Core.List.{flatten}
use aqua_regulator_server.Base.{
  ℕ, ◌≡◌, refl, true, none, some, Option, List, [], ◌∷◌, ◌++◌, map, Bytes, codes, arith,
}
use aqua_regulator_server.Publisher.{packet}
use aqua_regulator_server.Publisher.Wire.{unpack_all, unpack_all-packets}
use aqua_regulator_server.Publisher.Connections.{
  Event, opened, closed, times, callbacks, connections_listed,
}
use aqua_regulator_server.Publisher.Streams.{of, stream, receive_all, serve, streams_separate}
use aqua_regulator_server.Service.{snapshot_provider}
use aqua_regulator_server.Service.Quiet.{snapshot_provider-Same}
use aqua_regulator_server.Router.{find, Server, feed, put}
use aqua_regulator_server.Router.Framing.{split_lines, feed-append}
use aqua_regulator_server.Tests.Sim.{Outside, plain, world}
use aqua_regulator_server.World.{Action, for_each, send, record_call}

-- A server in which connection 3 has sent the start of a line.
abbrev half : Server Outside ℕ
half = record { world = world (some 1); buffers = put 3 (codes "ab") (λ k. []) }

abbrev reply_to : Option (Bytes → Action Outside ℕ (Unit {0}))
reply_to = some (λ reply. record_call (send 3 reply))

feed-append_example :
    feed plain reply_to 3 (codes "c\nd" ++ codes "e\nf") half
    ≡ feed plain reply_to 3 (codes "e\nf") (feed plain reply_to 3 (codes "c\nd") half)
feed-append_example = feed-append plain reply_to 3 (codes "c\nd") (codes "e\nf") half

unpack_all-packets_example :
    unpack_all 2 (flatten (map packet ((7 ∷ 8 ∷ []) ∷ (9 ∷ []) ∷ [])))
    ≡ (7 ∷ 8 ∷ []) ∷ (9 ∷ []) ∷ []
unpack_all-packets_example =
    unpack_all-packets ((7 ∷ 8 ∷ []) ∷ (9 ∷ []) ∷ []) 2 (omega arith, (omega arith, tt))
      (omega arith)

-- Two connections send in turn.
abbrev turns : List (ℕ × Bytes)
turns = (3, codes "x\ny") ∷ (4, codes "z") ∷ (3, codes "\n") ∷ (4, codes "\n") ∷ []

abbrev fresh : Server Outside ℕ
fresh = record { world = world (some 1); buffers = λ k. [] }

streams_separate_example :
    (commands : List (ℕ × Bytes)) × ((receive_all plain turns fresh).world
      ≡ (for_each (serve plain) commands fresh.world).1)
    × ((id : ℕ)
        → ((of id commands, (receive_all plain turns fresh).buffers id)
            ≡ split_lines (stream id turns)))
unfolding find
streams_separate_example = streams_separate plain turns fresh (λ id. refl)

-- Connection 3 is open; 4 comes, 3 goes and comes again.
abbrev events : List Event
events = opened 4 ∷ closed 3 ∷ opened 3 ∷ []

connections_listed_example :
    times 3 (callbacks plain (some (snapshot_provider plain)) events (world none)).listener.conn_ids
    ≡ 1
connections_listed_example =
    connections_listed plain (some (snapshot_provider plain))
      (λ w. (snapshot_provider-Same plain w).listener) 3 true events (world none) refl
      ((λ e. cc), ((λ e. refl), tt))
