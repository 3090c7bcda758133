-- ===== src/Network.antt =====
-- network/server_listener_tcp.hpp: the list of active connections.
use aqua_regulator_server.Base.{
  ℕ, Bool, List, [], ◌∷◌, ◌++◌, Bytes, codes, is_empty, not, ◌==◌, if◌then◌else◌,
}
use aqua_regulator_server.World.{World, send, Action, gets, modify, record_call, for_each, ◌>>=◌}

-- `std::remove` followed by `erase`.
unfoldable pub remove : ℕ → List ℕ → List ℕ
remove id [] = []
remove id (x ∷ xs) = let rest = remove id xs in if x == id then rest else x ∷ rest

module _ {E W : Type 0} where
  -- `ServerListener::OnAccept`
  unfoldable pub on_accept : ℕ → Action E W (Unit {0})
  on_accept id = modify (λ w. record w {
    listener = record { conn_id = id; conn_ids = w.listener.conn_ids ++ (id ∷ []) };
  })

  -- `ServerListener::OnClose`
  unfoldable pub on_close : ℕ → Action E W (Unit {0})
  on_close id = modify (λ w. record w {
    listener = record (w.listener) { conn_ids = remove id w.listener.conn_ids };
  })

  -- `ServerListener::OnReceive`, the echo that `TelemetryPublisher` overrides.
  unfoldable pub on_receive : ℕ → Bytes → Action E W (Unit {0})
  on_receive id msg = record_call (send id (codes "Server reply: " ++ msg))

  pub get_connection_id : World E W → ℕ
  get_connection_id w = w.listener.conn_id

  unfoldable pub get_all_connection_ids : World E W → List ℕ
  get_all_connection_ids w = w.listener.conn_ids

  pub has_connections : World E W → Bool
  has_connections w = not (is_empty w.listener.conn_ids)

  -- `forEachConnection`: over a copy of the list.
  unfoldable pub for_each_connection : (ℕ → Action E W (Unit {0})) → Action E W (Unit {0})
  for_each_connection fn = do ids ← gets get_all_connection_ids; for_each fn ids
