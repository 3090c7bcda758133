-- ===== src/Service/Live.antt =====
-- services/data_manager_redis.hpp and transport/tcp_data_sender.hpp: the telemetry thread and the
-- callbacks of HPSocket as threads that interleave inside a round and inside a callback. They share the
-- memory cache with its mutex, the list of connections with its mutex, the correlation counter, which is
-- atomic, and the server's `Send`; each access to one of these is a step. What they do besides, the
-- readings of the device and the database and the reports to the health monitor, touches none of these.
pub mod Owed
pub mod Delivery
pub mod Ends
pub mod Frames
pub mod Numbers
pub mod Alone
pub mod Agreement
use Prim.Native.String.{◌++◌ as ◌<>◌}
use aqua_regulator_server.Base.{
  ℕ, suc, ◌+◌, ◌%◌, ◌^◌, ◌≡◌, Bool, true, false, List, [], ◌∷◌, ◌++◌, ◌==◌, if◌then◌else◌,
}
use aqua_regulator_server.Base.Decimal.{to_string}
use aqua_regulator_server.Cache.Memory
use aqua_regulator_server.Domain.{
  TelemetryChannel, realtime, historical_environment, historical_soil, TelemetryReading,
  TelemetryFrame,
}
use aqua_regulator_server.Network
use aqua_regulator_server.World.{TelemetryCache}

-- What the threads share. `sent` is the history of the calls of `Send`, the receiver with each, to the
-- connections that were listed last under their number.
pub record Shared (W : Type 0) : Type 0 where
  pub cache : TelemetryCache W
  pub conn_ids : List ℕ
  pub correlation : ℕ
  pub sent : List (ℕ × TelemetryFrame W)

-- A frame that has no correlation number yet.
pub record Batch (W : Type 0) : Type 0 where
  pub channel : TelemetryChannel
  pub readings : List (TelemetryReading W)
  pub snapshot : Bool

-- Where a thread stands, with its local variables: the frames that it still publishes behind the
-- present one, and the batches that it still makes frames of behind these.
pub data At (W : Type 0) : Type 0 where
  idle : At W
  -- before `storeToCache` of each reading left, and then before the test of `hasSubscribers`
  storing : List (TelemetryChannel × TelemetryReading W) → List (Batch W) → At W
  -- before `nextCorrelationId`
  numbering : List (Batch W) → At W
  -- in `publish`: before its test of `hasSubscribers`; before the copy of the list; in the loop over it
  publishing : TelemetryFrame W → List (TelemetryFrame W) → List (Batch W) → At W
  copying : TelemetryFrame W → List (TelemetryFrame W) → List (Batch W) → At W
  sending : List ℕ → TelemetryFrame W → List (TelemetryFrame W) → List (Batch W) → At W
  -- in `OnAccept`: before the connection is listed; in the snapshot provider, before the channels left
  -- are read; with the readings of a channel, before the number of their frame
  listing : ℕ → At W
  reading : List TelemetryChannel → List (TelemetryFrame W) → At W
  stamping :
      TelemetryChannel
      → List (TelemetryReading W)
      → List TelemetryChannel
      → List (TelemetryFrame W)
      → At W
  -- in `OnClose`, before the connection is taken off the list
  unlisting : ℕ → At W

module _ {W : Type 0} where
  -- The history without the calls for an earlier connection with the number.
  unfoldable pub others : ℕ → List (ℕ × TelemetryFrame W) → List (ℕ × TelemetryFrame W)
  others id [] = []
  others id ((j, f) ∷ rest) = let kept = others id rest in if j == id then kept else (j, f) ∷ kept

  -- `++correlationId_`, and the frame with the number.
  abbrev pub next_number : Shared W → ℕ
  next_number s = (s.correlation + 1) % 2 ^ 64

  unfoldable pub number : ℕ → Batch W → TelemetryFrame W
  number n b = record {
    channel = b.channel;
    readings = b.readings;
    snapshot = b.snapshot;
    correlation_id = "frame-" <> to_string n;
  }

  -- Behind a frame that is published.
  unfoldable pub proceed : List (TelemetryFrame W) → List (Batch W) → At W
  proceed (f ∷ fs) bs = publishing f fs bs
  proceed [] bs = numbering bs

  -- The next step of a thread, where `subscribed` is the answer of `hasSubscribers`.
  unfoldable pub advance : Bool → At W → Shared W → At W × Shared W
  unfolding proceed
  advance subscribed idle s = (idle, s)
  advance subscribed (storing ((c, r) ∷ items) bs) s =
      (storing items bs, record s { cache = Memory.store s.cache c r })
  advance subscribed (storing [] bs) s = (if subscribed then numbering bs else idle, s)
  advance subscribed (numbering []) s = (idle, s)
  advance subscribed (numbering (b ∷ bs)) s =
      (publishing (number (next_number s) b) [] bs, record s { correlation = next_number s })
  advance subscribed (publishing f fs bs) s =
      (if subscribed then copying f fs bs else proceed fs bs, s)
  advance subscribed (copying f fs bs) s = (sending s.conn_ids f fs bs, s)
  advance subscribed (sending (id ∷ ids) f fs bs) s =
      (sending ids f fs bs, record s { sent = s.sent ++ ((id, f) ∷ []) })
  advance subscribed (sending [] f fs bs) s = (proceed fs bs, s)
  advance subscribed (listing id) s = (
    reading (realtime ∷ historical_environment ∷ historical_soil ∷ []) [],
    record s { conn_ids = s.conn_ids ++ (id ∷ []); sent = others id s.sent },
  )
  advance subscribed (reading (c ∷ cs) fs) s = (stamping c (Memory.snapshot s.cache c) cs fs, s)
  advance subscribed (reading [] fs) s = (proceed fs [], s)
  advance subscribed (stamping c rs cs fs) s = (
    reading cs (
        fs ++ number (next_number s) (record { channel = c; readings = rs; snapshot = true }) ∷ []),
    record s { correlation = next_number s },
  )
  advance subscribed (unlisting id) s = (idle, record s { conn_ids = Network.remove id s.conn_ids })

  -- `processRealtime` behind a reading of the device, and `processHistorical` behind those of the
  -- database, of which only the tables that are not empty make a frame.
  abbrev pub tagged :
      TelemetryChannel → List (TelemetryReading W) → List (TelemetryChannel × TelemetryReading W)
  tagged c [] = []
  tagged c (r ∷ rs) = (c, r) ∷ tagged c rs

  abbrev pub batch_of : TelemetryChannel → List (TelemetryReading W) → List (Batch W)
  batch_of c [] = []
  batch_of c (r ∷ rs) = record { channel = c; readings = r ∷ rs; snapshot = true } ∷ []

  unfoldable pub realtime_round : TelemetryReading W → At W
  realtime_round r =
      storing ((realtime, r) ∷ [])
        (record { channel = realtime; readings = r ∷ []; snapshot = false } ∷ [])

  unfoldable pub historical_round : List (TelemetryReading W) → List (TelemetryReading W) → At W
  historical_round env soil =
      storing (tagged historical_environment env ++ tagged historical_soil soil)
        (batch_of historical_environment env ++ batch_of historical_soil soil)

-- The telemetry thread is thread 0, the workers of HPSocket are the others.
pub record System (W : Type 0) : Type 0 where
  pub shared : Shared W
  pub at : ℕ → At W

abbrev pub put : {W : Type 0} → (ℕ → At W) → ℕ → At W → ℕ → At W
put at i p j = if j == i then p else at j

-- `answers` are the possible answers of `hasSubscribers`, which is the library's: at any time, any of
-- them may be given.
module _ {W : Type 0} (answers : ℕ → Shared W → Bool) where
  pub data Step (s t : System W) : Type 0 where
    -- The telemetry thread begins with what it has read.
    sampled :
        (r : TelemetryReading W)
        → s.at 0 ≡ idle
        → t ≡ record s { at = put s.at 0 (realtime_round r) }
        → Step s t
    loaded :
        (env soil : List (TelemetryReading W))
        → s.at 0 ≡ idle
        → t ≡ record s { at = put s.at 0 (historical_round env soil) }
        → Step s t
    -- A worker is given a callback.
    accept :
        (i id : ℕ)
        → s.at (suc i) ≡ idle
        → t ≡ record s { at = put s.at (suc i) (listing id) }
        → Step s t
    close :
        (i id : ℕ)
        → s.at (suc i) ≡ idle
        → t ≡ record s { at = put s.at (suc i) (unlisting id) }
        → Step s t
    -- A thread goes on.
    move :
        (i n : ℕ) (p : At W) (u : Shared W)
        → advance (answers n s.shared) (s.at i) s.shared ≡ (p, u)
        → t ≡ record { shared = u; at = put s.at i p }
        → Step s t

  pub data Reach (s : System W) : System W → Type 0 where
    here : Reach s s
    next : {t u : System W} → Reach s t → Step t u → Reach s u

-- Before the first connection, with any cache.
abbrev pub started : {W : Type 0} → TelemetryCache W → System W
started cache = record {
  shared = record { cache = cache; conn_ids = []; correlation = 0; sent = [] };
  at = λ i. idle;
}
