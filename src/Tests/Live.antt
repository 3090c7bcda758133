-- ===== src/Tests/Live.antt =====
-- The telemetry thread and a connecting client, interleaved.
use aqua_regulator_server.Base.{
  ℕ, ◌≡◌, refl, Bool, true, false, not, is_empty, List, [], ◌∷◌, inl, inr, replicate, ◌==◌,
  Bool-cases, arith,
}
use aqua_regulator_server.Cache.Memory
use aqua_regulator_server.Domain.{realtime, TelemetryReading, TelemetryFrame}
use aqua_regulator_server.Service.Live.{
  Shared, idle, listing, number, realtime_round, System, put, advance, sampled, accept, move, Reach,
  here, next, started, others,
}
use aqua_regulator_server.Service.Live.Delivery.{none_missed}
use aqua_regulator_server.Service.Live.Ends.{go, thread_ends}
use aqua_regulator_server.Service.Live.Numbers.{numbers_unique}
use aqua_regulator_server.Service.Live.Owed.{Got}
use aqua_regulator_server.Tests.Sim.{cache}

abbrev answers : ℕ → Shared ℕ → Bool
answers n s = not (is_empty s.conn_ids)

empty-none : (ids : List ℕ) → not (is_empty ids) ≡ false → ids ≡ []
empty-none [] h = refl
empty-none (x ∷ ids) h = cc

abbrev sample : TelemetryReading ℕ
sample = record {
  label = "Realtime";
  timestamp = "now";
  temperature = 1;
  humidity = 2;
  light = 3;
  soil = 4;
  gas = 5;
  raindrop = 6;
}

abbrev turn : ℕ → System ℕ → System ℕ
turn i s =
    let next = advance (answers 0 s.shared) (s.at i) s.shared in
    record { shared = next.1; at = put s.at i next.0 }

abbrev turns : List ℕ → System ℕ → System ℕ
turns [] s = s
turns (i ∷ is) s = turns is (turn i s)

abbrev turns-Reach :
    (is : List ℕ) (r s : System ℕ) → Reach answers r s → Reach answers r (turns is s)
turns-Reach [] r s run = run
turns-Reach (i ∷ is) r s run = turns-Reach is r (turn i s) (next run (move i 0 _ _ refl refl))

-- The client connects while a reading is on its way: it is stored, and then the client is listed, and
-- the thread copies the list.
abbrev both : System ℕ
both =
    let begun = record (started cache) { at = put (λ i. idle) 0 (realtime_round sample) } in
    record begun { at = put begun.at 1 (listing 3) }

abbrev to_both : Reach answers (started cache) both
to_both = next (next here (sampled sample refl refl)) (accept 0 3 refl refl)

abbrev schedule : List ℕ
schedule = 0 ∷ 1 ∷ 1 ∷ 0 ∷ 0 ∷ 0 ∷ 1 ∷ 0 ∷ 0 ∷ 0 ∷ 0 ∷ replicate 24 1

abbrev settled : System ℕ
settled = turns schedule both

settled_idle : (i : ℕ) → settled.at i ≡ idle
unfolding advance realtime_round
settled_idle i = elim (Bool-cases (i == 0)) [
  | inl e ↦ elim (Bool-cases (i == 1)) [ inl k ↦ rw (e, k) refl | inr k ↦ rw (e, k) refl ]
  | inr e ↦ elim (Bool-cases (i == 1)) [ inl k ↦ rw (e, k) refl | inr k ↦ rw (e, k) refl ]
]

none_missed_example : Got 3 realtime sample settled.shared.sent
unfolding advance realtime_round Memory.store
none_missed_example =
    none_missed answers (λ n s h. empty-none s.conn_ids h) cache
      (turns-Reach schedule (started cache) both to_both) settled_idle 3 realtime sample (inl refl)
      (inl refl)

thread_ends_example : go (realtime_round sample) (replicate 8 (true, both.shared)) ≡ idle
unfolding realtime_round
thread_ends_example =
    thread_ends 1 (realtime_round sample) (replicate 8 (true, both.shared)) (omega arith)
      (omega arith)

-- What the client is sent first.
abbrev first_sent : List (ℕ × TelemetryFrame ℕ) → TelemetryFrame ℕ
first_sent [] = number 0 (record { channel = realtime; readings = []; snapshot = false })
first_sent ((id, f) ∷ rest) = f

abbrev the_frame : TelemetryFrame ℕ
the_frame = first_sent settled.shared.sent

numbers_unique_example : the_frame ≡ the_frame
unfolding advance realtime_round Memory.store others
numbers_unique_example =
    numbers_unique answers cache (turns-Reach schedule (started cache) both to_both) (omega arith) 3
      3 the_frame the_frame (inl refl) (inl refl) refl
