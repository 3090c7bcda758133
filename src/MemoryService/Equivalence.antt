-- ===== src/MemoryService/Equivalence.antt =====
-- services/data_manager.hpp against services/data_manager_redis.hpp with Redis out of use.
use aqua_regulator_server.Base.{
  ℕ, zero, suc, ◌≡◌, refl, ap, ◌∙◌, false, List, [], ◌∷◌, arith, Option-cases, Result-cases, inl,
  inr,
}
use aqua_regulator_server.Base.Int.{ℤ}
use aqua_regulator_server.Domain.{
  TelemetryChannel, realtime, historical_environment, historical_soil, TelemetryReading,
}
use aqua_regulator_server.MemoryService
use aqua_regulator_server.MemoryService.{cache_store}
use aqua_regulator_server.Monitor.{update}
use aqua_regulator_server.Platform.{Platform}
use aqua_regulator_server.Service
use aqua_regulator_server.Service.{store_to_cache, set_memory_cache}
use aqua_regulator_server.Service.Realtime.{read_realtime_kept}
use aqua_regulator_server.Service.Rounds.{
  publish_kept, load_environmental_kept, load_soil_and_air_kept,
}
use aqua_regulator_server.Sensors.{read_realtime}
use aqua_regulator_server.Database.{load_environmental, load_soil_and_air}
use aqua_regulator_server.World.{World, for_each}

-- What leaves the service leaves its choice of the cache.
still :
    {E W : Type 0} (w w' : World E W)
    → w.service.use_redis ≡ false
    → w'.service ≡ w.service
    → w'.service.use_redis ≡ false
still w w' memory same = ground arith

module _ {E W J : Type 0} (lib : Platform E W J) where
  store_lem :
      (c : TelemetryChannel) (r : TelemetryReading W) (w : World E W)
      → w.service.use_redis ≡ false
      → store_to_cache lib c r w ≡ cache_store lib c r w
  unfolding store_to_cache set_memory_cache cache_store
  store_lem c r w memory = ground arith

  for_each-store :
      (c : TelemetryChannel) (rs : List (TelemetryReading W)) (w : World E W)
      → w.service.use_redis ≡ false
      → (for_each (store_to_cache lib c) rs w ≡ for_each (cache_store lib c) rs w)
        × ((for_each (cache_store lib c) rs w).1.service.use_redis ≡ false)
  unfolding cache_store
  for_each-store c [] w memory = (refl, memory)
  for_each-store c (r ∷ rs) w memory =
      let (same, kept) = for_each-store c rs (cache_store lib c r w).1 memory in
      (
        ap (λ (p : Unit {0} × World E W). for_each (store_to_cache lib c) rs p.1)
              (store_lem c r w memory)
            ∙ same,
        kept,
      )

  publish_realtime_lem :
      (r : TelemetryReading W) (w : World E W)
      → MemoryService.publish_realtime lib r w ≡ Service.publish_realtime lib r w
  unfolding MemoryService.publish_realtime Service.publish_realtime
      MemoryService.next_correlation_id Service.next_correlation_id
  publish_realtime_lem r w = refl

  publish_historical_lem :
      (env soil : List (TelemetryReading W)) (w : World E W)
      → MemoryService.publish_historical lib env soil w ≡ Service.publish_historical lib env soil w
  unfolding MemoryService.publish_historical Service.publish_historical MemoryService.publish_loaded
      Service.publish_loaded MemoryService.build_frame Service.build_frame
      MemoryService.next_correlation_id Service.next_correlation_id
  publish_historical_lem env soil w = refl

  process_realtime_lem :
      (w : World E W)
      → w.service.use_redis ≡ false
      → MemoryService.process_realtime lib w ≡ Service.process_realtime lib w
  unfolding MemoryService.process_realtime Service.process_realtime
  process_realtime_lem w memory =
      let w1 = (read_realtime lib w).1 in
      let memory1 : w1.service.use_redis ≡ false = still w w1 memory (read_realtime_kept lib w).0 in
      elim (Option-cases (read_realtime lib w).0) [
        | inl e ↦ ground arith
        | inr (r, e) ↦ ground (
          arith,
          store_lem realtime r w1 memory1,
          publish_realtime_lem r (cache_store lib realtime r w1).1,
        )
      ]

  process_historical_lem :
      (w : World E W)
      → w.service.use_redis ≡ false
      → MemoryService.process_historical lib w ≡ Service.process_historical lib w
  unfolding MemoryService.process_historical Service.process_historical
  process_historical_lem w memory =
      let size = w.service.pipeline.cache_size in
      let w1 = (load_environmental lib size w).1 in
      let w2 = (load_soil_and_air lib size w1).1 in
      let memory2 : w2.service.use_redis ≡ false =
        still w1 w2 (still w w1 memory (load_environmental_kept lib size w).0)
          (load_soil_and_air_kept lib size w1).0 in
      elim (Result-cases (load_environmental lib size w).0) [
        | inr (what, e) ↦ ground arith
        | inl (env, e) ↦ elim (Result-cases (load_soil_and_air lib size w1).0) [
          | inr (what, e') ↦ ground arith
          | inl (soil, e') ↦
              let (first, memory3) = for_each-store historical_environment env w2 memory2 in
              let w3 = (for_each (cache_store lib historical_environment) env w2).1 in
              let (second, memory4) = for_each-store historical_soil soil w3 memory3 in
              let w4 = (for_each (cache_store lib historical_soil) soil w3).1 in
              ground (arith, first, second, publish_historical_lem env soil w4)
        ]
      ]

  -- No handler changes the choice of the cache.
  publish_realtime-use_redis :
      (r : TelemetryReading W) (w : World E W)
      → (MemoryService.publish_realtime lib r w).1.service.use_redis ≡ w.service.use_redis
  unfolding MemoryService.publish_realtime MemoryService.next_correlation_id
  publish_realtime-use_redis r w =
      let (id, v) = MemoryService.next_correlation_id lib w in
      ground (
        arith,
        publish_kept lib
            (record {
              channel = realtime;
              readings = r ∷ [];
              snapshot = false;
              correlation_id = id;
            })
            v,
      )

  process_realtime-use_redis :
      (w : World E W)
      → (MemoryService.process_realtime lib w).1.service.use_redis ≡ w.service.use_redis
  unfolding MemoryService.process_realtime cache_store update
  process_realtime-use_redis w =
      let w1 = (read_realtime lib w).1 in
      elim (Option-cases (read_realtime lib w).0) [
        | inl e ↦ ground (arith, read_realtime_kept lib w)
        | inr (r, e) ↦ ground (
          arith,
          read_realtime_kept lib w,
          publish_realtime-use_redis r (cache_store lib realtime r w1).1,
        )
      ]

  publish_loaded-use_redis :
      (c : TelemetryChannel) (rs : List (TelemetryReading W)) (w : World E W)
      → (MemoryService.publish_loaded lib c rs w).1.service.use_redis ≡ w.service.use_redis
  unfolding MemoryService.publish_loaded MemoryService.build_frame MemoryService.next_correlation_id
  publish_loaded-use_redis c [] w = refl
  publish_loaded-use_redis c (r ∷ rs) w =
      let (frame, v) = MemoryService.build_frame lib c (r ∷ rs) w in
      ground (arith, publish_kept lib frame v)

  publish_historical-use_redis :
      (env soil : List (TelemetryReading W)) (w : World E W)
      → (MemoryService.publish_historical lib env soil w).1.service.use_redis ≡ w.service.use_redis
  unfolding MemoryService.publish_historical
  publish_historical-use_redis env soil w = ground (
    arith,
    publish_loaded-use_redis historical_environment env w,
    publish_loaded-use_redis historical_soil soil
        (MemoryService.publish_loaded lib historical_environment env w).1,
  )

  process_historical-use_redis :
      (w : World E W)
      → w.service.use_redis ≡ false
      → (MemoryService.process_historical lib w).1.service.use_redis ≡ false
  unfolding MemoryService.process_historical update
  process_historical-use_redis w memory =
      let size = w.service.pipeline.cache_size in
      let w1 = (load_environmental lib size w).1 in
      let w2 = (load_soil_and_air lib size w1).1 in
      let memory1 = still w w1 memory (load_environmental_kept lib size w).0 in
      let memory2 = still w1 w2 memory1 (load_soil_and_air_kept lib size w1).0 in
      elim (Result-cases (load_environmental lib size w).0) [
        | inr (what, e) ↦ ground arith
        | inl (env, e) ↦ elim (Result-cases (load_soil_and_air lib size w1).0) [
          | inr (what, e') ↦ ground arith
          | inl (soil, e') ↦
              let (first, memory3) = for_each-store historical_environment env w2 memory2 in
              let w3 = (for_each (cache_store lib historical_environment) env w2).1 in
              let (second, memory4) = for_each-store historical_soil soil w3 memory3 in
              let w4 = (for_each (cache_store lib historical_soil) soil w3).1 in
              ground (arith, memory4, publish_historical-use_redis env soil w4)
        ]
      ]

  historical_if_due_lem :
      (last : ℤ) (w : World E W)
      → w.service.use_redis ≡ false
      → (MemoryService.historical_if_due lib last w ≡ Service.historical_if_due lib last w)
        × ((MemoryService.historical_if_due lib last w).1.service.use_redis ≡ false)
  unfolding MemoryService.historical_if_due Service.historical_if_due
  historical_if_due_lem last w memory =
      let v = record w { env = (lib.clock.steady_now w.env).1 } in
      (
        ground (arith, process_historical_lem v memory),
        ground (arith, process_historical-use_redis v memory),
      )

  round_lem :
      (last : ℤ) (w : World E W)
      → w.service.use_redis ≡ false
      → (MemoryService.round lib last w ≡ Service.round lib last w)
        × ((MemoryService.round lib last w).1.service.use_redis ≡ false)
  unfolding MemoryService.round Service.round MemoryService.sleep_rest Service.sleep_rest
  round_lem last w memory =
      let v = record w { env = (lib.clock.steady_now w.env).1 } in
      let u = (MemoryService.process_realtime lib v).1 in
      let memory1 : u.service.use_redis ≡ false = process_realtime-use_redis v ∙ memory in
      let (same, memory2) = historical_if_due_lem last u memory1 in
      (ground (arith, process_realtime_lem v memory, same), ground (arith, memory2))

  rounds_lem :
      (n : ℕ) (last : ℤ) (w : World E W)
      → w.service.use_redis ≡ false
      → MemoryService.rounds lib n last w ≡ Service.rounds lib n last w
  unfolding MemoryService.rounds Service.rounds
  rounds_lem zero last w memory = refl
  rounds_lem (suc n) last w memory =
      let (same, memory1) = round_lem last w memory in
      let w1 = (MemoryService.round lib last w).1 in
      elim (Result-cases (MemoryService.round lib last w).0) [
        | inr (what, e) ↦ ground (arith, same)
        | inl (last', e) ↦ ground (arith, same, rounds_lem n last' w1 memory1)
      ]

  -- With Redis out of use, the two services are the same: any number of rounds of their workers, from
  -- any state, have the same effect on the world, the packets and the health table among it, and end
  -- alike, also where an exception ends them.
  pub run_loop_lem :
      (n : ℕ) (w : World E W)
      → w.service.use_redis ≡ false
      → MemoryService.run_loop lib n w ≡ Service.run_loop lib n w
  unfolding MemoryService.run_loop Service.run_loop MemoryService.first_historical
      Service.first_historical
  run_loop_lem n w memory =
      let (last, v) = Service.first_historical lib w in rounds_lem n last v memory
