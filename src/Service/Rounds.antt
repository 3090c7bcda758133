-- ===== src/Service/Rounds.antt =====
-- services/data_manager_redis.hpp: what a round stores and sends.
use aqua_regulator_server.Base.{
  ℕ, ◌≡◌, refl, sym, ◌∙◌, ap, ap₂, String, false, List, [], ◌∷◌, ◌++◌, Result, ok, err, arith,
}
use aqua_regulator_server.Base.Slices.{last}
use aqua_regulator_server.Cache.Memory
use aqua_regulator_server.Cache.Window.{
  IsBounded, store_all, snapshot-store_all, snapshot-store_all_other, store_all-IsBounded,
  store_all-capacity,
}
use aqua_regulator_server.Database.{
  load, load_environmental, load_soil_and_air, refresh_connection, reopen, execute, store_result,
  have_handle, with_handle, initialize_client, set_handle, connect, disconnect, ping, is_connected,
}
use aqua_regulator_server.Domain.{
  TelemetryChannel, realtime, historical_environment, historical_soil, TelemetryReading,
  TelemetryFrame,
}
use aqua_regulator_server.Monitor.{update}
use aqua_regulator_server.Platform.{Platform, Row}
use aqua_regulator_server.Publisher.{publish}
use aqua_regulator_server.Publisher.Delivery.{frame_packet, broadcast_lem}
use aqua_regulator_server.Service.{
  store_to_cache, set_memory_cache, process_historical, publish_historical, publish_loaded,
  build_frame, next_correlation_id,
}
use aqua_regulator_server.World.{World, Service, TelemetryCache, for_each}

module _ {E W J : Type 0} (lib : Platform E W J) where
  -- A load leaves all but the outside world and the repository.
  load_kept :
      (build : Row → Result (TelemetryReading W)) (query : String) (w : World E W)
      → let w' = (load lib build query w).1 in
        (w'.service ≡ w.service) × (w'.calls ≡ w.calls) × (w'.listener ≡ w.listener)
  unfolding load refresh_connection reopen execute store_result have_handle with_handle
      initialize_client set_handle connect disconnect ping is_connected
  load_kept build query w = ground arith

  with_cache : TelemetryCache W → World E W → World E W
  with_cache cache w = record w { service = record (w.service) { memory_cache = cache } }

  for_each-store_to_cache :
      (c : TelemetryChannel) (rs : List (TelemetryReading W)) (w : World E W)
      → w.service.use_redis ≡ false
      → for_each (store_to_cache lib c) rs w
        ≡ (tt, with_cache (store_all w.service.memory_cache c rs) w)
  unfolding store_to_cache set_memory_cache store_all with_cache
  for_each-store_to_cache c [] w memory = refl
  for_each-store_to_cache c (r ∷ rs) w memory = ground (
    arith,
    for_each-store_to_cache c rs (with_cache (Memory.store w.service.memory_cache c r) w) memory,
  )

  pub publish_kept :
      (frame : TelemetryFrame W) (w : World E W) → (publish lib frame w).1.service ≡ w.service
  unfolding publish update
  publish_kept frame w = ground (arith, broadcast_lem lib (frame_packet lib frame) w)

  publish_loaded-memory :
      (c : TelemetryChannel) (rs : List (TelemetryReading W)) (w : World E W)
      → (publish_loaded lib c rs w).1.service.memory_cache ≡ w.service.memory_cache
  unfolding publish_loaded build_frame next_correlation_id
  publish_loaded-memory c [] w = refl
  publish_loaded-memory c (r ∷ rs) w =
      let (frame, v) = build_frame lib c (r ∷ rs) w in
      ap (λ (s : Service W). s.memory_cache) (publish_kept frame v)

  publish_historical-memory :
      (env soil : List (TelemetryReading W)) (w : World E W)
      → (publish_historical lib env soil w).1.service.memory_cache ≡ w.service.memory_cache
  unfolding publish_historical
  publish_historical-memory env soil w = ground (
    arith,
    publish_loaded-memory historical_environment env w,
    publish_loaded-memory historical_soil soil (publish_loaded lib historical_environment env w).1,
  )

  pub load_environmental_kept :
      (limit : ℕ) (w : World E W)
      → let w' = (load_environmental lib limit w).1 in
        (w'.service ≡ w.service) × (w'.calls ≡ w.calls) × (w'.listener ≡ w.listener)
  unfolding load_environmental
  load_environmental_kept limit w = load_kept _ _ w

  pub load_soil_and_air_kept :
      (limit : ℕ) (w : World E W)
      → let w' = (load_soil_and_air lib limit w).1 in
        (w'.service ≡ w.service) × (w'.calls ≡ w.calls) × (w'.listener ≡ w.listener)
  unfolding load_soil_and_air
  load_soil_and_air_kept limit w = load_kept _ _ w

  -- When `processHistorical` throws, the members of the service, its cache and its correlation
  -- number among them, are as before, and nothing was sent.
  pub process_historical_err :
      (what : String) (w : World E W)
      → (process_historical lib w).0 ≡ err what
      → ((process_historical lib w).1.service ≡ w.service)
        × ((process_historical lib w).1.calls ≡ w.calls)
  unfolding process_historical
  process_historical_err what w h =
      let size = w.service.pipeline.cache_size in
      let w1 = (load_environmental lib size w).1 in
      ground (arith, load_environmental_kept size w, load_soil_and_air_kept size w1)

  -- The two loads stored one after the other.
  stored :
      List (TelemetryReading W) → List (TelemetryReading W) → TelemetryCache W → TelemetryCache W
  stored env soil cache =
      store_all (store_all cache historical_environment env) historical_soil soil

  process_historical-memory :
      (env soil : List (TelemetryReading W)) (w w1 w2 : World E W)
      → w.service.use_redis ≡ false
      → load_environmental lib w.service.pipeline.cache_size w ≡ (ok env, w1)
      → load_soil_and_air lib w.service.pipeline.cache_size w1 ≡ (ok soil, w2)
      → ((process_historical lib w).0 ≡ ok tt)
        × ((process_historical lib w).1.service.memory_cache
            ≡ stored env soil w.service.memory_cache)
  unfolding process_historical stored with_cache update
  process_historical-memory env soil w w1 w2 memory first second =
      let size = w.service.pipeline.cache_size in
      let same1 : w1.service ≡ w.service =
        ap (λ (p : Result (List (TelemetryReading W)) × World E W). p.1.service) (sym first)
        ∙ (load_environmental_kept size w).0 in
      let same2 : w2.service ≡ w.service =
        ap (λ (p : Result (List (TelemetryReading W)) × World E W). p.1.service) (sym second)
        ∙ (load_soil_and_air_kept size w1).0
        ∙ same1 in
      let memory2 : w2.service.use_redis ≡ false =
        ap (λ (s : Service W). s.use_redis) same2 ∙ memory in
      let w3 = with_cache (store_all w2.service.memory_cache historical_environment env) w2 in
      let w4 = with_cache (store_all w3.service.memory_cache historical_soil soil) w3 in
      ground (
        arith,
        for_each-store_to_cache historical_environment env w2 memory2,
        for_each-store_to_cache historical_soil soil w3 memory2,
        publish_historical-memory env soil w4,
      )

  -- With the memory cache in use and within its capacity, when both tables are read, each
  -- historical channel holds afterwards the newest of its former readings followed by all the rows
  -- read, up to the capacity, rows that it held already included, and the realtime channel is left
  -- alone.
  pub process_historical_stores :
      (env soil : List (TelemetryReading W)) (w w1 w2 : World E W)
      → w.service.use_redis ≡ false
      → IsBounded w.service.memory_cache
      → load_environmental lib w.service.pipeline.cache_size w ≡ (ok env, w1)
      → load_soil_and_air lib w.service.pipeline.cache_size w1 ≡ (ok soil, w2)
      → let cache = w.service.memory_cache in
        let cache' = (process_historical lib w).1.service.memory_cache in
        ((process_historical lib w).0 ≡ ok tt)
        × (Memory.snapshot cache' historical_environment
            ≡ last cache.capacity (Memory.snapshot cache historical_environment ++ env))
        × (Memory.snapshot cache' historical_soil
            ≡ last cache.capacity (Memory.snapshot cache historical_soil ++ soil))
        × (Memory.snapshot cache' realtime ≡ Memory.snapshot cache realtime)
  unfolding stored
  process_historical_stores env soil w w1 w2 memory bounded first second =
      let cache = w.service.memory_cache in
      let between = store_all cache historical_environment env in
      let at : TelemetryChannel → TelemetryCache W → List (TelemetryReading W) =
        λ c m. Memory.snapshot m c in
      let done = process_historical-memory env soil w w1 w2 memory first second in
      (
        done.0,
        ap (at historical_environment) done.1
            ∙ snapshot-store_all_other between historical_soil historical_environment soil refl
            ∙ snapshot-store_all cache historical_environment env bounded,
        ap (at historical_soil) done.1
            ∙ snapshot-store_all between historical_soil soil
                (store_all-IsBounded cache historical_environment env bounded)
            ∙ ap₂ (λ (n : ℕ) (rs : List (TelemetryReading W)). last n (rs ++ soil))
                (store_all-capacity cache historical_environment env)
                (snapshot-store_all_other cache historical_environment historical_soil env refl),
        ap (at realtime) done.1
            ∙ snapshot-store_all_other between historical_soil realtime soil refl
            ∙ snapshot-store_all_other cache historical_environment realtime env refl,
      )
