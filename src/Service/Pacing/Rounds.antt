-- ===== src/Service/Pacing/Rounds.antt =====
-- services/data_manager_redis.hpp, `runLoop`: how far apart the rounds are.
use aqua_regulator_server.Base.{
  zero, suc, ◌*◌, Result-cases, is_empty, ◌-◌, true, false, [], ◌∷◌, inl, inr, ℕ, ◌+◌, ◌≤◌, ◌≡◌,
  ◌∙◌, refl, List, ok, seconds, arith,
}
use aqua_regulator_server.Base.Int.{ℤ, pos, le_sub}
use aqua_regulator_server.Platform.{Platform}
use aqua_regulator_server.Database
use aqua_regulator_server.Domain.{
  TelemetryChannel, realtime, historical_environment, historical_soil, TelemetryReading,
}
use aqua_regulator_server.Cache.Memory
use aqua_regulator_server.Router.{has_subscribers}
use aqua_regulator_server.Service
use aqua_regulator_server.World.{World, TelemetryCache}
use aqua_regulator_server.Service.Pacing.{IsForward, Forward, Later-IsPreorder}
use aqua_regulator_server.World.Keeps.{
  pure-Keeps, gets-Keeps, bind-Keeps, if-Keeps, option-Keeps, bind_throwing-Keeps, lift-Keeps,
  for_each-Keeps,
}
use aqua_regulator_server.Service.Pacing.Device.{
  publish-Forward, read_realtime-Forward, tick-Forward, update-Forward,
}
use aqua_regulator_server.Service.Pacing.Tables.{load-Forward}
use aqua_regulator_server.Service.Pacing.Lists.{store-Forward}

module _ {E W J : Type 0} (lib : Platform E W J) (time : E → ℕ) (f : IsForward lib time) where
  set_memory_cache-Forward : (c : TelemetryCache W) → Forward time (Service.set_memory_cache lib c)
  unfolding Service.set_memory_cache
  set_memory_cache-Forward c = record { later = λ w. (omega arith, refl) }

  store_to_cache-Forward :
      (c : TelemetryChannel) (r : TelemetryReading W)
      → Forward time (Service.store_to_cache lib c r)
  unfolding Service.store_to_cache
  store_to_cache-Forward c r =
      (bind-Keeps (Later-IsPreorder time)) ((gets-Keeps (Later-IsPreorder time)) (λ w. w.service))
        λ s.
          if-Keeps s.use_redis ((store-Forward lib time f) s.pipeline.cache_size c r)
            (set_memory_cache-Forward (Memory.store s.memory_cache c r))

  next_id-Forward : Forward time (Service.next_correlation_id lib)
  unfolding Service.next_correlation_id
  next_id-Forward = record { later = λ w. (omega arith, refl) }

  build_frame-Forward :
      (c : TelemetryChannel) (rs : List (TelemetryReading W))
      → Forward time (Service.build_frame lib c rs)
  unfolding Service.build_frame
  build_frame-Forward c rs = (bind-Keeps (Later-IsPreorder time)) next_id-Forward λ id.
      (pure-Keeps (Later-IsPreorder time))
        (record { channel = c; readings = rs; snapshot = true; correlation_id = id })

  publish_realtime-Forward :
      (r : TelemetryReading W) → Forward time (Service.publish_realtime lib r)
  unfolding Service.publish_realtime
  publish_realtime-Forward r =
      (bind-Keeps (Later-IsPreorder time))
        ((gets-Keeps (Later-IsPreorder time)) (has_subscribers lib))
        λ subscribed.
          if-Keeps subscribed
            ((bind-Keeps (Later-IsPreorder time)) next_id-Forward λ id.
              (publish-Forward lib time f) (record {
                channel = realtime;
                readings = r ∷ [];
                snapshot = false;
                correlation_id = id;
              }))
            ((pure-Keeps (Later-IsPreorder time)) tt)

  pub process_realtime-Forward : Forward time (Service.process_realtime lib)
  unfolding Service.process_realtime
  process_realtime-Forward =
      (bind-Keeps (Later-IsPreorder time)) (read_realtime-Forward lib time f) λ read.
        option-Keeps read
          ((update-Forward lib time f) "telemetry_service" false "Realtime read failed")
          λ r. (bind-Keeps (Later-IsPreorder time)) (store_to_cache-Forward realtime r) λ _.
            (bind-Keeps (Later-IsPreorder time)) (publish_realtime-Forward r)
              λ _. (update-Forward lib time f) "telemetry_service" true "Realtime frame published"

  publish_loaded-Forward :
      (c : TelemetryChannel) (rs : List (TelemetryReading W))
      → Forward time (Service.publish_loaded lib c rs)
  unfolding Service.publish_loaded
  publish_loaded-Forward c rs =
      if-Keeps (is_empty rs) ((pure-Keeps (Later-IsPreorder time)) tt) (
        (bind-Keeps (Later-IsPreorder time)) (build_frame-Forward c rs)
          (publish-Forward lib time f))

  publish_historical-Forward :
      (env soil : List (TelemetryReading W))
      → Forward time (Service.publish_historical lib env soil)
  unfolding Service.publish_historical
  publish_historical-Forward env soil =
      (bind-Keeps (Later-IsPreorder time))
        ((gets-Keeps (Later-IsPreorder time)) (has_subscribers lib))
        λ subscribed.
          if-Keeps subscribed
            ((bind-Keeps (Later-IsPreorder time))
              (publish_loaded-Forward historical_environment env)
              λ _. publish_loaded-Forward historical_soil soil)
            ((pure-Keeps (Later-IsPreorder time)) tt)

  load_environmental-Forward : (n : ℕ) → Forward time (Database.load_environmental lib n)
  unfolding Database.load_environmental
  load_environmental-Forward n = record { later = λ w. ((load-Forward lib time f) _ _).later w }

  load_soil_and_air-Forward : (n : ℕ) → Forward time (Database.load_soil_and_air lib n)
  unfolding Database.load_soil_and_air
  load_soil_and_air-Forward n = record { later = λ w. ((load-Forward lib time f) _ _).later w }

  pub process_historical-Forward : Forward time (Service.process_historical lib)
  unfolding Service.process_historical
  process_historical-Forward = record {
    later = λ w.
        ((bind_throwing-Keeps (Later-IsPreorder time))
            (load_environmental-Forward w.service.pipeline.cache_size)
            λ env.
              (bind_throwing-Keeps (Later-IsPreorder time))
                (load_soil_and_air-Forward w.service.pipeline.cache_size)
                λ soil. lift-Keeps (
                  (bind-Keeps (Later-IsPreorder time))
                    ((for_each-Keeps (Later-IsPreorder time))
                      (store_to_cache-Forward historical_environment) env)
                    λ _.
                      (bind-Keeps (Later-IsPreorder time))
                        ((for_each-Keeps (Later-IsPreorder time))
                          (store_to_cache-Forward historical_soil) soil)
                        λ _.
                          (bind-Keeps (Later-IsPreorder time)) (publish_historical-Forward env soil)
                            λ _.
                              (update-Forward lib time f) "telemetry_service" true
                                "Historical frame published")).later
          w;
  }

  pub historical_if_due-Forward : (last : ℤ) → Forward time (Service.historical_if_due lib last)
  unfolding Service.historical_if_due
  historical_if_due-Forward last =
      (bind-Keeps (Later-IsPreorder time))
        ((gets-Keeps (Later-IsPreorder time))
          (λ w. seconds w.service.pipeline.historical_interval_seconds))
        λ interval. (bind-Keeps (Later-IsPreorder time)) (tick-Forward lib time f) λ now.
          if-Keeps (le_sub interval now last)
            ((bind_throwing-Keeps (Later-IsPreorder time)) process_historical-Forward λ _.
              lift-Keeps (
                (bind-Keeps (Later-IsPreorder time)) (tick-Forward lib time f)
                  λ t. (pure-Keeps (Later-IsPreorder time)) (pos t)))
            (lift-Keeps ((pure-Keeps (Later-IsPreorder time)) last))

  -- What is left of the interval is slept out.
  sleep_rest_lasting :
      (start : ℕ) (w : World E W)
      → start ≤ time w.env
      → start + seconds w.service.pipeline.realtime_interval_seconds
        ≤ time (Service.sleep_rest lib start w).1.env
  unfolding Service.sleep_rest
  sleep_rest_lasting start w le =
      let now = (lib.clock.steady_now w.env).0 in
      let e = (lib.clock.steady_now w.env).1 in
      let rest = seconds w.service.pipeline.realtime_interval_seconds - (now - start) in
      ground (arith, f.reads w.env, f.read w.env, f.sleeps rest e)

  pub sleep_rest-Forward : (start : ℕ) → Forward time (Service.sleep_rest lib start)
  unfolding Service.sleep_rest
  sleep_rest-Forward start = record {
    later = λ w.
        let now = (lib.clock.steady_now w.env).0 in
        let e = (lib.clock.steady_now w.env).1 in
        let rest = seconds w.service.pipeline.realtime_interval_seconds - (now - start) in
        ground (arith, f.reads w.env, f.read w.env, f.sleeps rest e);
  }

  pub round-Forward : (last : ℤ) → Forward time (Service.round lib last)
  unfolding Service.round
  round-Forward last = (bind-Keeps (Later-IsPreorder time)) (tick-Forward lib time f) λ start.
      (bind-Keeps (Later-IsPreorder time)) process_realtime-Forward λ _.
        (bind_throwing-Keeps (Later-IsPreorder time)) (historical_if_due-Forward last) λ last'.
          lift-Keeps (
            (bind-Keeps (Later-IsPreorder time)) (sleep_rest-Forward start)
              λ _. (pure-Keeps (Later-IsPreorder time)) last')

  round_lasting :
      (last last' : ℤ) (w : World E W)
      → (Service.round lib last w).0 ≡ ok last'
      → time w.env + seconds w.service.pipeline.realtime_interval_seconds
        ≤ time (Service.round lib last w).1.env
  unfolding Service.round
  round_lasting last last' w h =
      let start = (lib.clock.steady_now w.env).0 in
      let w1 = record w { env = (lib.clock.steady_now w.env).1 } in
      let w2 = (Service.process_realtime lib w1).1 in
      let w3 = (Service.historical_if_due lib last w2).1 in
      let one = process_realtime-Forward.later w1 in
      let two = (historical_if_due-Forward last).later w2 in
      let begun : start ≤ time w3.env = omega (arith, f.read w.env, one.0, two.0) in
      let same : w3.service.pipeline ≡ w.service.pipeline = two.1 ∙ one.1 in
      ground (arith, f.reads w.env, same, sleep_rest_lasting start w3 begun)

  rounds_lasting :
      (n : ℕ) (last : ℤ) (w : World E W)
      → (Service.rounds lib n last w).0 ≡ ok tt
      → time w.env + n * seconds w.service.pipeline.realtime_interval_seconds
        ≤ time (Service.rounds lib n last w).1.env
  unfolding Service.rounds
  rounds_lasting zero last w h = ground arith
  rounds_lasting (suc n) last w h =
      let next = Service.round lib last w in
      let same : next.1.service.pipeline ≡ w.service.pipeline = ((round-Forward last).later w).1 in
      elim (Result-cases next.0) [
        | inr (what, e) ↦ ground arith
        | inl (last', e) ↦
            let rest = rounds_lasting n last' next.1 (ground arith) in
            ground (arith, round_lasting last last' w e, rest, same)
      ]

  -- If no library call turns the time back, the steady clock reads it and a sleep lasts at least as long
  -- as asked, then any number of rounds of `runLoop` that no exception ends take at least as many realtime
  -- intervals, whatever the device, Redis, the database and the clients do: the device is not sampled more
  -- often.
  pub run_loop_paced :
      (n : ℕ) (w : World E W)
      → (Service.run_loop lib n w).0 ≡ ok tt
      → time w.env + n * seconds w.service.pipeline.realtime_interval_seconds
        ≤ time (Service.run_loop lib n w).1.env
  unfolding Service.run_loop Service.first_historical
  run_loop_paced n w h =
      let first = Service.first_historical lib w in
      let started : time w.env ≤ time first.1.env = omega (arith, f.reads w.env, f.read w.env) in
      omega (arith, rounds_lasting n first.0 first.1 h, started)
