-- ===== src/Service/Pacing/Loads.antt =====
-- services/data_manager_redis.hpp, `runLoop`: how often the historical data are loaded.
use aqua_regulator_server.Base.{
  ℕ, zero, suc, ◌+◌, ◌*◌, ◌≤◌, ◌≡◌, Bool, true, false, refl, List, [], ◌∷◌, ok, err, Result-cases,
  inl, inr, if◌then◌else◌, Bool-cases, seconds, arith,
}
use aqua_regulator_server.Base.Int.{ℤ, pos_part, neg_part, le_sub}
use aqua_regulator_server.Platform.{Platform}
use aqua_regulator_server.Service
use aqua_regulator_server.Service.Pacing.{IsForward}
use aqua_regulator_server.Service.Pacing.Rounds.{
  process_realtime-Forward, process_historical-Forward, round-Forward, sleep_rest-Forward,
}
use aqua_regulator_server.World.{World}

module _ {E W J : Type 0} (lib : Platform E W J) where
  -- Where a round makes its test for the historical data, and the outcome.
  abbrev pub at_test : World E W → World E W
  at_test w = (Service.process_realtime lib (record w { env = (lib.clock.steady_now w.env).1 })).1

  abbrev pub loads_now : ℤ → World E W → Bool
  loads_now last w =
      le_sub (seconds (at_test w).service.pipeline.historical_interval_seconds)
        (lib.clock.steady_now (at_test w).env).0 last

  -- How many of `n` rounds find the test true, up to one that an exception ends, and in which.
  unfoldable loads : ℕ → ℤ → World E W → ℕ
  loads zero last w = 0
  loads (suc n) last w = (if loads_now last w then 1 else 0) + elim (Service.round lib last w).0 [
    | ok last' ↦ loads n last' (Service.round lib last w).1
    | err what ↦ 0
  ]

  unfoldable tests : ℕ → ℤ → World E W → List Bool
  tests zero last w = []
  tests (suc n) last w = loads_now last w ∷ elim (Service.round lib last w).0 [
    | ok last' ↦ tests n last' (Service.round lib last w).1
    | err what ↦ []
  ]

  -- A round whose second half, from `v` on, loads the historical data, and one whose second half reads
  -- the clock and does nothing else.
  abbrev pub LoadsAt : Bool → ℤ → World E W → Type 0
  LoadsAt true last v =
      let done =
        Service.process_historical lib (record v { env = (lib.clock.steady_now v.env).1 }) in
      (Service.historical_if_due lib last v).1 ≡ elim done.0 [
        | ok u ↦ record (done.1) { env = (lib.clock.steady_now done.1.env).1 }
        | err what ↦ done.1
      ]
  LoadsAt false last v =
      (Service.historical_if_due lib last v).1 ≡ record v { env = (lib.clock.steady_now v.env).1 }

  -- Which of `n` rounds load, and which do not.
  abbrev pub Loading : List Bool → ℕ → ℤ → World E W → Type 0
  Loading bs zero last w = bs ≡ []
  Loading [] (suc n) last w = ⊥
  Loading (b ∷ bs) (suc n) last w =
      LoadsAt b last (at_test w) × elim (Service.round lib last w).0 as (λ _. Type 0) [
        | ok last' ↦ Loading bs n last' (Service.round lib last w).1
        | err what ↦ bs ≡ []
      ]

  abbrev pub count : List Bool → ℕ
  count [] = 0
  count (b ∷ bs) = let rest = count bs in (if b then 1 else 0) + rest

  test-LoadsAt : (last : ℤ) (w : World E W) → LoadsAt (loads_now last w) last (at_test w)
  unfolding Service.historical_if_due
  test-LoadsAt last w =
      let v = at_test w in
      let done =
        Service.process_historical lib (record v { env = (lib.clock.steady_now v.env).1 }) in
      elim (Bool-cases (loads_now last w)) [
        | inl e ↦ rw e (
            rw e (elim (Result-cases done.0) [
              | inl (u, k) ↦ ground arith
              | inr (what, k) ↦ ground arith
            ]))
        | inr e ↦ rw e (rw e refl)
      ]

  tests-Loading : (n : ℕ) (last : ℤ) (w : World E W) → Loading (tests n last w) n last w
  unfolding tests
  tests-Loading zero last w = refl
  tests-Loading (suc n) last w = elim (Result-cases (Service.round lib last w).0) [
    | inl (last', e) ↦
        rw (e, tests)
          (test-LoadsAt last w, rw e (tests-Loading n last' (Service.round lib last w).1))
    | inr (what, e) ↦ rw (e, tests) (test-LoadsAt last w, rw e refl)
  ]

  count-tests : (n : ℕ) (last : ℤ) (w : World E W) → count (tests n last w) ≡ loads n last w
  unfolding tests loads
  count-tests zero last w = refl
  count-tests (suc n) last w = elim (Result-cases (Service.round lib last w).0) [
    | inl (last', e) ↦
        let rest = count-tests n last' (Service.round lib last w).1 in ground (arith, rest)
    | inr (what, e) ↦ ground arith
  ]

  loads_due :
      (n : ℕ) (last : ℤ) (w : World E W) → loads_now last w ≡ true → 1 ≤ loads (suc n) last w
  unfolding loads
  loads_due n last w h = ground arith

  module _ (time : E → ℕ) (f : IsForward lib time) where
    -- What the test and the load behind it do to `lastHistorical`.
    due_last :
        (last last' : ℤ) (v : World E W)
        → (Service.historical_if_due lib last v).0 ≡ ok last'
        → pos_part last ≤ time v.env + neg_part last
        → let interval = seconds v.service.pipeline.historical_interval_seconds in
          (pos_part last' ≤ time (Service.historical_if_due lib last v).1.env + neg_part last')
          × ((if le_sub interval (lib.clock.steady_now v.env).0 last then 1 else 0) * interval
                + pos_part last
                + neg_part last'
              ≤ pos_part last' + neg_part last)
    unfolding Service.historical_if_due
    due_last last last' v h before =
        let interval = seconds v.service.pipeline.historical_interval_seconds in
        let now = (lib.clock.steady_now v.env).0 in
        let v1 = record v { env = (lib.clock.steady_now v.env).1 } in
        let done = Service.process_historical lib v1 in
        let forward = ((process_historical-Forward lib time f).later v1).0 in
        elim (Bool-cases (le_sub interval now last)) [
          | inl e ↦ elim (Result-cases done.0) [
            | inl (u, k) ↦
                ground (
                  arith,
                  forward,
                  f.reads v.env,
                  f.read v.env,
                  f.reads done.1.env,
                  f.read done.1.env,
                )
            | inr (what, k) ↦ ground arith
          ]
          | inr e ↦ ground (arith, f.reads v.env, f.read v.env)
        ]

    -- What a round does to it.
    round_last :
        (last last' : ℤ) (w : World E W)
        → (Service.round lib last w).0 ≡ ok last'
        → pos_part last ≤ time w.env + neg_part last
        → (pos_part last' ≤ time (Service.round lib last w).1.env + neg_part last')
          × ((if loads_now last w then 1 else 0)
                  * seconds w.service.pipeline.historical_interval_seconds
                + pos_part last
                + neg_part last'
              ≤ pos_part last' + neg_part last)
    unfolding Service.round
    round_last last last' w h before =
        let start = (lib.clock.steady_now w.env).0 in
        let w1 = record w { env = (lib.clock.steady_now w.env).1 } in
        let w2 = (Service.process_realtime lib w1).1 in
        let due = Service.historical_if_due lib last w2 in
        let forward = (process_realtime-Forward lib time f).later w1 in
        let slept = ((sleep_rest-Forward lib time f start).later due.1).0 in
        elim (Result-cases due.0) [
          | inr (what, e) ↦ ground arith
          | inl (last'', e) ↦
              let begun : pos_part last ≤ time w2.env + neg_part last =
                omega (arith, f.reads w.env, f.read w.env, forward.0, before) in
              ground (arith, due_last last last'' w2 e begun, slept, forward.1)
        ]

    rounds_loads :
        (n : ℕ) (last : ℤ) (w : World E W)
        → (Service.rounds lib n last w).0 ≡ ok tt
        → pos_part last ≤ time w.env + neg_part last
        → loads n last w * seconds w.service.pipeline.historical_interval_seconds + pos_part last
          ≤ time (Service.rounds lib n last w).1.env + neg_part last
    unfolding loads Service.rounds
    rounds_loads zero last w h before = ground arith
    rounds_loads (suc n) last w h before =
        let next = Service.round lib last w in
        let same = ((round-Forward lib time f last).later w).1 in
        elim (Result-cases next.0) [
          | inr (what, e) ↦ ground arith
          | inl (last', e) ↦
              let (later, one) = round_last last last' w e before in
              let rest = rounds_loads n last' next.1 (ground arith) later in
              ground (arith, one, rest, same)
        ]

    -- If no library call turns the time back and the steady clock reads it, then in any number of rounds
    -- of `runLoop`, one at least, that no exception ends, the rounds that run `processHistorical` are one
    -- at least, and not more than one and one more for each historical interval that the rounds last,
    -- whatever the device, Redis, the database and the clients do; the second half of every other round
    -- reads the clock and does nothing else.
    pub historical_spaced :
        (n : ℕ) (w : World E W)
        → (Service.run_loop lib (suc n) w).0 ≡ ok tt
        → let first = Service.first_historical lib w in
          let interval = seconds w.service.pipeline.historical_interval_seconds in
          (bs : List Bool) × Loading bs (suc n) first.0 first.1
          × (1 ≤ count bs)
          × (count bs * interval + time w.env
              ≤ time (Service.run_loop lib (suc n) w).1.env + interval)
    unfolding Service.run_loop Service.first_historical
    historical_spaced n w h =
        let first = Service.first_historical lib w in
        let interval = seconds w.service.pipeline.historical_interval_seconds in
        let now = (lib.clock.steady_now w.env).0 in
        let before : pos_part first.0 ≤ time first.1.env + neg_part first.0 =
          ground (arith, f.read w.env) in
        let w1 = record first.1 { env = (lib.clock.steady_now first.1.env).1 } in
        let forward = (process_realtime-Forward lib time f).later w1 in
        let all = rounds_loads (suc n) first.0 first.1 h before in
        let due : loads_now first.0 first.1 ≡ true = ground (
          arith,
          f.reads w.env,
          f.read w.env,
          f.read first.1.env,
          f.reads first.1.env,
          f.reads (at_test first.1).env,
          forward,
        ) in
        let same = count-tests (suc n) first.0 first.1 in
        (
          tests (suc n) first.0 first.1,
          tests-Loading (suc n) first.0 first.1,
          rw same (loads_due n first.0 first.1 due),
          rw same (ground (arith, all, f.reads w.env)),
        )
