-- ===== src/Tests/Commands.antt =====
-- The commands of several clients at concrete inputs.
use aqua_regulator_server.Base.{ℕ, ◌≡◌, some, List, [], codes}
use aqua_regulator_server.Router.{Server}
use aqua_regulator_server.Router.Touches.{Confined}
use aqua_regulator_server.Router.Writers.{
  Writers, threshold_writes, Reach, register, begun, two, thresholds_mix,
}
use aqua_regulator_server.Tests.Sim.{Outside, world}

-- A server in which connection 3 has sent the start of a line.
abbrev half : Server Outside ℕ
half = record { world = world (some 1); buffers = λ k. codes "ab" }

abbrev commands : ℕ → List (ℕ × ℕ)
commands = two (threshold_writes 1 2 3 4) (threshold_writes 5 6 7 8)

thresholds_mix_example :
    (e : Writers) × Reach (begun commands) e
    × ((i : ℕ) → e.pending i ≡ [])
    × (register 10 e.written ≡ some 5)
    × (register 11 e.written ≡ some 2)
    × (register 12 e.written ≡ some 3)
    × (register 13 e.written ≡ some 4)
thresholds_mix_example = thresholds_mix 1 2 3 4 5 6 7 8
