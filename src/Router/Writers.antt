-- ===== src/Router/Writers.antt =====
-- transport/sensor_data_settings.hpp over infrastructure/sensors/sensor_data.hpp: commands of several
-- clients at a time. HPSocket calls `OnReceive` for different connections on different worker threads;
-- the mutex of the gateway covers one `writeRegister`, and a command makes several.
use aqua_regulator_server.Base.{
  ℕ, ◌≡◌, refl, Option, none, some, List, [], ◌∷◌, ◌++◌, ◌==◌, if◌then◌else◌, ◌⊎◌, inl, inr, arith,
}

-- The writes that each worker has left, and those made, with their registers and values.
pub record Writers : Type 0 where
  pub pending : ℕ → List (ℕ × ℕ)
  pub written : List (ℕ × ℕ)

-- The four writes of `handleThreshold`.
unfoldable pub threshold_writes : ℕ → ℕ → ℕ → ℕ → List (ℕ × ℕ)
threshold_writes soil rain temp light = (10, soil) ∷ (11, rain) ∷ (12, temp) ∷ (13, light) ∷ []

abbrev pub put : (ℕ → List (ℕ × ℕ)) → ℕ → List (ℕ × ℕ) → ℕ → List (ℕ × ℕ)
put pending i ws j = if j == i then ws else pending j

-- A worker makes its next `writeRegister`. Without a connection, or where the device does not take it, the
-- write is lost, and the worker goes on to its next one.
pub data Step (s t : Writers) : Type 0 where
  write_register :
      (i : ℕ) (x : ℕ × ℕ) (rest : List (ℕ × ℕ))
      → s.pending i ≡ x ∷ rest
      → t ≡ record { pending = put s.pending i rest; written = s.written ++ (x ∷ []) }
      → Step s t
  write_lost :
      (i : ℕ) (x : ℕ × ℕ) (rest : List (ℕ × ℕ))
      → s.pending i ≡ x ∷ rest
      → t ≡ record { pending = put s.pending i rest; written = s.written }
      → Step s t

pub data Reach (s : Writers) : Writers → Type 0 where
  here : Reach s s
  next : {t u : Writers} → Reach s t → Step t u → Reach s u

-- What a register holds behind the writes.
abbrev pub register : ℕ → List (ℕ × ℕ) → Option ℕ
register a [] = none
register a ((b, v) ∷ ws) = elim (register a ws) [
  | some u ↦ some u
  | none ↦ if b == a then some v else none
]

abbrev pub begun : (ℕ → List (ℕ × ℕ)) → Writers
begun commands = record { pending = commands; written = [] }

List-cases : {A : Type 0} (xs : List A) → (xs ≡ []) ⊎ ((x : A) × (rest : List A) × (xs ≡ x ∷ rest))
List-cases [] = inl refl
List-cases (x ∷ xs) = inr (x, xs, refl)

-- The workers in the order of a schedule.
unfoldable turn : ℕ → Writers → Writers
turn i s = elim (s.pending i) [
  | [] ↦ s
  | x ∷ rest ↦ record { pending = put s.pending i rest; written = s.written ++ (x ∷ []) }
]

unfoldable turns : List ℕ → Writers → Writers
unfolding turn
turns [] s = s
turns (i ∷ is) s = turns is (turn i s)

turn-Reach : (i : ℕ) {r s : Writers} → Reach r s → Reach r (turn i s)
unfolding turn
turn-Reach i {r} {s} run = elim (List-cases (s.pending i)) [
  | inl e ↦ rw (e, turn) run
  | inr (x, rest, e) ↦ rw (e, turn) (next run (write_register i x rest e refl))
]

turns-Reach : (is : List ℕ) {r s : Writers} → Reach r s → Reach r (turns is s)
unfolding turns
turns-Reach [] run = run
turns-Reach (i ∷ is) run = turns-Reach is (turn-Reach i run)

-- Two clients send a threshold command each.
abbrev pub two : List (ℕ × ℕ) → List (ℕ × ℕ) → ℕ → List (ℕ × ℕ)
two first second = put (put (λ i. []) 0 first) 1 second

-- The thresholds of two commands may mix: for any two threshold commands there is an order of their
-- writes, each command's own in its order, behind which all are done and the device holds the soil
-- threshold of the one and the rain, temperature and light thresholds of the other.
pub thresholds_mix :
    (s r t l s' r' t' l' : ℕ)
    → (e : Writers) × Reach
        (begun (two (threshold_writes s r t l) (threshold_writes s' r' t' l')))
        e
      × ((i : ℕ) → e.pending i ≡ [])
      × (register 10 e.written ≡ some s')
      × (register 11 e.written ≡ some r)
      × (register 12 e.written ≡ some t)
      × (register 13 e.written ≡ some l)
unfolding threshold_writes turns
thresholds_mix s r t l s' r' t' l' =
    let start = begun (two (threshold_writes s r t l) (threshold_writes s' r' t' l')) in
    let schedule = 0 ∷ 1 ∷ 1 ∷ 1 ∷ 1 ∷ 0 ∷ 0 ∷ 0 ∷ [] in
    (turns schedule start, turns-Reach schedule here, (λ i. ground arith), refl, refl, refl, refl)
