-- ===== src/Service/Live/Ends.antt =====
-- services/data_manager_redis.hpp and transport/tcp_data_sender.hpp: a round and a callback end, whatever
-- the other threads do between their steps.
use aqua_regulator_server.Base.{
  ℕ, ◌+◌, ◌*◌, ◌-◌, ◌≤◌, ◌≡◌, refl, Bool, true, false, List, [], ◌∷◌, ◌++◌, length, All, arith,
}
use aqua_regulator_server.Domain.{TelemetryFrame}
use aqua_regulator_server.Service.Live.{
  Shared, Batch, At, idle, storing, numbering, publishing, copying, sending, listing, reading,
  stamping, unlisting, proceed, advance,
}

-- `k` for each of some things.
abbrev cost : {A : Type 0} → ℕ → List A → ℕ
cost k [] = 0
cost k (x ∷ xs) = k + cost k xs

cost-snoc : {A : Type 0} (k : ℕ) (xs : List A) (x : A) → cost k (xs ++ x ∷ []) ≡ cost k xs + k
cost-snoc k [] x = omega arith
cost-snoc k (y ∷ xs) x = omega (arith, cost-snoc k xs x)

module _ {W : Type 0} where
  -- How many steps a thread makes at most until it is idle, with at most `n` connections listed.
  abbrev pub left : ℕ → At W → ℕ
  left n idle = 0
  left n (storing items bs) = length items + cost (n + 4) bs + 2
  left n (numbering bs) = cost (n + 4) bs + 1
  left n (publishing f fs bs) = n + 3 + cost (n + 3) fs + cost (n + 4) bs + 1
  left n (copying f fs bs) = n + 2 + cost (n + 3) fs + cost (n + 4) bs + 1
  left n (sending ids f fs bs) = length ids + 1 + cost (n + 3) fs + cost (n + 4) bs + 1
  left n (listing j) = 3 * (n + 5) + 3
  left n (reading cs fs) = cost (n + 5) cs + cost (n + 3) fs + 2
  left n (stamping d rs cs fs) = cost (n + 5) cs + cost (n + 3) fs + n + 6
  left n (unlisting j) = 1

  proceed-left :
      (n : ℕ) (fs : List (TelemetryFrame W)) (bs : List (Batch W))
      → left n (proceed fs bs) ≡ cost (n + 3) fs + cost (n + 4) bs + 1
  unfolding proceed
  proceed-left n [] bs = omega arith
  proceed-left n (f ∷ fs) bs = omega arith

  advance-left :
      (n : ℕ) (b : Bool) (p : At W) (s : Shared W)
      → length s.conn_ids ≤ n
      → left n (advance b p s).0 ≤ left n p - 1
  unfolding advance
  advance-left n b idle s h = omega arith
  advance-left n b (storing (x ∷ items) bs) s h = omega arith
  advance-left n true (storing [] bs) s h = omega arith
  advance-left n false (storing [] bs) s h = omega arith
  advance-left n b (numbering []) s h = omega arith
  advance-left n b (numbering (x ∷ bs)) s h = omega arith
  advance-left n true (publishing f fs bs) s h = omega arith
  advance-left n false (publishing f fs bs) s h = omega (arith, proceed-left n fs bs)
  advance-left n b (copying f fs bs) s h = omega arith
  advance-left n b (sending (j ∷ ids) f fs bs) s h = omega arith
  advance-left n b (sending [] f fs bs) s h = omega (arith, proceed-left n fs bs)
  advance-left n b (listing j) s h = omega arith
  advance-left n b (reading (d ∷ cs) fs) s h = omega arith
  advance-left n b (reading [] fs) s h = omega (arith, proceed-left n fs [])
  advance-left n b (stamping d rs cs fs) s h = omega (arith, cost-snoc (n + 3) fs _)
  advance-left n b (unlisting j) s h = omega arith

  left-none : (n : ℕ) (p : At W) → left n p ≤ 0 → p ≡ idle
  left-none n idle h = refl
  left-none n (storing items bs) h = absurd (omega arith)
  left-none n (numbering bs) h = absurd (omega arith)
  left-none n (publishing f fs bs) h = absurd (omega arith)
  left-none n (copying f fs bs) h = absurd (omega arith)
  left-none n (sending ids f fs bs) h = absurd (omega arith)
  left-none n (listing j) h = absurd (omega arith)
  left-none n (reading cs fs) h = absurd (omega arith)
  left-none n (stamping d rs cs fs) h = absurd (omega arith)
  left-none n (unlisting j) h = absurd (omega arith)

  -- A thread that goes on, with what it finds at each of its steps: the answer of `hasSubscribers` and
  -- the shared state, as the other threads have left it.
  unfoldable pub go : At W → List (Bool × Shared W) → At W
  go p [] = p
  go p ((b, s) ∷ found) = go (advance b p s).0 found

  -- Whatever the other threads do between its steps, a thread that makes `left` steps or more comes to
  -- the end of its round or its callback, if never more than `n` connections are listed: 3 n + 18
  -- steps for `OnAccept`, n + 7 for a round of `processRealtime`, one for `OnClose`.
  pub thread_ends :
      (n : ℕ) (p : At W) (found : List (Bool × Shared W))
      → All (λ x. length x.1.conn_ids ≤ n) found
      → left n p ≤ length found
      → go p found ≡ idle
  unfolding go
  thread_ends n p [] h enough = left-none n p enough
  thread_ends n p ((b, s) ∷ found) h enough =
      thread_ends n (advance b p s).0 found h.1 (omega (arith, advance-left n b p s h.0))
