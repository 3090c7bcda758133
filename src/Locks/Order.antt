-- ===== src/Locks/Order.antt =====
-- The order in which the process takes its mutexes: whoever holds one of the Redis client, the sensor
-- gateway or the video clients asks for one of the others only, and whoever holds one of those asks for none.
use aqua_regulator_server.Base.{
  ℕ, zero, suc, ◌<◌, ◌≡◌, refl, sym, ◌∙◌, ap, subst, List, [], ◌∷◌, inl, inr, All, map,
  if◌then◌else◌, ltb, arith,
}
use aqua_regulator_server.Base.Members.{In, In-append, In-left, In-right}
use aqua_regulator_server.Locks.{
  Mutex, redis_client, sensor_gateway, video_clients, video_queue, Action, lock, unlock, Report,
  log, update, Operation, report, flush_to_disk, use_cache, use_connections, enqueue, use_redis,
  use_sensors, use_clients, relay, relay_stops, reports, waits, actions, program, Thread, begun,
  number, Turn, locks, unlocks, Step, turn, Reach, here, next,
}

abbrev pub level : Mutex → ℕ
level m = if ltb (number m) 3 then 1 else 0

-- What is left locks below what is held, and unlocks all of it, the last one first.
unfoldable pub Ordered : List Mutex → List Action → Type 0
Ordered held [] = held ≡ []
Ordered held (lock m ∷ after) = All (λ h. level m < level h) held × Ordered (m ∷ held) after
Ordered held (unlock m ∷ after) = (hs : List Mutex) × (held ≡ m ∷ hs) × Ordered hs after

reports-Ordered :
    (m : Mutex) (rs : List Report) (after : List Action)
    → level m ≡ 1
    → Ordered (m ∷ []) after
    → Ordered (m ∷ []) (reports rs after)
unfolding reports Ordered
reports-Ordered m [] after l o = o
reports-Ordered m (log ∷ rs) after l o =
    ((omega (arith, l), tt), (m ∷ [], refl, reports-Ordered m rs after l o))
reports-Ordered m (update ∷ rs) after l o =
    ((omega (arith, l), tt), (m ∷ [], refl, reports-Ordered m rs after l o))

waits-Ordered :
    (n : ℕ) (after : List Action)
    → Ordered (video_queue ∷ []) after
    → Ordered (video_queue ∷ []) (waits n after)
unfolding waits Ordered
waits-Ordered zero after o = o
waits-Ordered (suc n) after o = ([], refl, (tt, waits-Ordered n after o))

actions-Ordered :
    (op : Operation) (after : List Action) → Ordered [] after → Ordered [] (actions op after)
unfolding actions reports Ordered
actions-Ordered (report log) after o = (tt, ([], refl, o))
actions-Ordered (report update) after o = (tt, ([], refl, o))
actions-Ordered flush_to_disk after o = (tt, ([], refl, o))
actions-Ordered use_cache after o = (tt, ([], refl, o))
actions-Ordered use_connections after o = (tt, ([], refl, o))
actions-Ordered enqueue after o = (tt, ([], refl, o))
actions-Ordered (use_redis rs) after o = (tt, reports-Ordered redis_client rs _ refl ([], refl, o))
actions-Ordered (use_sensors rs) after o =
    (tt, reports-Ordered sensor_gateway rs _ refl ([], refl, o))
actions-Ordered (use_clients rs) after o =
    (tt, reports-Ordered video_clients rs _ refl ([], refl, o))
actions-Ordered (relay n rs) after o =
    (tt, waits-Ordered n _ ([], refl, (tt, reports-Ordered video_clients rs _ refl ([], refl, o))))
actions-Ordered (relay_stops n) after o = (tt, waits-Ordered n _ ([], refl, o))

program-Ordered : (ops : List Operation) → Ordered [] (program ops)
unfolding program Ordered
program-Ordered [] = refl
program-Ordered (op ∷ ops) = actions-Ordered op (program ops) (program-Ordered ops)

behind : List Mutex → List Mutex
behind [] = []
behind (h ∷ hs) = hs

-- Every thread of the process keeps the order.
unfoldable pub AllOrdered : List Thread → Type 0
AllOrdered s = (x : Thread) → In x s → Ordered x.held x.todo

Turn-Ordered :
    {all : List Thread} {x y : Thread}
    → Turn all x y
    → Ordered x.held x.todo
    → Ordered y.held y.todo
unfolding Ordered behind
Turn-Ordered {all} {x} (locks m after e free to) o =
    let kept = subst (Ordered x.held) e o in rw to kept.1
Turn-Ordered {all} {x} (unlocks m after hs e top to) o =
    let kept = subst (Ordered x.held) e o in
    rw to (subst (λ h. Ordered h after) (ap behind (sym kept.1 ∙ top)) kept.2)

Step-AllOrdered : {s t : List Thread} → Step s t → AllOrdered s → AllOrdered t
unfolding AllOrdered
Step-AllOrdered (turn left right x y from go to) ordered z z_in =
    elim (In-append z left (y ∷ right) (subst (In z) to z_in)) [
      | inl l ↦ ordered z (subst (In z) (sym from) (In-left z left (x ∷ right) l))
      | inr r ↦ elim r [
        | inl e ↦
            subst (λ u. Ordered u.held u.todo) (sym e)
              (Turn-Ordered go (ordered x (subst (In x) (sym from) (In-right x left _ (inl refl)))))
        | inr r ↦ ordered z (subst (In z) (sym from) (In-right z left _ (inr r)))
      ]
    ]

pub Reach-AllOrdered : {s t : List Thread} → Reach s t → AllOrdered s → AllOrdered t
Reach-AllOrdered here o = o
Reach-AllOrdered (next r go) o = Step-AllOrdered go (Reach-AllOrdered r o)

pub begun-AllOrdered : (programs : List (List Operation)) → AllOrdered (map begun programs)
unfolding AllOrdered
begun-AllOrdered [] x m = elim m [ ]
begun-AllOrdered (ops ∷ programs) x m = elim m [
  | inl e ↦ subst (λ u. Ordered u.held u.todo) (sym e) (program-Ordered ops)
  | inr n ↦ begun-AllOrdered programs x n
]
