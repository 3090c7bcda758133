-- ===== src/Locks/Progress.antt =====
-- Any run of the threads can go on until all their operations are made: no thread waits for a mutex in vain.
use aqua_regulator_server.Base.{
  ℕ, zero, suc, ◌<◌, ◌≡◌, refl, sym, ◌∙◌, ap, subst, true, false, List, [], ◌∷◌, ◌++◌, ◌==◌, ◌⊎◌,
  inl, inr, All, map, if◌then◌else◌, ltb, Bool-cases, ==_iff, arith, length, ◌+◌,
}
use aqua_regulator_server.Base.Members.{In}
use aqua_regulator_server.Locks.{
  Mutex, Action, lock, unlock, Operation, Thread, begun, number, has, taken, Turn, locks, unlocks,
  Step, turn, Reach, here, next,
}
use aqua_regulator_server.Locks.Order.{
  level, Ordered, AllOrdered, Reach-AllOrdered, begun-AllOrdered,
}

In-split :
    {A : Type 0} (x : A) (xs : List A)
    → In x xs
    → (left : List A) × (right : List A) × (xs ≡ left ++ x ∷ right)
In-split x [] h = elim h [ ]
In-split x (y ∷ xs) (inl e) = ([], xs, ap (λ z. z ∷ xs) (sym e))
In-split x (y ∷ xs) (inr m) =
    let found = In-split x xs m in (y ∷ found.0, found.1, ap (λ zs. y ∷ zs) found.2)

-- Whoever holds a mutex is one of the threads.
taken-In :
    (m : Mutex) (s : List Thread) → taken m s ≡ true → (x : Thread) × In x s × (has m x.held ≡ true)
taken-In m [] h = cc
taken-In m (x ∷ xs) h = elim (Bool-cases (has m x.held)) [
  | inl e ↦ (x, inl refl, e)
  | inr e ↦ let found = taken-In m xs (rw e at h) in (found.0, inr found.1, found.2)
]

-- What is locked below all that is held is below each of it.
below-level :
    (k : ℕ) (m : Mutex) (hs : List Mutex)
    → has m hs ≡ true
    → All (λ h. k < level h) hs
    → k < level m
below-level k m [] h all = cc
below-level k m (h ∷ hs) found all = elim (Bool-cases (number m == number h)) [
  | inl e ↦ subst (λ n. k < (if ltb n 3 then 1 else 0)) (sym ((==_iff _ _).0 e)) all.0
  | inr e ↦ below-level k m hs (rw e at found) all.1
]

todo-cases :
    (todo : List Action)
    → (todo ≡ [])
      ⊎ (((m : Mutex) × (after : List Action) × (todo ≡ lock m ∷ after))
          ⊎ ((m : Mutex) × (after : List Action) × (todo ≡ unlock m ∷ after)))
todo-cases [] = inl refl
todo-cases (lock m ∷ after) = inr (inl (m, after, refl))
todo-cases (unlock m ∷ after) = inr (inr (m, after, refl))

abbrev pub Finished : List Thread → Type 0
Finished s = (x : Thread) → In x s → x.todo ≡ []

GoesOn : List Thread → Type 0
GoesOn s = (t : List Thread) × Step s t

module _ (s : List Thread) (ordered : AllOrdered s) where
  takes-Turn : (x y : Thread) → In x s → Turn s x y → GoesOn s
  unfolding GoesOn
  takes-Turn x y m go =
      let found = In-split x s m in
      (found.0 ++ y ∷ found.1, turn found.0 found.1 x y found.2 go refl)

  -- A thread whose next action is to unlock can do it.
  unlocks_next :
      (x : Thread) (m : Mutex) (after : List Action) → In x s → x.todo ≡ unlock m ∷ after → GoesOn s
  unfolding AllOrdered Ordered
  unlocks_next x m after x_in e =
      let kept = subst (Ordered x.held) e (ordered x x_in) in
      takes-Turn x (record { held = kept.0; todo = after }) x_in
        (unlocks m after kept.0 e kept.1 refl)

  Waits : ℕ → Type 0
  Waits k =
      (x : Thread) × (m : Mutex) × (after : List Action) × In x s
      × (x.todo ≡ lock m ∷ after)
      × (level m < k)

  -- The holder of a mutex can go on, or waits for a mutex of a lower level.
  holder : (m : Mutex) → taken m s ≡ true → GoesOn s ⊎ Waits (level m)
  unfolding AllOrdered Ordered Waits
  holder m held =
      let found = taken-In m s held in
      let x = found.0 in
      let kept = ordered x found.1 in
      elim (todo-cases x.todo) [
        | inl e ↦
            let empty : true ≡ false = sym found.2 ∙ ap (has m) (subst (Ordered x.held) e kept) in
            cc
        | inr r ↦ elim r [
          | inl w ↦ inr (
            x,
            w.0,
            w.1,
            found.1,
            w.2,
            below-level (level w.0) m x.held found.2 (subst (Ordered x.held) w.2 kept).0,
          )
          | inr w ↦ inl (unlocks_next x w.0 w.1 found.1 w.2)
        ]
      ]

  -- Where one thread waits for a mutex, some thread can go on: the one that holds it, or else one that
  -- the holder waits for, whose mutex is on a lower level.
  waiter : (k : ℕ) → Waits k → GoesOn s
  unfolding Waits
  waiter zero (x, m, after, x_in, e, l) = absurd (omega (arith, l))
  waiter (suc k) (x, m, after, x_in, e, l) = elim (Bool-cases (taken m s)) [
    | inr free ↦
        takes-Turn x (record { held = m ∷ x.held; todo = after }) x_in (locks m after e free refl)
    | inl held ↦ elim (holder m held) [
      | inl go ↦ go
      | inr w ↦ waiter k (w.0, w.1, w.2, w.3, w.4, omega (arith, l, w.5))
    ]
  ]

  goes_on : (xs : List Thread) → ((x : Thread) → In x xs → In x s) → Finished xs ⊎ GoesOn s
  unfolding Waits
  goes_on [] among = inl (λ x m. absurd m)
  goes_on (x ∷ xs) among = elim (todo-cases x.todo) [
    | inl e ↦ elim (goes_on xs (λ y m. among y (inr m))) [
      | inl f ↦ inl (λ y m. elim m [ inl same ↦ ap (λ z. z.todo) same ∙ e | inr n ↦ f y n ])
      | inr go ↦ inr go
    ]
    | inr r ↦ elim r [
      | inl w ↦ inr (waiter (suc (level w.0)) (x, w.0, w.1, among x (inl refl), w.2, omega arith))
      | inr w ↦ inr (unlocks_next x w.0 w.1 (among x (inl refl)) w.2)
    ]
  ]

-- The actions that are left to all threads.
abbrev pub left_over : List Thread → ℕ
left_over [] = 0
left_over (x ∷ xs) = let rest = left_over xs in length x.todo + rest

abbrev pub steps : {s t : List Thread} → Reach s t → ℕ
steps here = 0
steps (next r go) = suc (steps r)

Turn-length :
    {all : List Thread} {x y : Thread} → Turn all x y → length x.todo ≡ suc (length y.todo)
Turn-length (locks m after e free to) = rw (to, e) refl
Turn-length (unlocks m after hs e top to) = rw (to, e) refl

left_over-put :
    (left right : List Thread) (x y : Thread)
    → length x.todo ≡ suc (length y.todo)
    → left_over (left ++ x ∷ right) ≡ suc (left_over (left ++ y ∷ right))
left_over-put [] right x y h = omega (arith, h)
left_over-put (z ∷ left) right x y h = omega (arith, left_over-put left right x y h)

left_over-Step : {s t : List Thread} → Step s t → left_over s ≡ suc (left_over t)
left_over-Step (turn left right x y from go to) =
    ap left_over from
    ∙ left_over-put left right x y (Turn-length go)
    ∙ ap (λ u. suc (left_over u)) (sym to)

steps-left_over : {s t : List Thread} (r : Reach s t) → steps r + left_over t ≡ left_over s
steps-left_over here = omega arith
steps-left_over (next r go) = omega (arith, steps-left_over r, left_over-Step go)

-- Any number of threads, each with any operations to make one after the other, in any interleaving of
-- their locks and unlocks: at every point all threads are done or one of them can go on, and the steps
-- made and the actions left are together the actions of all operations, so that each run ends, with all
-- operations made.
pub never_deadlocked :
    (programs : List (List Operation)) (s : List Thread) (r : Reach (map begun programs) s)
    → (Finished s ⊎ ((t : List Thread) × Step s t))
      × (steps r + left_over s ≡ left_over (map begun programs))
unfolding GoesOn
never_deadlocked programs s r =
    (goes_on s (Reach-AllOrdered r (begun-AllOrdered programs)) s (λ x m. m), steps-left_over r)
