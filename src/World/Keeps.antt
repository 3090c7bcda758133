-- ===== src/World/Keeps.antt =====
-- How an action changes the world, by a relation that any number of actions keeps: rules for the ways in
-- which the handlers of the components are put together.
use aqua_regulator_server.Base.{
  Bool, true, false, Option, none, some, Result, ok, err, String, List, [], ◌∷◌, if◌then◌else◌,
}
use aqua_regulator_server.World.{
  World, Action, Throwing, pure, gets, call, modify, bind, bind_throwing, try, lift, attempt,
  for_each,
}

pub record IsPreorder {A : Type 0} (R : A → A → Type 0) : Type 0 where
  pub reflexive : (w : A) → R w w
  pub transitive : (w v u : A) → R w v → R v u → R w u

pub record Keeps {E W A : Type 0} (R : World E W → World E W → Type 0) (m : Action E W A)
    : Type 0 where
  pub later : (w : World E W) → R w (m w).1

module _ {E W : Type 0} {R : World E W → World E W → Type 0} (p : IsPreorder R) where
  pub pure-Keeps : {A : Type 0} (a : A) → Keeps R (pure a)
  pure-Keeps a = record { later = λ w. p.reflexive w }

  pub attempt-Keeps : {A : Type 0} (r : Result A) → Keeps R (attempt r)
  attempt-Keeps r = record { later = λ w. p.reflexive w }

  pub gets-Keeps : {A : Type 0} (g : World E W → A) → Keeps R (gets g)
  gets-Keeps g = record { later = λ w. p.reflexive w }

  pub bind-Keeps :
      {A B : Type 0} {m : Action E W A} {f : A → Action E W B}
      → Keeps R m
      → ((a : A) → Keeps R (f a))
      → Keeps R (bind m f)
  bind-Keeps {m = m} {f = f} h k = record {
    later = λ w. p.transitive w (m w).1 _ (h.later w) ((k (m w).0).later (m w).1);
  }

  ok-Keeps :
      {A B : Type 0} (r : Result A) (w : World E W) {f : A → Throwing E W B}
      → ((a : A) → Keeps R (f a))
      → R w (elim r as (λ _. Result B × World E W) [ ok a ↦ f a w | err what ↦ (err what, w) ]).1
  ok-Keeps (ok a) w k = (k a).later w
  ok-Keeps (err what) w k = p.reflexive w

  err-Keeps :
      {A : Type 0} (r : Result A) (w : World E W) {handler : String → Action E W A}
      → ((what : String) → Keeps R (handler what))
      → R w (elim r as (λ _. A × World E W) [ ok a ↦ (a, w) | err what ↦ handler what w ]).1
  err-Keeps (ok a) w k = p.reflexive w
  err-Keeps (err what) w k = (k what).later w

  pub bind_throwing-Keeps :
      {A B : Type 0} {m : Throwing E W A} {f : A → Throwing E W B}
      → Keeps R m
      → ((a : A) → Keeps R (f a))
      → Keeps R (bind_throwing m f)
  bind_throwing-Keeps {m = m} {f = f} h k = record {
    later = λ w. p.transitive w (m w).1 _ (h.later w) (ok-Keeps (m w).0 (m w).1 k);
  }

  pub try-Keeps :
      {A : Type 0} {m : Throwing E W A} {handler : String → Action E W A}
      → Keeps R m
      → ((what : String) → Keeps R (handler what))
      → Keeps R (try m handler)
  try-Keeps {m = m} h k = record {
    later = λ w. p.transitive w (m w).1 _ (h.later w) (err-Keeps (m w).0 (m w).1 k);
  }

  pub for_each-Keeps :
      {A : Type 0} {body : A → Action E W (Unit {0})}
      → ((a : A) → Keeps R (body a))
      → (xs : List A) → Keeps R (for_each body xs)
  for_each-Keeps h [] = record { later = λ w. p.reflexive w }
  for_each-Keeps {body = body} h (x ∷ xs) = record {
    later = λ w.
        p.transitive w (body x w).1 _ ((h x).later w) ((for_each-Keeps h xs).later (body x w).1);
  }

module _ {E W : Type 0} {R : World E W → World E W → Type 0} where
  pub call-Keeps :
      {A : Type 0} (g : E → A × E)
      → ((w : World E W) → R w (record w { env = (g w.env).1 }))
      → Keeps R (call g)
  call-Keeps g h = record { later = h }

  pub modify-Keeps :
      (g : World E W → World E W) → ((w : World E W) → R w (g w)) → Keeps R (modify g)
  modify-Keeps g h = record { later = h }

  pub if-Keeps :
      {A : Type 0} (b : Bool) {m k : Action E W A}
      → Keeps R m
      → Keeps R k
      → Keeps R (if b then m else k)
  if-Keeps true h g = h
  if-Keeps false h g = g

  pub option-Keeps :
      {A B : Type 0} (o : Option A) {m : Action E W B} {f : A → Action E W B}
      → Keeps R m
      → ((a : A) → Keeps R (f a))
      → Keeps R (elim o as (λ _. Action E W B) [ none ↦ m | some a ↦ f a ])
  option-Keeps none h k = h
  option-Keeps (some a) h k = k a

  pub lift-Keeps : {A : Type 0} {m : Action E W A} → Keeps R m → Keeps R (lift m)
  lift-Keeps h = record { later = λ w. h.later w }
