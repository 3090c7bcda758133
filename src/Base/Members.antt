-- ===== src/Base/Members.antt =====
-- What a list holds, by recursion, so that it is taken apart and put together by cases.

use mathlib.Core.Path.{◌≡◌}
use mathlib.Core.Logic.{◌⊎◌, inl, inr}
use mathlib.Core.Bool.{Bool, true, false}
use mathlib.Core.List.{List, [], ◌∷◌, ◌++◌}
use aqua_regulator_server.Base.Lists.{drop}
use aqua_regulator_server.Base.Tests.{if◌then◌else◌}

abbrev pub In : {A : Type 0} → A → List A → Type 0
In x [] = ⊥
In x (y ∷ ys) = (x ≡ y) ⊎ In x ys

module _ {A : Type 0} where
  pub In-left : (x : A) (xs ys : List A) → In x xs → In x (xs ++ ys)
  In-left x [] ys h = elim h [ ]
  In-left x (y ∷ xs) ys h = elim h [ inl e ↦ inl e | inr m ↦ inr (In-left x xs ys m) ]

  pub In-right : (x : A) (xs ys : List A) → In x ys → In x (xs ++ ys)
  In-right x [] ys h = h
  In-right x (y ∷ xs) ys h = inr (In-right x xs ys h)

  pub In-append : (x : A) (xs ys : List A) → In x (xs ++ ys) → In x xs ⊎ In x ys
  In-append x [] ys h = inr h
  In-append x (y ∷ xs) ys h = elim h [
    | inl e ↦ inl (inl e)
    | inr m ↦ elim (In-append x xs ys m) [ inl a ↦ inl (inr a) | inr b ↦ inr b ]
  ]

  pub In-drop_one : (x : A) (xs : List A) → In x (drop 1 xs) → In x xs
  In-drop_one x [] h = elim h [ ]
  In-drop_one x (y ∷ xs) h = inr h

  pub In-kept : (b : Bool) (x : A) (xs : List A) → In x (if b then drop 1 xs else xs) → In x xs
  In-kept true x xs h = In-drop_one x xs h
  In-kept false x xs h = h

  pub In-snoc : (x y : A) (xs : List A) → In x (xs ++ y ∷ []) → In x xs ⊎ (x ≡ y)
  In-snoc x y xs h = elim (In-append x xs (y ∷ []) h) [
    | inl a ↦ inl a
    | inr b ↦ elim b [ inl e ↦ inr e | inr n ↦ absurd n ]
  ]
