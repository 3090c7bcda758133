-- ===== src/Router/Framing.antt =====
-- transport/sensor_data_settings.hpp, `feed`: the commands that are cut from the stream do not depend
-- on how the network cut it into chunks.
use native.Mathlib.Numerals.{add-one}
use mathlib.Core.List.{flatten}
use aqua_regulator_server.Base.{
  ℕ, zero, suc, ◌<◌, ◌≡◌, refl, sym, ap, ◌∙◌, ◌≡⟨◌⟩◌, ◌∎, fun_ext, Option, none, some, List, [],
  ◌∷◌, ◌++◌, append-nil, Bytes, length, length-drop, take, drop, append_assoc, ◌==◌, if◌then◌else◌,
  arith, Option-cases, inl, inr,
}
use aqua_regulator_server.Platform.{Platform}
use aqua_regulator_server.World.{World, Action, for_each}
use aqua_regulator_server.Router.{find, answer, drain, feed, Server, put}

-- Text as a client means it: the complete lines, and what follows the last newline.
pub split_lines : Bytes → List Bytes × Bytes
split_lines [] = ([], [])
split_lines (b ∷ bs) =
    let (lines, rest) = split_lines bs in
    if b == 10
    then ([] ∷ lines, rest)
    else elim lines [ [] ↦ ([], b ∷ rest) | line ∷ more ↦ ((b ∷ line) ∷ more, rest) ]

-- The cut at the first newline is the first line of the specification.
pub split-find_none : (b : Bytes) → find 10 b ≡ none → split_lines b ≡ ([], b)
unfolding find split_lines
split-find_none [] h = refl
split-find_none (b ∷ bs) h = ground (arith, split-find_none bs)

split-find_some :
    (b : Bytes) (p : ℕ)
    → find 10 b ≡ some p
    → (split_lines b
        ≡ (take p b ∷ (split_lines (drop (suc p) b)).0, (split_lines (drop (suc p) b)).1))
unfolding find split_lines
split-find_some [] p h = cc
split-find_some (b ∷ bs) zero h = ground arith
split-find_some (b ∷ bs) (suc q) h = ground (arith, split-find_some bs q)

pub find-split : (b : Bytes) → find 10 (split_lines b).1 ≡ none
unfolding find split_lines
find-split [] = refl
find-split (b ∷ bs) = ground (arith, find-split bs)

find-lt : (b : Bytes) (p : ℕ) → find 10 b ≡ some p → p < length b
unfolding find
find-lt [] p h = cc
find-lt (b ∷ bs) zero h = omega arith
find-lt (b ∷ bs) (suc q) h = ground (arith, find-lt bs q)

-- A chunk behind an unfinished line continues it.
pub split-append :
    (a b : Bytes)
    → (split_lines (a ++ b) ≡ (
      (split_lines a).0 ++ (split_lines ((split_lines a).1 ++ b)).0,
      (split_lines ((split_lines a).1 ++ b)).1,
    ))
unfolding split_lines
split-append [] b = refl
split-append (x ∷ a) b = ground (arith, split-append a b)

put_self : (id : ℕ) (b : Bytes) (buffers : ℕ → Bytes) → put id b buffers id ≡ b
put_self id b buffers = ground arith

put-put :
    (id : ℕ) (a b : Bytes) (buffers : ℕ → Bytes) → put id b (put id a buffers) ≡ put id b buffers
put-put id a b buffers = fun_ext λ k. ground arith

pub for_each-append :
    {E W A : Type 0} (f : A → Action E W (Unit {0})) (xs ys : List A) (w : World E W)
    → for_each f (xs ++ ys) w ≡ for_each f ys (for_each f xs w).1
for_each-append f [] ys w = refl
for_each-append f (x ∷ xs) ys w = for_each-append f xs ys (f x w).1

module _ {E W J : Type 0} (lib : Platform E W J)
    (respond : Option (Bytes → Action E W (Unit {0}))) where
  abbrev respond_all : List Bytes → World E W → World E W
  respond_all lines w = (for_each (answer lib respond) lines w).1

  drain-split :
      (fuel : ℕ) (b : Bytes) (w : World E W)
      → length b < fuel
      → drain lib respond fuel b w ≡ ((split_lines b).1, respond_all (split_lines b).0 w)
  unfolding drain
  drain-split zero b w h = absurd (omega arith)
  drain-split (suc f) b w h = elim (Option-cases (find 10 b)) [
    | inl e ↦ rw (e, drain) (rw (split-find_none b e))
    | inr (p, e) ↦
        rw (e, drain)
          (rw (split-find_some b p e, add-one)
            (drain-split f (drop (suc p) b) (answer lib respond (take p b) w).1
              (omega (arith, find-lt b p e, length-drop (suc p) b))))
  ]

  -- The loop of `feed` ends by its own test: with fuel above the length of the buffer no newline is left
  -- in what it returns, and more fuel changes neither that nor the world.
  drain_ends :
      (fuel more : ℕ) (b : Bytes) (w : World E W)
      → length b < fuel
      → length b < more
      → (find 10 (drain lib respond fuel b w).0 ≡ none)
        × (drain lib respond more b w ≡ drain lib respond fuel b w)
  drain_ends fuel more b w h k = (
    ap (λ (r : Bytes × World E W). find 10 r.0) (drain-split fuel b w h) ∙ find-split b,
    drain-split more b w k ∙ sym (drain-split fuel b w h),
  )

  -- The server after the complete lines of `b` are answered, with the rest kept.
  abbrev served : ℕ → Bytes → (ℕ → Bytes) → World E W → Server E W
  served id b buffers w = record {
    world = respond_all (split_lines b).0 w;
    buffers = put id (split_lines b).1 buffers;
  }

  -- Feeding a chunk answers, in order, the lines that it completes behind the text left from earlier
  -- chunks of its connection, keeps what follows the last newline, and leaves the text of every other
  -- connection.
  pub feed_lines :
      (id : ℕ) (chunk : Bytes) (s : Server E W)
      → feed lib respond id chunk s ≡ record {
        world = (for_each (answer lib respond) (split_lines (s.buffers id ++ chunk)).0 s.world).1;
        buffers = put id (split_lines (s.buffers id ++ chunk)).1 s.buffers;
      }
  unfolding feed
  feed_lines id chunk s =
      ap (λ (r : Bytes × World E W). record { world = r.1; buffers = put id r.0 s.buffers })
        (drain-split (suc (length (s.buffers id ++ chunk))) (s.buffers id ++ chunk) s.world
          (omega arith))

  served-append :
      (id : ℕ) (x b r : Bytes) (buffers : ℕ → Bytes) (w : World E W)
      → served id (x ++ b) buffers w
        ≡ served id ((split_lines x).1 ++ b) (put id r buffers) (respond_all (split_lines x).0 w)
  served-append id x b r buffers w =
      rw (split-append x b, put-put id r (split_lines ((split_lines x).1 ++ b)).1 buffers)
        (ap
          (λ (v : World E W). record {
            world = v;
            buffers = put id (split_lines ((split_lines x).1 ++ b)).1 buffers;
          })
          (ap (λ (v : Unit {0} × World E W). v.1)
            (for_each-append (answer lib respond) (split_lines x).0
              (split_lines ((split_lines x).1 ++ b)).0 w)))

  -- How a stream is cut does not matter: feeding two chunks of a connection one after the other has
  -- the effect of feeding them as one, on the world, the answers sent and every buffer.
  pub feed-append :
      (id : ℕ) (a b : Bytes) (s : Server E W)
      → feed lib respond id (a ++ b) s ≡ feed lib respond id b (feed lib respond id a s)
  feed-append id a b s =
      let x = s.buffers id ++ a in
      feed lib respond id (a ++ b) s
      ≡⟨ feed_lines id (a ++ b) s ⟩ served id (s.buffers id ++ (a ++ b)) s.buffers s.world
      ≡⟨ ap (λ t. served id t s.buffers s.world) (sym (append_assoc (s.buffers id) a b)) ⟩
        served id (x ++ b) s.buffers s.world
      ≡⟨ served-append id x b (split_lines x).1 s.buffers s.world ⟩
        served id ((split_lines x).1 ++ b) (put id (split_lines x).1 s.buffers)
          (respond_all (split_lines x).0 s.world)
      ≡⟨ ap
          (λ t.
            served id (t ++ b) (put id (split_lines x).1 s.buffers)
              (respond_all (split_lines x).0 s.world))
          (sym (put_self id (split_lines x).1 s.buffers)) ⟩
        served id (put id (split_lines x).1 s.buffers id ++ b) (put id (split_lines x).1 s.buffers)
          (respond_all (split_lines x).0 s.world)
      ≡⟨ sym (feed_lines id b (served id x s.buffers s.world)) ⟩
        feed lib respond id b (served id x s.buffers s.world)
      ≡⟨ ap (feed lib respond id b) (sym (feed_lines id a s)) ⟩
        feed lib respond id b (feed lib respond id a s) ∎

  abbrev feed_chunks : ℕ → List Bytes → Server E W → Server E W
  feed_chunks id [] s = s
  feed_chunks id (c ∷ cs) s = feed_chunks id cs (feed lib respond id c s)

  -- So for any number of chunks, one after the other.
  feed_chunks-flatten :
      (id : ℕ) (c : Bytes) (cs : List Bytes) (s : Server E W)
      → feed_chunks id (c ∷ cs) s ≡ feed lib respond id (c ++ flatten cs) s
  unfolding flatten
  feed_chunks-flatten id c [] s = rw append-nil
  feed_chunks-flatten id c (d ∷ cs) s =
      feed_chunks-flatten id d cs (feed lib respond id c s)
      ∙ sym (feed-append id c (d ++ flatten cs) s)
