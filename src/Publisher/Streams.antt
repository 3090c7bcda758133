-- ===== src/Publisher/Streams.antt =====
-- transport/tcp_data_sender.hpp, `OnReceive`, over transport/sensor_data_settings.hpp: the streams of
-- several connections, whose chunks arrive in any order.
use aqua_regulator_server.Base.{
  ℕ, ◌≡◌, ◌∙◌, refl, ap, ap₂, sym, Option, none, some, List, [], ◌∷◌, ◌++◌, ◌==◌, if◌then◌else◌,
  append_assoc, append-nil, arith, Bytes, Bool-cases, inl, inr,
}
use aqua_regulator_server.Platform.{Platform}
use aqua_regulator_server.Publisher.{on_receive}
use aqua_regulator_server.Router.{find, Server, answer, put}
use aqua_regulator_server.Router.Framing.{
  split_lines, find-split, split-find_none, split-append, for_each-append, feed_lines,
}
use aqua_regulator_server.World.{World, Action, send, record_call, for_each}

-- What the connection `id` contributes to a list, in order.
abbrev pub of : ℕ → List (ℕ × Bytes) → List Bytes
of id [] = []
of id ((j, x) ∷ xs) = if id == j then x ∷ of id xs else of id xs

of-append : (id : ℕ) (xs ys : List (ℕ × Bytes)) → of id (xs ++ ys) ≡ of id xs ++ of id ys
of-append id [] ys = refl
of-append id ((j, x) ∷ xs) ys = ground (arith, of-append id xs ys)

-- Its stream.
abbrev pub stream : ℕ → List (ℕ × Bytes) → Bytes
stream id [] = []
stream id ((j, chunk) ∷ xs) = if id == j then chunk ++ stream id xs else stream id xs

abbrev tag : ℕ → List Bytes → List (ℕ × Bytes)
tag id [] = []
tag id (l ∷ ls) = (id, l) ∷ tag id ls

of-tag : (id j : ℕ) (ls : List Bytes) → of id (tag j ls) ≡ (if id == j then ls else [])
of-tag id j [] = ground arith
of-tag id j (l ∷ ls) = ground (arith, of-tag id j ls)

-- The lines that a connection's stream completes behind a text, if a chunk of `j` comes first.
split-stream :
    (id j : ℕ) (chunk : Bytes) (xs : List (ℕ × Bytes)) (buffers : ℕ → Bytes)
    → let b = buffers j ++ chunk in
      let after = put j (split_lines b).1 buffers in
      split_lines (buffers id ++ stream id ((j, chunk) ∷ xs)) ≡ (
        (if id == j then (split_lines b).0 else []) ++ (split_lines (after id ++ stream id xs)).0,
        (split_lines (after id ++ stream id xs)).1,
      )
split-stream id j chunk xs buffers = elim (Bool-cases (id == j)) [
  | inl e ↦
      let same : buffers id ≡ buffers j = ap buffers (ground arith) in
      rw (e, same)
        (ap split_lines (sym (append_assoc (buffers j) chunk (stream id xs)))
          ∙ split-append (buffers j ++ chunk) (stream id xs))
  | inr e ↦ rw e refl
]

module _ {E W J : Type 0} (lib : Platform E W J) where
  abbrev pub receive_all : List (ℕ × Bytes) → Server E W → Server E W
  receive_all [] s = s
  receive_all ((id, chunk) ∷ xs) s = receive_all xs (on_receive lib id chunk s)

  abbrev responder : ℕ → Option (Bytes → Action E W (Unit {0}))
  responder id = some (λ reply. record_call (send id (reply ++ 10 ∷ [])))

  -- A command of a connection is answered on it.
  abbrev pub serve : ℕ × Bytes → Action E W (Unit {0})
  serve c = answer lib (responder c.0) c.1

  for_each-tag :
      (id : ℕ) (ls : List Bytes) (w : World E W)
      → for_each serve (tag id ls) w ≡ for_each (answer lib (responder id)) ls w
  for_each-tag id [] w = refl
  for_each-tag id (l ∷ ls) w = for_each-tag id ls _

  -- What `feed` makes of a chunk, by `feed_lines`.
  abbrev fed : ℕ → Bytes → Server E W → Server E W
  fed j chunk s =
      let b = s.buffers j ++ chunk in
      record {
        world = (for_each (answer lib (responder j)) (split_lines b).0 s.world).1;
        buffers = put j (split_lines b).1 s.buffers;
      }

  on_receive_lem :
      (j : ℕ) (chunk : Bytes) (s : Server E W) → on_receive lib j chunk s ≡ fed j chunk s
  unfolding on_receive
  on_receive_lem j chunk s = feed_lines lib (responder j) j chunk s

  fed-cut :
      (j : ℕ) (chunk : Bytes) (s : Server E W)
      → ((id : ℕ) → find 10 (s.buffers id) ≡ none)
      → (id : ℕ) → find 10 ((fed j chunk s).buffers id) ≡ none
  fed-cut j chunk s cut id = ground (arith, cut id, find-split (s.buffers j ++ chunk))

  -- The chunks of any connections, in any order: there is a sequence of commands that the server
  -- answers, each on its own connection, in which the commands of each connection are exactly the lines
  -- of its own stream, in order, and what follows the last newline of that stream is kept for it, if no
  -- buffer held a newline before.
  pub streams_separate :
      (xs : List (ℕ × Bytes)) (s : Server E W)
      → ((id : ℕ) → find 10 (s.buffers id) ≡ none)
      → (commands : List (ℕ × Bytes)) × ((receive_all xs s).world
          ≡ (for_each serve commands s.world).1)
        × ((id : ℕ)
            → ((of id commands, (receive_all xs s).buffers id)
                ≡ split_lines (s.buffers id ++ stream id xs)))
  streams_separate [] s cut =
      ([], refl, λ id. rw append-nil (sym (split-find_none (s.buffers id) (cut id))))
  streams_separate ((j, chunk) ∷ xs) s cut =
      let b = s.buffers j ++ chunk in
      let (commands, world, own) = streams_separate xs (fed j chunk s) (fed-cut j chunk s cut) in
      let same = on_receive_lem j chunk s in
      (
        tag j (split_lines b).0 ++ commands,
        ap (λ (r : Server E W). (receive_all xs r).world) same
            ∙ world
            ∙ sym (
                ap (λ (r : Unit {0} × World E W). r.1)
                  (for_each-append serve (tag j (split_lines b).0) commands s.world
                    ∙ ap (λ (r : Unit {0} × World E W). for_each serve commands r.1)
                        (for_each-tag j (split_lines b).0 s.world))),
        λ id.
            ap₂ (λ (ls : List Bytes) (t : Bytes). (ls, t))
              (of-append id (tag j (split_lines b).0) commands
                ∙ ap₂ (λ (ls ms : List Bytes). ls ++ ms) (of-tag id j (split_lines b).0)
                    (ap (λ (p : List Bytes × Bytes). p.0) (own id)))
              (ap (λ (r : Server E W). (receive_all xs r).buffers id) same
                ∙ ap (λ (p : List Bytes × Bytes). p.1) (own id))
            ∙ sym (split-stream id j chunk xs s.buffers),
      )
