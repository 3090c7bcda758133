-- ===== src/Service/Live/Numbers.antt =====
-- services/data_manager_redis.hpp, `nextCorrelationId`: the correlation numbers of the frames that the
-- threads make at the same time.
use Prim.Native.String.{◌++◌ as ◌<>◌}
use text.Mathlib.TextLemmas.{append_cancel_left}
use aqua_regulator_server.Base.{
  ℕ, suc, ◌+◌, ◌%◌, ◌^◌, ◌≤◌, ◌<◌, ◌≡◌, ◌∙◌, sym, refl, ap, Bool, true, false, List, [], ◌∷◌, ◌++◌,
  ◌==◌, if◌then◌else◌, subst, arith,
}
use aqua_regulator_server.Base.Decimal.{to_string}
use aqua_regulator_server.Base.Decimal.Read.{to_string_injective}
use aqua_regulator_server.Base.Members.{In}
use aqua_regulator_server.Domain.{realtime, TelemetryFrame}
use aqua_regulator_server.Service.Live.{
  Shared, Batch, At, idle, storing, numbering, publishing, copying, sending, listing, reading,
  stamping, unlisting, number, proceed, advance, realtime_round, historical_round, System, put,
  Step, sampled, loaded, accept, close, move, Reach, here, next, started, others,
}
use aqua_regulator_server.Service.Live.Frames.{
  Frames, Sent, Frames-weaken, All-snoc, Sent-weaken, Sent-snoc, Sent-others, Sent-In,
  proceed-Frames, realtime_round-Frames, historical_round-Frames,
}
use aqua_regulator_server.Service.Live.Owed.{put_all}
use aqua_regulator_server.World.{TelemetryCache}

module _ {W : Type 0} where
  -- `made` has the frame of each number up to `n`.
  abbrev Numbered : (ℕ → TelemetryFrame W) → ℕ → TelemetryFrame W → Type 0
  Numbered made n f =
      (k : ℕ) × (k ≤ n) × (made k ≡ f) × (f.correlation_id ≡ "frame-" <> to_string k)

  abbrev record_frame : (ℕ → TelemetryFrame W) → ℕ → TelemetryFrame W → ℕ → TelemetryFrame W
  record_frame made n f k = if k == n then f else made k

  Numbered-record :
      (made : ℕ → TelemetryFrame W) (n : ℕ) (g f : TelemetryFrame W)
      → Numbered made n f
      → Numbered (record_frame made (n + 1) g) (n + 1) f
  Numbered-record made n g f (k, le, e, c) = (k, omega arith, ground arith, c)

  Numbered-self :
      (made : ℕ → TelemetryFrame W) (n : ℕ) (b : Batch W)
      → Numbered (record_frame made (n + 1) (number (n + 1) b)) (n + 1) (number (n + 1) b)
  unfolding number
  Numbered-self made n b = (n + 1, omega arith, ground arith, refl)

  -- A step makes at most one frame, which takes the next number: `n` and `m` are the numbers taken
  -- before and behind it, `xs` what is sent behind it.
  abbrev After : (ℕ → TelemetryFrame W) → ℕ → At W → ℕ → List (ℕ × TelemetryFrame W) → Type 0
  After made n q m xs =
      (made' : ℕ → TelemetryFrame W) × (n ≤ m)
      × (m ≤ n + 1)
      × ((f : TelemetryFrame W) → Numbered made n f → Numbered made' m f)
      × Frames (Numbered made' m) q
      × Sent (Numbered made' m) xs

  stay :
      (made : ℕ → TelemetryFrame W) (n : ℕ) (q : At W) (xs : List (ℕ × TelemetryFrame W))
      → Frames (Numbered made n) q
      → Sent (Numbered made n) xs
      → After made n q n xs
  stay made n q xs h k = (made, omega arith, omega arith, (λ f x. x), h, k)

  advance_numbers :
      (made : ℕ → TelemetryFrame W) (b : Bool) (p : At W) (s : Shared W)
      → s.correlation + 1 < 2 ^ 64
      → Frames (Numbered made s.correlation) p
      → Sent (Numbered made s.correlation) s.sent
      → After made s.correlation
          (advance b p s).0
          (advance b p s).1.correlation
          (advance b p s).1.sent
  unfolding advance
  advance_numbers made b idle s small h k = stay made s.correlation idle s.sent h k
  advance_numbers made b (storing (x ∷ items) bs) s small h k =
      stay made s.correlation (storing items bs) s.sent tt k
  advance_numbers made true (storing [] bs) s small h k =
      stay made s.correlation (numbering bs) s.sent tt k
  advance_numbers made false (storing [] bs) s small h k = stay made s.correlation idle s.sent tt k
  advance_numbers made b (numbering []) s small h k = stay made s.correlation idle s.sent tt k
  advance_numbers made b (numbering (x ∷ bs)) s small h k =
      let n = s.correlation in
      let made' = record_frame made (n + 1) (number (n + 1) x) in
      let weaken = Numbered-record made n (number (n + 1) x) in
      let e : (n + 1) % 2 ^ 64 ≡ n + 1 = omega arith in
      rw e (
        made',
        omega arith,
        omega arith,
        weaken,
        (Numbered-self made n x, tt),
        Sent-weaken (Numbered made n) (Numbered made' (n + 1)) weaken s.sent k,
      )
  advance_numbers made true (publishing f fs bs) s small h k =
      stay made s.correlation (copying f fs bs) s.sent h k
  advance_numbers made false (publishing f fs bs) s small h k =
      stay made s.correlation (proceed fs bs) s.sent
        (proceed-Frames (Numbered made s.correlation) fs bs h.1) k
  advance_numbers made b (copying f fs bs) s small h k =
      stay made s.correlation (sending s.conn_ids f fs bs) s.sent h k
  advance_numbers made b (sending (j ∷ ids) f fs bs) s small h k =
      stay made s.correlation (sending ids f fs bs) (s.sent ++ (j, f) ∷ []) h
        (Sent-snoc (Numbered made s.correlation) s.sent j f k h.0)
  advance_numbers made b (sending [] f fs bs) s small h k =
      stay made s.correlation (proceed fs bs) s.sent
        (proceed-Frames (Numbered made s.correlation) fs bs h.1) k
  advance_numbers made b (listing j) s small h k =
      stay made s.correlation (advance b (listing j) s).0 (others j s.sent) tt
        (Sent-others (Numbered made s.correlation) s.sent j k)
  advance_numbers made b (reading (d ∷ cs) fs) s small h k =
      stay made s.correlation (advance b (reading (d ∷ cs) fs) s).0 s.sent h k
  advance_numbers made b (reading [] fs) s small h k =
      stay made s.correlation (proceed fs []) s.sent
        (proceed-Frames (Numbered made s.correlation) fs [] h) k
  advance_numbers made b (stamping d rs cs fs) s small h k =
      let n = s.correlation in
      let x : Batch W = record { channel = d; readings = rs; snapshot = true } in
      let made' = record_frame made (n + 1) (number (n + 1) x) in
      let weaken = Numbered-record made n (number (n + 1) x) in
      let e : (n + 1) % 2 ^ 64 ≡ n + 1 = omega arith in
      rw e (
        made',
        omega arith,
        omega arith,
        weaken,
        All-snoc (Numbered made n) (Numbered made' (n + 1)) weaken fs (number (n + 1) x) h
            (Numbered-self made n x),
        Sent-weaken (Numbered made n) (Numbered made' (n + 1)) weaken s.sent k,
      )
  advance_numbers made b (unlisting j) s small h k = stay made s.correlation idle s.sent tt k

  record Inv (s : System W) (n : ℕ) : Type 0 where
    taken : s.shared.correlation ≤ n
    made : ℕ → TelemetryFrame W
    frames : (i : ℕ) → Frames (Numbered made s.shared.correlation) (s.at i)
    sent : Sent (Numbered made s.shared.correlation) s.shared.sent

  begin-Inv :
      (s : System W) (n i : ℕ) (q : At W)
      → ((P : TelemetryFrame W → Type 0) → Frames P q)
      → Inv s n
      → Inv (record s { at = put s.at i q }) (n + 1)
  begin-Inv s n i q none_yet v = record {
    taken = let le = v.taken in omega arith;
    made = v.made;
    frames = put_all (Frames (Numbered v.made s.shared.correlation)) s.at i q v.frames (none_yet _);
    sent = v.sent;
  }

  started-Inv : (cache : TelemetryCache W) → Inv (started cache) 0
  started-Inv cache = record {
    taken = omega arith;
    made = λ n. record { channel = realtime; readings = []; snapshot = false; correlation_id = "" };
    frames = λ i. tt;
    sent = tt;
  }

module _ {W : Type 0} (answers : ℕ → Shared W → Bool) where
  move-Inv :
      (s : System W) (n i k : ℕ)
      → n + 1 < 2 ^ 64
      → Inv s n
      → let next = advance (answers k s.shared) (s.at i) s.shared in
        Inv (record { shared = next.1; at = put s.at i next.0 }) (n + 1)
  move-Inv s n i k small v =
      let b = answers k s.shared in
      let next = advance b (s.at i) s.shared in
      let below : s.shared.correlation + 1 < 2 ^ 64 = let le = v.taken in omega arith in
      let a = advance_numbers v.made b (s.at i) s.shared below (v.frames i) v.sent in
      record {
        taken = let le = v.taken in let up = a.2 in omega arith;
        made = a.0;
        frames =
            put_all (Frames (Numbered a.0 next.1.correlation)) s.at i next.0
              (λ j.
                Frames-weaken (Numbered v.made s.shared.correlation)
                  (Numbered a.0 next.1.correlation) a.3 (s.at j) (v.frames j))
              a.4;
        sent = a.5;
      }

  abbrev pub steps : {s t : System W} → Reach answers s t → ℕ
  steps here = 0
  steps (next r st) = steps r + 1

  Step-Inv : {s t : System W} (n : ℕ) → n + 1 < 2 ^ 64 → Step answers s t → Inv s n → Inv t (n + 1)
  Step-Inv {s} n small (sampled r free to) v =
      rw to (begin-Inv s n 0 (realtime_round r) (λ P. realtime_round-Frames P r) v)
  Step-Inv {s} n small (loaded env soil free to) v =
      rw to
        (begin-Inv s n 0 (historical_round env soil) (λ P. historical_round-Frames P env soil) v)
  Step-Inv {s} n small (accept i id free to) v =
      rw to (begin-Inv s n (suc i) (listing id) (λ P. tt) v)
  Step-Inv {s} n small (close i id free to) v =
      rw to (begin-Inv s n (suc i) (unlisting id) (λ P. tt) v)
  Step-Inv {s} n small (move i k p u e to) v = rw to (
      subst (λ (z : At W × Shared W). Inv (record { shared = z.1; at = put s.at i z.0 }) (n + 1)) e
        (move-Inv s n i k small v))

  Reach-Inv :
      {s t : System W} (r : Reach answers s t) → steps r < 2 ^ 64 → Inv s 0 → Inv t (steps r)
  Reach-Inv here small v = v
  Reach-Inv (next r st) small v = Step-Inv (steps r) small st (Reach-Inv r (omega arith) v)

  -- In every interleaving of fewer than 2^64 steps, two frames that were sent, whoever made them and
  -- to whichever connections they went, bear the same correlation number only if they are the same
  -- frame.
  pub numbers_unique :
      (cache : TelemetryCache W) {s : System W} (r : Reach answers (started cache) s)
      → steps r < 2 ^ 64
      → (i j : ℕ) (f g : TelemetryFrame W) → In (i, f) s.shared.sent
      → In (j, g) s.shared.sent
      → f.correlation_id ≡ g.correlation_id
      → f ≡ g
  numbers_unique cache {s} r small i j f g mf mg same =
      let v = Reach-Inv r small (started-Inv cache) in
      let P = Numbered v.made s.shared.correlation in
      let (k, _, ef, cf) = Sent-In P s.shared.sent i f v.sent mf in
      let (l, _, eg, cg) = Sent-In P s.shared.sent j g v.sent mg in
      let one : k ≡ l =
        to_string_injective k l
          (append_cancel_left "frame-" (to_string k) (to_string l) (sym cf ∙ same ∙ cg)) in
      sym ef ∙ ap v.made one ∙ eg
