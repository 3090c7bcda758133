-- ===== src/Publisher/Wire.antt =====
-- transport/tcp_data_sender.hpp, the packets of `publish`: a client that reads the four bytes of the
-- length and then the payload gets back what was sent.
use mathlib.Core.List.{flatten}
use aqua_regulator_server.Base.{
  ℕ, zero, suc, ◌+◌, ◌*◌, ◌/◌, ◌%◌, ◌^◌, ◌≤◌, ◌<◌, ◌≡◌, refl, ap, Option, none, some, List, [], ◌∷◌,
  ◌++◌, map, Bytes, length, length-append, take, drop, All, leb, if◌then◌else◌, arith,
}
use aqua_regulator_server.Base.Slices.{take-append_self, drop-append_self}
use aqua_regulator_server.Publisher.{htonl, packet}

-- The client's `ntohl`, and the reading of one packet.
pub ntohl : ℕ → ℕ → ℕ → ℕ → ℕ
ntohl a b c d = a * 2 ^ 24 + b * 2 ^ 16 + c * 2 ^ 8 + d

pub unpack : Bytes → Option (Bytes × Bytes)
unpack (a ∷ b ∷ c ∷ d ∷ rest) =
    let n = ntohl a b c d in if leb n (length rest) then some (take n rest, drop n rest) else none
unpack _ = none

ntohl-htonl :
    (n : ℕ)
    → n < 2 ^ 32
    → ntohl (n / 2 ^ 24 % 256) (n / 2 ^ 16 % 256) (n / 2 ^ 8 % 256) (n % 256) ≡ n
unfolding ntohl
ntohl-htonl n h = omega arith

-- A packet followed by any bytes is read as its payload, and those bytes are left, for every payload
-- below 2^32 bytes.
pub unpack-packet :
    (payload rest : Bytes)
    → length payload < 2 ^ 32
    → unpack (packet payload ++ rest) ≡ some (payload, rest)
unfolding unpack packet htonl
unpack-packet payload rest h =
    let m : length payload % 2 ^ 32 ≡ length payload = omega arith in
    rw (m, ntohl-htonl (length payload) h)
      (ground (
        arith,
        length-append payload rest,
        take-append_self payload rest,
        drop-append_self payload rest,
      ))

-- A client that reads packets until its input ends.
pub unpack_all : ℕ → Bytes → List Bytes
unpack_all zero input = []
unpack_all (suc rounds) input = elim (unpack input) [
  | none ↦ []
  | some (payload, rest) ↦ payload ∷ unpack_all rounds rest
]

unpack_all_nil : (rounds : ℕ) → unpack_all rounds [] ≡ []
unfolding unpack_all unpack
unpack_all_nil zero = refl
unpack_all_nil (suc rounds) = refl

-- The packets of any frames, sent one after the other, are read back as exactly their payloads in
-- order, if each is below 2^32 bytes and the client makes as many rounds or more.
pub unpack_all-packets :
    (payloads : List Bytes) (rounds : ℕ)
    → All (λ p. length p < 2 ^ 32) payloads
    → length payloads ≤ rounds
    → unpack_all rounds (flatten (map packet payloads)) ≡ payloads
unfolding unpack_all flatten
unpack_all-packets [] zero h enough = refl
unpack_all-packets [] (suc rounds) h enough = unpack_all_nil (suc rounds)
unpack_all-packets (p ∷ ps) zero h enough = absurd (omega arith)
unpack_all-packets (p ∷ ps) (suc rounds) h enough =
    rw (unpack-packet p (flatten (map packet ps)) h.0, unpack_all)
      (ap (λ t. p ∷ t) (unpack_all-packets ps rounds h.1 (omega arith)))
