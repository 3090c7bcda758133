-- ===== src/Router/Commands.antt =====
-- transport/sensor_data_settings.hpp, `parseLine` and its handlers: what each command writes to the
-- device, and what it answers.
use aqua_regulator_server.Base.{
  ℕ, ◌%◌, ◌^◌, ◌≡◌, String, some, [], ◌∷◌, ◌++◌, append_assoc, Bytes, ok, err, arith,
}
use aqua_regulator_server.Base.Int.{ℤ, pos, negsuc, to_u16}
use aqua_regulator_server.Monitor.{update}
use aqua_regulator_server.Platform.{Platform}
use aqua_regulator_server.Router.{
  write_scaled, handle_threshold, handle_direct_write, write_at, route, dispatch, reject,
  parse_line, threshold_ok, write_ok, invalid_payload,
}
use aqua_regulator_server.Sensors.{write_register, write_connected}
use aqua_regulator_server.Sensors.Connection.{ensure_connection-some, write_connected-gateway}
use aqua_regulator_server.World.{World, write}

module _ {E W J : Type 0} (lib : Platform E W J) where
  open lib use {json, real}

  calls-write_connected :
      (address value ctx : ℕ) (w : World E W)
      → w.gateway.modbus ≡ some ctx
      → (write_connected lib address value w).1.calls ≡ w.calls ++ write ctx address value ∷ []
  unfolding write_connected
  calls-write_connected address value ctx w e = ground arith

  -- With a connection at hand a write goes out once, and the connection stays.
  write_register_connected :
      (address value ctx : ℕ) (w : World E W)
      → w.gateway.modbus ≡ some ctx
      → ((write_register lib address value w).1.calls ≡ w.calls ++ write ctx address value ∷ [])
        × ((write_register lib address value w).1.gateway.modbus ≡ some ctx)
  unfolding write_register
  write_register_connected address value ctx w e =
      let w' = record w { env = (lib.clock.steady_now w.env).1 } in
      ground (
        arith,
        ensure_connection-some lib w ctx e,
        calls-write_connected address value ctx w' e,
        write_connected-gateway lib address value w',
      )

  -- Four writes one after the other.
  abbrev wrote : ℕ → ℕ → World E W → World E W
  wrote address value w = (write_register lib address value w).1

  write_four :
      (a b c d ctx : ℕ) (w : World E W)
      → w.gateway.modbus ≡ some ctx
      → (wrote 13 d (wrote 12 c (wrote 11 b (wrote 10 a w)))).calls
        ≡ w.calls ++ write ctx 10 a ∷ write ctx 11 b ∷ write ctx 12 c ∷ write ctx 13 d ∷ []
  write_four a b c d ctx w e =
      let s1 = write_register_connected 10 a ctx w e in
      let s2 = write_register_connected 11 b ctx (wrote 10 a w) s1.1 in
      let s3 = write_register_connected 12 c ctx (wrote 11 b (wrote 10 a w)) s2.1 in
      let s4 = write_register_connected 13 d ctx (wrote 12 c (wrote 11 b (wrote 10 a w))) s3.1 in
      simp (s4.0, s3.0, s2.0, s1.0, append_assoc)

  -- With a connection to the device, a threshold command whose four values are numbers, given or by
  -- default, writes them, times 100 and cast to 16 bits, to the registers 10 to 13 in this order
  -- and makes no other call, and is answered as done, whatever libmodbus answers to the writes.
  pub parse_line_threshold :
      (line : Bytes) (msg : J) (soil rain temp light : W) (ctx : ℕ) (w : World E W)
      → json.parse line ≡ ok msg
      → json.value_text msg "type" "" ≡ ok "threshold"
      → json.value_double msg "soil" real.nought ≡ ok soil
      → json.value_double msg "rain" real.nought ≡ ok rain
      → json.value_double msg "temp" real.nought ≡ ok temp
      → json.value_double msg "light" real.nought ≡ ok light
      → w.gateway.modbus ≡ some ctx
      → ((parse_line lib line w).0 ≡ threshold_ok)
        × ((parse_line lib line w).1.calls
            ≡ w.calls
              ++ write ctx 10 (real.cast_u16 (real.hundred_times soil))
                ∷ write ctx 11 (real.cast_u16 (real.hundred_times rain))
                ∷ write ctx 12 (real.cast_u16 (real.hundred_times temp))
                ∷ write ctx 13 (real.cast_u16 (real.hundred_times light))
                ∷ [])
  unfolding parse_line dispatch route handle_threshold write_scaled update
  parse_line_threshold line msg soil rain temp light ctx w parsed type es er et el e = ground (
    arith,
    write_four (real.cast_u16 (real.hundred_times soil)) (real.cast_u16 (real.hundred_times rain))
        (real.cast_u16 (real.hundred_times temp)) (real.cast_u16 (real.hundred_times light)) ctx w
        e,
  )

  -- A line that is no JSON is answered as invalid and writes nothing to the device; the connection is
  -- left alone.
  pub parse_line_invalid :
      (line : Bytes) (what : String) (w : World E W)
      → json.parse line ≡ err what
      → ((parse_line lib line w).0 ≡ invalid_payload)
        × ((parse_line lib line w).1.calls ≡ w.calls)
        × ((parse_line lib line w).1.gateway ≡ w.gateway)
  unfolding parse_line dispatch reject update
  parse_line_invalid line what w e = ground arith

  -- A direct write to a negative address, given or by default, is answered as done and leaves the
  -- world as it was.
  pub parse_line_negative :
      (line : Bytes) (msg : J) (n : ℕ) (value : ℤ) (w : World E W)
      → json.parse line ≡ ok msg
      → json.value_text msg "type" "" ≡ ok "write_register"
      → json.value_int msg "address" (negsuc 0) ≡ ok (negsuc n)
      → json.value_int msg "value" (pos 0) ≡ ok value
      → parse_line lib line w ≡ (write_ok, w)
  unfolding parse_line dispatch route handle_direct_write write_at
  parse_line_negative line msg n value w parsed type ea ev = ground arith

  -- With a connection to the device, a direct write to an address from 0 on is answered as done and
  -- writes to the address modulo 2^16 the value modulo 2^16, and makes no other call.
  pub parse_line_direct :
      (line : Bytes) (msg : J) (a : ℕ) (value : ℤ) (ctx : ℕ) (w : World E W)
      → json.parse line ≡ ok msg
      → json.value_text msg "type" "" ≡ ok "write_register"
      → json.value_int msg "address" (negsuc 0) ≡ ok (pos a)
      → json.value_int msg "value" (pos 0) ≡ ok value
      → w.gateway.modbus ≡ some ctx
      → ((parse_line lib line w).0 ≡ write_ok)
        × ((parse_line lib line w).1.calls ≡ w.calls ++ write ctx (a % 2 ^ 16) (to_u16 value) ∷ [])
  unfolding parse_line dispatch route handle_direct_write write_at to_u16
  parse_line_direct line msg a value ctx w parsed type ea ev e =
      ground (arith, write_register_connected (a % 2 ^ 16) (to_u16 value) ctx w e)
