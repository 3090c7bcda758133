-- ===== src/Router/Touches/Operations.antt =====
-- infrastructure/sensors/sensor_data.hpp and monitoring/health_monitor.cxx: the operations that a command
-- reaches touch the device only.
use Prim.Native.String.{◌++◌ as ◌<>◌}
use aqua_regulator_server.Base.{
  ℕ, ◌<◌, ◌^◌, ◌≡◌, refl, sym, subst, String, Bool, true, false, Option, some, none, Option-cases,
  ◌⊎◌, inl, inr, [], ◌∷◌, append-nil, arith,
}
use aqua_regulator_server.Config.{SensorConfig}
use aqua_regulator_server.Monitor.{update}
use aqua_regulator_server.Platform.{Platform}
use aqua_regulator_server.Sensors.{
  write_register, write_connected, ensure_connection, reconnect, open_connection, connection_error,
  set_last_attempt, new_modbus, set_modbus, reset_modbus, delete_modbus, connect, throw_errno,
  the_modbus, modbus_write, handle_failure,
}
use aqua_regulator_server.World.{World, Gateway, Call, write, call, throw, record_call}
use aqua_regulator_server.World.Keeps.{
  Keeps, pure-Keeps, bind-Keeps, bind_throwing-Keeps, try-Keeps, if-Keeps, lift-Keeps, option-Keeps,
}
use aqua_regulator_server.Router.Touches.{
  Allowed, Touches, untouched, steady, system, created, connected, written, closed, freed,
  ConfinedTo, Confined, only_touched, ConfinedTo-IsPreorder, Confined-IsPreorder,
}

module _ {E W J : Type 0} (lib : Platform E W J) where
  module _ (config : SensorConfig) (id : ℕ) where
    pub touching :
        {A : Type 0} (g : E → A × E)
        → ((e : E) → Touches lib config e (g e).1)
        → Keeps (ConfinedTo lib config id) (call {W = W} g)
    touching g h = record { later = λ w. only_touched lib config id w (g w.env).1 (h w.env) }

    -- What changes only `modbus_` or `lastAttempt_`.
    gateway-ConfinedTo :
        (w : World E W) (g : Gateway)
        → g.config ≡ w.gateway.config
        → ConfinedTo lib config id w (record w { gateway = g })
    gateway-ConfinedTo w g h = record {
      traced = ([], sym (append-nil w.calls), tt);
      listener = refl;
      service = refl;
      manager = refl;
      redis_client = refl;
      repository = refl;
      device = h;
      touched = untouched;
    }

    set_modbus-ConfinedTo : (m : Option ℕ) → Keeps (ConfinedTo lib config id) (set_modbus lib m)
    unfolding set_modbus
    set_modbus-ConfinedTo m = record { later = λ w. gateway-ConfinedTo w _ refl }

    set_last_attempt-ConfinedTo :
        (now : ℕ) → Keeps (ConfinedTo lib config id) (set_last_attempt lib now)
    unfolding set_last_attempt
    set_last_attempt-ConfinedTo now = record { later = λ w. gateway-ConfinedTo w _ refl }

    update-ConfinedTo :
        (component : String) (healthy : Bool) (detail : String)
        → Keeps (ConfinedTo lib config id) (update lib component healthy detail)
    unfolding update
    update-ConfinedTo component healthy detail = record {
      later = λ w. record {
        traced = ([], sym (append-nil w.calls), tt);
        listener = refl;
        service = refl;
        manager = refl;
        redis_client = refl;
        repository = refl;
        device = refl;
        touched = system w.env untouched;
      };
    }

    throw_errno-ConfinedTo :
        {A : Type 0} (prefix : String)
        → Keeps (ConfinedTo lib config id) (throw_errno lib {A = A} prefix)
    unfolding throw_errno
    throw_errno-ConfinedTo prefix = record {
      later = λ w. (ConfinedTo-IsPreorder lib config id).reflexive w;
    }

    reset_modbus-world :
        (w : World E W)
        → ((reset_modbus lib w).1 ≡ w)
          ⊎ ((ctx : ℕ) × ((reset_modbus lib w).1
                ≡ (set_modbus lib none (delete_modbus lib ctx w).1).1))
    unfolding reset_modbus
    reset_modbus-world w = elim (Option-cases w.gateway.modbus) [
      | inl e ↦ inl (ground arith)
      | inr (ctx, e) ↦ inr (ctx, ground arith)
    ]

    reset_modbus-ConfinedTo : Keeps (ConfinedTo lib config id) (reset_modbus lib)
    unfolding delete_modbus
    reset_modbus-ConfinedTo = record {
      later = λ w.
          let p = ConfinedTo-IsPreorder lib config id in
          elim (reset_modbus-world w) [
            | inl e ↦ subst (ConfinedTo lib config id w) (sym e) (p.reflexive w)
            | inr (ctx, e) ↦
                let v = (delete_modbus lib ctx w).1 in
                let freed_now =
                  only_touched lib config id w v.env
                    (freed ctx (lib.modbus.close ctx w.env) (closed ctx w.env untouched)) in
                subst (ConfinedTo lib config id w) (sym e)
                  (p.transitive w v _ freed_now ((set_modbus-ConfinedTo none).later v))
          ];
    }

    connection_error-ConfinedTo :
        (what : String) → Keeps (ConfinedTo lib config id) (connection_error lib what)
    unfolding connection_error handle_failure
    connection_error-ConfinedTo what =
        let p = ConfinedTo-IsPreorder lib config id in
        bind-Keeps p reset_modbus-ConfinedTo λ u.
          bind-Keeps p (update-ConfinedTo "sensor_gateway" false ("Connection error: " <> what))
            λ u. pure-Keeps p false

    connect-ConfinedTo : (ctx : ℕ) → Keeps (ConfinedTo lib config id) (connect lib ctx)
    unfolding connect
    connect-ConfinedTo ctx =
        let p = ConfinedTo-IsPreorder lib config id in
        bind-Keeps p (touching (lib.modbus.connect ctx) (λ e. connected ctx e untouched)) λ b.
          if-Keeps b (lift-Keeps (pure-Keeps p tt)) (throw_errno-ConfinedTo "Connection failed: ")

    new_modbus-ConfinedTo :
        Keeps (ConfinedTo lib config id) (new_modbus lib config.endpoint config.port)
    unfolding new_modbus
    new_modbus-ConfinedTo =
        let p = ConfinedTo-IsPreorder lib config id in
        bind-Keeps p
          (touching (lib.modbus.new_tcp config.endpoint config.port) (λ e. created e untouched))
          λ ctx.
            option-Keeps ctx {m = throw "Failed to create Modbus context"}
              (record { later = λ w. p.reflexive w }) λ c. lift-Keeps (pure-Keeps p c)

    open_connection-ConfinedTo : Keeps (ConfinedTo lib config id) (open_connection lib config)
    unfolding open_connection
    open_connection-ConfinedTo =
        let p = ConfinedTo-IsPreorder lib config id in
        bind_throwing-Keeps p new_modbus-ConfinedTo λ ctx.
          bind_throwing-Keeps p (lift-Keeps (set_modbus-ConfinedTo (some ctx))) λ u.
            bind_throwing-Keeps p (connect-ConfinedTo ctx) λ u. lift-Keeps (
              bind-Keeps p (update-ConfinedTo "sensor_gateway" true "Modbus connected")
                λ u. pure-Keeps p true)

    the_modbus-world : (w : World E W) → (the_modbus lib w).1 ≡ w
    unfolding the_modbus
    the_modbus-world w = ground arith

    the_modbus-ConfinedTo : Keeps (ConfinedTo lib config id) (the_modbus lib)
    the_modbus-ConfinedTo = record {
      later = λ w.
          subst (ConfinedTo lib config id w) (sym (the_modbus-world w))
            ((ConfinedTo-IsPreorder lib config id).reflexive w);
    }

    pub record_call-ConfinedTo :
        (c : Call) → Allowed id c → Keeps (ConfinedTo lib config id) (record_call {E = E} {W = W} c)
    record_call-ConfinedTo c allowed = record {
      later = λ w. record {
        traced = (c ∷ [], refl, (allowed, tt));
        listener = refl;
        service = refl;
        manager = refl;
        redis_client = refl;
        repository = refl;
        device = refl;
        touched = untouched;
      };
    }

    write_connected-ConfinedTo :
        (address value : ℕ)
        → address < 2 ^ 16
        → value < 2 ^ 16
        → Keeps (ConfinedTo lib config id) (write_connected lib address value)
    unfolding write_connected modbus_write handle_failure
    write_connected-ConfinedTo address value ha hv =
        let p = ConfinedTo-IsPreorder lib config id in
        try-Keeps p
          (bind_throwing-Keeps p
            (bind_throwing-Keeps p the_modbus-ConfinedTo λ ctx.
              bind-Keeps p (record_call-ConfinedTo (write ctx address value) (ha, hv)) λ u.
                bind-Keeps p
                  (touching (lib.modbus.write_register ctx address value)
                    (λ e. written ctx address value e ha hv untouched))
                  λ b.
                    if-Keeps b (lift-Keeps (pure-Keeps p tt))
                      (throw_errno-ConfinedTo "Write failed: "))
            λ u. lift-Keeps (update-ConfinedTo "sensor_gateway" true "Register write successful"))
          λ what. update-ConfinedTo "sensor_gateway" false ("writeRegister failed: " <> what)

  -- The operations that know the configuration from the world itself.
  module _ (id : ℕ) where
    pub update-Confined :
        (component : String) (healthy : Bool) (detail : String)
        → Keeps (Confined lib id) (update lib component healthy detail)
    update-Confined component healthy detail = record {
      later = λ w. (update-ConfinedTo w.gateway.config id component healthy detail).later w;
    }

    reconnect-ConfinedTo :
        (now : ℕ) (g : Gateway) → Keeps (ConfinedTo lib g.config id) (reconnect lib now g)
    unfolding reconnect
    reconnect-ConfinedTo now g =
        let p = ConfinedTo-IsPreorder lib g.config id in
        if-Keeps _ (pure-Keeps p false) (
          bind-Keeps p (set_last_attempt-ConfinedTo g.config id now) λ u.
            try-Keeps p (open_connection-ConfinedTo g.config id)
              λ what. connection_error-ConfinedTo g.config id what)

    ensure_connection-Confined : Keeps (Confined lib id) (ensure_connection lib)
    unfolding ensure_connection
    ensure_connection-Confined = record {
      later = λ w.
          let c = w.gateway.config in
          let p = ConfinedTo-IsPreorder lib c id in
          let clock = lib.clock.steady_now w.env in
          let v = record w { env = clock.1 } in
          p.transitive w v _ (only_touched lib c id w clock.1 (steady w.env untouched)) (
            (option-Keeps w.gateway.modbus (reconnect-ConfinedTo clock.0 w.gateway)
                λ ctx. pure-Keeps p true).later
              v);
    }

    pub write_register-Confined :
        (address value : ℕ)
        → address < 2 ^ 16
        → value < 2 ^ 16
        → Keeps (Confined lib id) (write_register lib address value)
    unfolding write_register
    write_register-Confined address value ha hv =
        let p = Confined-IsPreorder lib id in
        bind-Keeps p ensure_connection-Confined λ b.
          if-Keeps b
            (record {
              later =
                  λ w. (write_connected-ConfinedTo w.gateway.config id address value ha hv).later w;
            })
            (pure-Keeps p tt)
