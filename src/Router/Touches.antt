-- ===== src/Router/Touches.antt =====
-- What a handler of a command may do to the outside, with infrastructure/sensors/sensor_data.hpp and
-- monitoring/health_monitor.cxx behind it.
pub mod Operations
use aqua_regulator_server.Base.{
  ℕ, ◌<◌, ◌^◌, ◌≡◌, ◌∙◌, refl, sym, ap, subst, List, [], ◌∷◌, ◌++◌, append-nil, append_assoc, All,
}
use aqua_regulator_server.Config.{SensorConfig}
use aqua_regulator_server.Platform.{Platform}
use aqua_regulator_server.Sensors.{write_register, connect}
use aqua_regulator_server.World.{World, Call, send, write}
use aqua_regulator_server.World.Keeps.{IsPreorder}

-- A packet to the connection itself, or a write of a 16-bit value to a 16-bit register.
abbrev pub Allowed : ℕ → Call → Type 0
Allowed id (send to buffer) = to ≡ id
Allowed id (write ctx address value) = (address < 2 ^ 16) × (value < 2 ^ 16)

module _ {E W J : Type 0} (lib : Platform E W J) where
  -- The outside world behind any reads of the clocks and any calls of libmodbus that open a connection
  -- to the configured device, write a 16-bit value to a 16-bit register, or close a connection. No file,
  -- database, Redis server or other device is touched.
  pub data Touches (config : SensorConfig) (e : E) : E → Type 0 where
    untouched : Touches config e e
    steady : (f : E) → Touches config e f → Touches config e (lib.clock.steady_now f).1
    system : (f : E) → Touches config e f → Touches config e (lib.clock.system_now f).1
    created :
        (f : E)
        → Touches config e f
        → Touches config e (lib.modbus.new_tcp config.endpoint config.port f).1
    connected :
        (ctx : ℕ) (f : E) → Touches config e f → Touches config e (lib.modbus.connect ctx f).1
    written :
        (ctx address value : ℕ) (f : E)
        → address < 2 ^ 16
        → value < 2 ^ 16
        → Touches config e f
        → Touches config e (lib.modbus.write_register ctx address value f).1
    closed : (ctx : ℕ) (f : E) → Touches config e f → Touches config e (lib.modbus.close ctx f)
    freed : (ctx : ℕ) (f : E) → Touches config e f → Touches config e (lib.modbus.free ctx f)

  pub Touches-join :
      {config : SensorConfig} {e f g : E}
      → Touches config e f
      → Touches config f g
      → Touches config e g
  Touches-join h untouched = h
  Touches-join h (steady f k) = steady f (Touches-join h k)
  Touches-join h (system f k) = system f (Touches-join h k)
  Touches-join h (created f k) = created f (Touches-join h k)
  Touches-join h (connected ctx f k) = connected ctx f (Touches-join h k)
  Touches-join h (written ctx a v f ha hv k) = written ctx a v f ha hv (Touches-join h k)
  Touches-join h (closed ctx f k) = closed ctx f (Touches-join h k)
  Touches-join h (freed ctx f k) = freed ctx f (Touches-join h k)

  -- More calls, all of them allowed, and the device touched; the members of the other parts stay.
  pub record ConfinedTo (config : SensorConfig) (id : ℕ) (w v : World E W) : Type 0 where
    pub traced : (cs : List Call) × (v.calls ≡ w.calls ++ cs) × All (Allowed id) cs
    pub listener : v.listener ≡ w.listener
    pub service : v.service ≡ w.service
    pub manager : v.manager ≡ w.manager
    pub redis_client : v.redis_client ≡ w.redis_client
    pub repository : v.repository ≡ w.repository
    pub device : v.gateway.config ≡ w.gateway.config
    pub touched : Touches config w.env v.env

  abbrev pub Confined : ℕ → World E W → World E W → Type 0
  Confined id w v = ConfinedTo w.gateway.config id w v

  All-append :
      {A : Type 0} (P : A → Type 0) (xs ys : List A) → All P xs → All P ys → All P (xs ++ ys)
  All-append P [] ys h k = k
  All-append P (x ∷ xs) ys h k = (h.0, All-append P xs ys h.1 k)

  pub ConfinedTo-join :
      (config : SensorConfig) (id : ℕ) (w v u : World E W)
      → ConfinedTo config id w v
      → ConfinedTo config id v u
      → ConfinedTo config id w u
  ConfinedTo-join config id w v u h k = record {
    traced = (
      h.traced.0 ++ k.traced.0,
      k.traced.1
          ∙ ap (λ cs. cs ++ k.traced.0) h.traced.1
          ∙ append_assoc w.calls h.traced.0 k.traced.0,
      All-append (Allowed id) h.traced.0 k.traced.0 h.traced.2 k.traced.2,
    );
    listener = k.listener ∙ h.listener;
    service = k.service ∙ h.service;
    manager = k.manager ∙ h.manager;
    redis_client = k.redis_client ∙ h.redis_client;
    repository = k.repository ∙ h.repository;
    device = k.device ∙ h.device;
    touched = Touches-join h.touched k.touched;
  }

  -- A change of nothing that the relation speaks of but the outside world.
  pub only_touched :
      (config : SensorConfig) (id : ℕ) (w : World E W) (e : E)
      → Touches config w.env e
      → ConfinedTo config id w (record w { env = e })
  only_touched config id w e h = record {
    traced = ([], sym (append-nil w.calls), tt);
    listener = refl;
    service = refl;
    manager = refl;
    redis_client = refl;
    repository = refl;
    device = refl;
    touched = h;
  }

  pub ConfinedTo-IsPreorder : (config : SensorConfig) (id : ℕ) → IsPreorder (ConfinedTo config id)
  ConfinedTo-IsPreorder config id = record {
    reflexive = λ w. only_touched config id w w.env untouched;
    transitive = ConfinedTo-join config id;
  }

  pub Confined-IsPreorder : (id : ℕ) → IsPreorder (Confined id)
  Confined-IsPreorder id = record {
    reflexive = λ w. only_touched w.gateway.config id w w.env untouched;
    transitive = λ w v u h k.
        ConfinedTo-join w.gateway.config id w v u h (subst (λ c. ConfinedTo c id v u) h.device k);
  }
