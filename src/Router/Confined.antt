-- ===== src/Router/Confined.antt =====
-- transport/sensor_data_settings.hpp and transport/tcp_data_sender.hpp: what the bytes of a client can
-- bring about.
use aqua_regulator_server.Platform.{Platform}
use aqua_regulator_server.World.Keeps.{Keeps}
