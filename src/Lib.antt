-- ===== src/Lib.antt =====
-- AquaRegulator server: a library of definitions that translate the C++ backend, and theorems about them.
--
-- The server samples a Modbus device, loads history from MariaDB, keeps recent readings in a cache in
-- memory or in Redis, publishes frames to TCP clients, takes commands from the same clients and writes
-- device registers for them, and relays video packets. `World` holds the state that these share, one
-- record for the members of each class; a handler is a function from the world before it to its result and
-- the world after it. An exception is a `Result`, and what was done before a throw stays done.
--
-- The files, with the code that they translate:
--   Base, Base/*        numbers, lists, slices, texts, decimal numerals and Boolean tests
--   Platform            the libraries that the server calls, as parameters: clocks, double, nlohmann::json,
--                       libmodbus, HPSocket, the MariaDB client library, redis++
--   Config              src/core/configuration.hpp, the structures and their defaults; Config/Manager
--                       configuration.cxx (ConfigurationManager) and the poll of src/main.cxx,
--                       Config/Template the file that it writes, Config/Reload when it reloads
--   Domain              src/domain/telemetry_models.hpp; Domain/Codec its JSON round trip
--   Logger              src/core/logger.{hpp,cxx} (Logger); Logger/Lines which lines reach the console and
--                       the file
--   World               the members of the classes, and actions on them; World/Keeps rules for relations
--                       that every action keeps
--   Monitor             HealthMonitor::update and flushToDisk of src/monitoring; Monitor/Table the states
--                       as a map, Monitor/Document the file;
--                       Monitor/Worker start, stop and writerLoop as threads, Monitor/Worker/Shutdown what
--                       the file shows when stop returns, and that it returns
--   Sensors             src/infrastructure/sensors (ModbusTCP, SensorGateway); Sensors/Connection when it
--                       connects, Sensors/Health what a read reports and returns
--   Network             src/network/server_listener_tcp.hpp (ServerListener)
--   Router              src/transport/sensor_data_settings.hpp (DeviceCommandRouter), and the callbacks of
--                       src/main.cxx; Router/Framing the cut of the stream, Router/Commands the commands,
--                       Router/Confined what a client's bytes can bring about,
--                       with Router/Touches what of the outside world that is, Router/Writers the register
--                       writes of several clients at a time
--   Publisher           src/transport/tcp_data_sender.hpp (TelemetryPublisher); Publisher/Wire the packets,
--                       Publisher/Delivery who is sent what, Publisher/Connections the list of
--                       connections, Publisher/Streams the streams of several clients
--   Cache/Memory        src/infrastructure/cache/telemetry_cache.hpp; Cache/Window what a channel holds
--   Cache/Client        src/infrastructure/cache/redis_client.hpp; Cache/Attempts when it connects,
--                       Cache/Available while Redis answers
--   Cache/Redis         src/infrastructure/cache/redis_telemetry_cache.hpp; Cache/Refinement against the
--                       memory cache; Cache/Contract what the services ask of a cache, a window of
--                       readings to each channel, and Cache/Implementations that both keep it
--   Database            src/infrastructure/database (MariaDbClient, TelemetryRepository); Database/Rows
--                       what the readings hold
--   Service             src/services/data_manager_redis.hpp (TelemetryServiceWithRedis);
--                       Service/Realtime and Service/Rounds what a round does, Service/Quiet the snapshot;
--                       Service/Worker start, stop and the loop as threads, Service/Worker/Restart what
--                       holds in every order of the calls; Service/Pacing the time that the steps of a
--                       round take, how far apart the rounds are, and Service/Pacing/Loads the loads of
--                       the history; Service/Live the telemetry thread and the callbacks of HPSocket
--                       interleaved inside a round, Service/Live/Owed what they have still to send,
--                       Service/Live/Delivery that no reading is missed, Service/Live/Alone and
--                       Service/Live/Agreement that a thread alone does what the functions do,
--                       Service/Live/Ends that they end, Service/Live/Frames and Service/Live/Numbers
--                       the correlation numbers
--   MemoryService       src/services/data_manager.hpp (TelemetryService), which main does not use;
--                       MemoryService/Equivalence against the other service
--   Bootstrap           src/main.cxx with the constructors, start, stop and destructors of the parts;
--                       Bootstrap/Release, Bootstrap/Status and Bootstrap/Success how main ends
--   Video               src/services/transport/video_manager.{hpp,cxx} (VideoManager); Video/Threads its
--                       threads as a step relation, Video/Relay what holds in every interleaving, Video/Roles
--                       who may push and who gets the video
--   Locks               the mutexes of all parts: what each operation locks and in which order;
--                       Locks/Order the levels that they stand on, Locks/Progress how the threads go on
--   Tests               a simulated outside world, and the theorems at concrete inputs
--
-- The data of the outside world is abstract. `E` is its state, on which a library call acts and from which
-- its answer comes, `W` is `double`, `J` is a JSON value. What a theorem needs of a library is a
-- hypothesis: the laws of `value` on an object in Domain/Codec, and in Cache/Available the effect of the
-- Redis commands on lists while the server answers, in Service/Pacing that no call turns the time back.
-- The simulation in Tests satisfies them.
--
-- Bounds: a uint16_t conversion is written out as the remainder by 2^16, the length prefix by 2^32, the
-- correlation counter by 2^64. Times are in nanoseconds. The loop of `feed` runs on fuel, one more than
-- the length of the buffer; each round removes a newline, so the fuel outlasts the loop.
--
-- Atomicity: an operation under a mutex is one step. The callbacks of HPSocket may run on several worker
-- threads; the model of the router takes the calls of `feed` one after the other, and Router/Writers has
-- their register writes interleaved. The video relay, the writer thread of the health monitor and the
-- worker of the telemetry service are modelled with their interleavings, the last also with the callbacks
-- of the publisher, for any number of worker threads and with the memory cache; for `main` the other
-- threads are arbitrary changes of the world before each round of its loop and while it waits for the
-- telemetry service, an exception of theirs ends the process, and the join of the relay thread may not
-- return. Locks has the mutexes alone, with an operation as what it locks and unlocks; HPSocket is taken to
-- call no callback from inside Send.
-- The loop of `main` runs until a signal comes, which a list of rounds says; those of the telemetry
-- services run as often as a number says, up to the point where their flag is cleared.
--
-- Not modelled: the calls of the logger in the other parts, which change nothing that a part reads; the
-- interleaving of the telemetry thread with the callbacks where Redis is the cache; and src/3rdparty.
pub mod Base
pub mod Platform
pub mod Logger
pub mod Config
pub mod Domain
pub mod World
pub mod Monitor
pub mod Sensors
pub mod Network
pub mod Router
pub mod Publisher
pub mod Cache
pub mod Database
pub mod Service
pub mod MemoryService
pub mod Video
pub mod Locks
pub mod Bootstrap
pub mod Tests
