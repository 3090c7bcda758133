-- ===== src/Config.antt =====
-- core/configuration.hpp: the configuration structures with their default values.
pub mod Manager
pub mod Reload
pub mod Template
use aqua_regulator_server.Base.{ℕ, String, Bool, true}

pub record DatabaseConfig : Type 0 where
  pub host : String
  pub user : String
  pub password : String
  pub schema : String
  pub port : ℕ
  pub read_recent_limit : ℕ
  pub retry_seconds : ℕ

pub record SensorConfig : Type 0 where
  pub endpoint : String
  pub port : ℕ
  pub retry_seconds : ℕ
  pub registers : ℕ

pub record PublisherConfig : Type 0 where
  pub bind_address : String
  pub port : ℕ
  pub worker_threads : ℕ
  pub max_connections : ℕ

pub record VideoConfig : Type 0 where
  pub port : ℕ

pub record HealthConfig : Type 0 where
  pub status_file : String
  pub interval_seconds : ℕ

pub record PipelineConfig : Type 0 where
  pub realtime_interval_seconds : ℕ
  pub historical_interval_seconds : ℕ
  pub cache_size : ℕ

pub record RedisConfig : Type 0 where
  pub host : String
  pub port : ℕ
  pub password : String
  pub database : ℕ
  pub pool_size : ℕ
  pub timeout_ms : ℕ
  pub enabled : Bool

pub record Configuration : Type 0 where
  pub database : DatabaseConfig
  pub sensor : SensorConfig
  pub publisher : PublisherConfig
  pub video : VideoConfig
  pub health : HealthConfig
  pub pipeline : PipelineConfig
  pub redis : RedisConfig

-- `buildDefaultConfig`: the member initialisers of the structures.
abbrev pub build_default_config : Configuration
build_default_config = record {
  database = record {
    host = "127.0.0.1";
    user = "root";
    password = "password";
    schema = "testdb";
    port = 3306;
    read_recent_limit = 50;
    retry_seconds = 5;
  };
  sensor = record { endpoint = "127.0.0.1"; port = 502; retry_seconds = 5; registers = 6 };
  publisher = record {
    bind_address = "0.0.0.0";
    port = 5555;
    worker_threads = 4;
    max_connections = 200;
  };
  video = record { port = 6000 };
  health = record { status_file = "artifacts/health_status.json"; interval_seconds = 5 };
  pipeline = record {
    realtime_interval_seconds = 5;
    historical_interval_seconds = 30;
    cache_size = 120;
  };
  redis = record {
    host = "127.0.0.1";
    port = 6379;
    password = "";
    database = 0;
    pool_size = 10;
    timeout_ms = 3000;
    enabled = true;
  };
}
