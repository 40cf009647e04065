-- ===== src/Dht/Record.antt =====
-- crates/ephemera-dht/src/lib.rs: records, errors and the configuration.
use ephemera_social.Base.{ℕ, ◌*◌, Bytes}

-- `DhtError`, but for the errors of signatures, transports and timeouts, which nothing modelled
-- here returns.
pub data DhtError : Type 0 where
  expired : DhtError
  record_too_large : (size max : ℕ) → DhtError
  ttl_too_large : (ttl_secs max_secs : ℕ) → DhtError
  storage_full : (count max : ℕ) → DhtError

pub data DhtRecordType : Type 0 where
  prekey_bundle profile hashtag_index content_provider relay_advertisement dead_drop : DhtRecordType

pub record DhtRecord : Type 0 where
  pub key : Bytes
  pub record_type : DhtRecordType
  pub value : Bytes
  pub publisher : Bytes
  pub timestamp : ℕ
  pub ttl_seconds : ℕ
  pub signature : Bytes

abbrev pub max_record_size : ℕ
max_record_size = 8 * 1024

abbrev pub max_ttl_seconds : ℕ
max_ttl_seconds = 30 * 24 * 60 * 60

pub record DhtConfig : Type 0 where
  pub k : ℕ
  pub alpha : ℕ
  pub replication : ℕ
  pub refresh_interval_secs : ℕ
  pub republish_interval_secs : ℕ
  pub max_records : ℕ
  pub config_max_record_size : ℕ
  pub stale_timeout_secs : ℕ

-- `DhtConfig::default`
unfoldable pub default_config : DhtConfig
default_config = record {
  k = 20;
  alpha = 3;
  replication = 5;
  refresh_interval_secs = 60;
  republish_interval_secs = 3600;
  max_records = 100000;
  config_max_record_size = max_record_size;
  stale_timeout_secs = 300;
}
