-- ===== src/Config/Tests.antt =====
-- A configuration with three owners, and one that is refused.
use recall.Prelude.{ℕ, ◌≡◌, refl, Bool, true, none, codes}
use recall.Run.{ok, err, Returns}
use recall.Store.{new}
use recall.Store.Valid.{IsValid}
use recall.Protocol.Limits.{validate_limits}
use recall.Config.{Config, v4, validate, excessive_workers, no_time, inconsistent, shard_limits}
use recall.Config.Budget.{granted, granted-all, owner_created}

-- The defaults, with three owners and 100 bytes of payload.
abbrev pub three : Config
three = record {
  bind = v4 127 0 0 1;
  workers = 3;
  io_threads = 2;
  max_connections = 128;
  queue_capacity = 256;
  queue_bytes = 4194304;
  admission_timeout = 250000000;
  read_timeout = 30000000000;
  write_timeout = 10000000000;
  expiry_interval = 10000000;
  expiry_batch = 64;
  max_payload_bytes = 100;
  keys_per_worker = 16384;
  max_reply_bytes = 4194304;
  protocol = record {
    max_frame_bytes = 1048576;
    max_bulk_bytes = 1048512;
    max_arguments = 1024;
    max_header_bytes = 24;
  };
  commands = record {
    max_key_bytes = 1024;
    max_value_bytes = 524288;
    max_client_metadata_bytes = 128;
  };
  password = none;
}

abbrev all : ℕ → Bool
all n = true

pub three_validated : validate three ≡ ok tt
unfolding validate validate_limits excessive_workers no_time inconsistent
three_validated = refl

public_refused :
    validate (record three { bind = v4 0 0 0 0 })
    ≡ err
        (codes "this milestone permits loopback binds only; transport security is not implemented")
unfolding validate
public_refused = refl

granted-all_example : granted three 3 ≡ 100
granted-all_example = granted-all three three_validated

owner_created_example :
    Returns
      (λ s. IsValid s × (s.limits ≡ shard_limits three 2))
      (new all all (shard_limits three 2))
owner_created_example = owner_created all all three 2 three_validated refl refl
