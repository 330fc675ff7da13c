-- ===== src/Net/Error.antt =====
-- net/error.rs: what can go wrong on a link, but for the failures that the transports' own errors
-- carry.
use Prim.Native.String.{String}
use umwelt_rs.Base.{ℕ}
use umwelt_rs.Base.Result.{Result, ok, err}
use umwelt_rs.Config.{ConfigError}
use umwelt_rs.Map.{MapError}

pub data NetError : Type 0 where
  congested : NetError
  unknown : String → NetError
  malformed : String → NetError
  unexpected : String → ℕ → String → NetError
  message_too_large : ℕ → ℕ → NetError
  bad_edge_name : String → NetError
  bad_subject : NetError
  map_error : MapError → NetError
  off_map : NetError
  protocol_mismatch : ℕ → ℕ → NetError
  config_error : ConfigError → NetError
  config_mismatch : ℕ → ℕ → NetError

-- `From<ConfigError> for NetError`, which `?` applies.
abbrev pub from_config : {A : Type 0} → Result ConfigError A → Result NetError A
from_config (ok a) = ok a
from_config (err e) = err (config_error e)
