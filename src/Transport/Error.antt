-- ===== src/Transport/Error.antt =====
-- crates/assuan-transport/src/error.rs: the failures of the transport.
use assuan_library_rs.Prelude.{Result, ok, err}
use assuan_library_rs.Protocol.Error.{ProtocolError, LimitError}

pub data DiscoveryError : Type 0 where
  process_failed unsupported_format not_found invalid_output output_limit : DiscoveryError

-- `io` stands for every error of the operating system.
pub data TransportError : Type 0 where
  closed io timeout invalid_endpoint invalid_options access_policy : TransportError
  protocol : ProtocolError → TransportError
  limit : LimitError → TransportError
  discovery : DiscoveryError → TransportError

-- `?` on a protocol error, by its `From`.
abbrev pub from_protocol {ℓ} : {A : Type ℓ} → Result ProtocolError A → Result TransportError A
from_protocol (ok a) = ok a
from_protocol (err e) = err (protocol e)

abbrev pub from_limit {ℓ} : {A : Type ℓ} → Result LimitError A → Result TransportError A
from_limit (ok a) = ok a
from_limit (err e) = err (limit e)
