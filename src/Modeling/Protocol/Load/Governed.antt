-- ===== src/Modeling/Protocol/Load/Governed.antt =====
-- What it means that the protocol is loaded (src/flight_delay/modeling/v3/protocol.py,
-- `load_and_validate_v3_protocol`).
use us_flight_delay_mlops.Prelude.{◌≡◌, true, false, Option, some, String}
use us_flight_delay_mlops.Python.Equal.{eq_value}
use us_flight_delay_mlops.Python.Result.Ensures.{Ensures}
use us_flight_delay_mlops.Python.Value.{Value, Fields, null, bool, dict, get_or}
use us_flight_delay_mlops.Modeling.Protocol.{protocol_sha256, protocol_lock_sha256}
use us_flight_delay_mlops.Modeling.Protocol.Candidates.Named.{AreCommitted}
use us_flight_delay_mlops.Modeling.Protocol.Stages.Contiguous.{FoldsAreFrozen}
use us_flight_delay_mlops.Modeling.Protocol.Governance.Sealed.{IsSealed}
use us_flight_delay_mlops.Modeling.Protocol.Tree.{File}
use us_flight_delay_mlops.Modeling.Protocol.Tree.Pinned.{Names, IsPinned}
use us_flight_delay_mlops.Modeling.Protocol.Load.{Source}

module _ (shown : Value → String) (canonical_sha256 : Value → String) where
  -- the parts of the validation, each with what it guarantees
  pub record IsGoverned (protocol lock : Fields) : Type 0 where
    pub candidates : AreCommitted shown canonical_sha256 protocol lock
    pub folds : FoldsAreFrozen protocol
    pub rules : IsSealed (dict protocol)

  module _ (find : String → Option File) where
    -- the protocol and the lock that were read, with what their validation guarantees
    pub record IsLoaded (protocol_file lock_file : Source) (protocol lock : Fields)
        (protocol_sha : String) : Type 0 where
      pub protocol_read : protocol_file.parsed ≡ some (dict protocol)
      pub lock_read : lock_file.parsed ≡ some (dict lock)
      pub digest : protocol_sha ≡ protocol_sha256
      pub file_digest : protocol_file.sha256 ≡ protocol_sha256
      pub lock_digest : lock_file.sha256 ≡ protocol_lock_sha256
      pub december_unopened : eq_value (get_or "december_opened" null lock) (bool false) ≡ true
      pub governed : IsGoverned protocol lock
      pub pinned :
          (entry : Fields)
          → Names (get_or "dependencies" null protocol) entry
          → IsPinned shown find entry
