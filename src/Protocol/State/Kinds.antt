-- ===== src/Protocol/State/Kinds.antt =====
-- crates/assuan-protocol/src/state/mod.rs: the categories of lines and requests, and the errors of
-- the session machines.
use assuan_library_rs.Protocol.Message.{ServerLine}

pub data LineKind : Type 0 where
  okay error payload status inquire end comment empty : LineKind

pub data RequestKind : Type 0 where
  command payload end can comment empty : RequestKind

pub data StateError : Type 0 where
  unexpected_event not_ready unusable greeting_rejected : StateError

-- `ServerLine::kind`.
unfoldable pub kind : ServerLine → LineKind
kind (ServerLine.okay text) = LineKind.okay
kind (ServerLine.error code text) = LineKind.error
kind (ServerLine.payload text) = LineKind.payload
kind (ServerLine.status keyword args) = LineKind.status
kind (ServerLine.inquire keyword args) = LineKind.inquire
kind ServerLine.end = LineKind.end
kind (ServerLine.comment text) = LineKind.comment
kind ServerLine.empty = LineKind.empty
