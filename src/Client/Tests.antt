-- ===== src/Client/Tests.antt =====
-- A client over a concrete stream.
use assuan_library_rs.Prelude.{◌≤◌, ◌≡◌, refl, false, [], ◌∷◌, codes, ok, err, arith}
use assuan_library_rs.Protocol.Command.{validate_line, validate_token, split_field}
use assuan_library_rs.Protocol.Utf8.{from_utf8}
use assuan_library_rs.Protocol.Escape.{decode_data_in_place}
use assuan_library_rs.Server.Inquiry.{bytes_ahead}
use assuan_library_rs.Client.Inquiry.{check_open, complete}
use assuan_library_rs.Protocol.Message.{parse_server_line, parse_keyword}
use assuan_library_rs.Protocol.Frame
use assuan_library_rs.Protocol.Frame.{zeros, feed, feed_loop, line, finish_eof}
use assuan_library_rs.Protocol.State.Kinds.{unusable, kind}
use assuan_library_rs.Protocol.State.Client.{ClientState, ClientMachine}
use assuan_library_rs.Protocol.State.Client
use assuan_library_rs.Transport.Error.{TransportError}
use assuan_library_rs.Transport.Stream.{Stream, got, read_failed, flushed}
use assuan_library_rs.Transport.Channel
use assuan_library_rs.Transport.Channel.{drain, receive_loop, receive, read_line_or_eof, read_line}
use assuan_library_rs.Client.Error.{ClientError, state, transport}
use assuan_library_rs.Client.Core.{SessionCore, check, read, invalidate, classify}
use assuan_library_rs.Client.Core.Unusable.{
  IsUnusable, reading, writing, perform, perform_all, perform-refused,
}
use assuan_library_rs.Client.Transaction.{
  Transaction, pending, next_event, event_from, finish, dropped,
}
use assuan_library_rs.Client.Collect.{
  CollectLimits, Response, Collected, nothing, retained, add_event, ensure_room, collect_from,
  collect_transaction,
}
use assuan_library_rs.Client.Collect.Bounds.{collect_transaction-le}
use assuan_library_rs.Client.Collect.Enough.{collect_from_enough}

abbrev core_of : Stream → SessionCore
core_of stream = record {
  channel = Channel.new stream;
  machine = record { state = ClientState.command; inquiry_origin = ClientState.greeting };
  io_uncertain = false;
  expiries = [];
}

abbrev broken : Stream
broken = record { reads = read_failed ∷ []; writes = flushed ∷ []; delivered = [] }

broken_read : (perform reading (core_of broken)).1 ≡ err (transport TransportError.io)
unfolding read check read_line read_line_or_eof receive receive_loop drain Channel.new
broken_read = refl

perform-refused_example :
    IsUnusable (perform_all (reading ∷ []) (perform reading (core_of broken)).0)
    × ((perform
          (writing (codes "NOP\n"))
          (perform_all (reading ∷ []) (perform reading (core_of broken)).0)).1
        ≡ err (state unusable))
perform-refused_example =
    perform-refused reading (core_of broken) (transport TransportError.io) (reading ∷ [])
      (writing (codes "NOP\n")) broken_read

abbrev answering : Stream
answering = record {
  reads = got (codes "S KEY 1\nD a\n# hi\nOK\n") ∷ [];
  writes = [];
  delivered = [];
}

abbrev transaction : Transaction
transaction = record { core = core_of answering; completion = pending }

abbrev limits : CollectLimits
limits = record { max_bytes = 64; max_events = 8 }

abbrev answer : Response
answer = record {
  data_bytes = codes "a";
  statuses = (codes "KEY", codes "1") ∷ [];
  comments = codes " hi" ∷ [];
}

collects : (collect_transaction limits transaction).1 ≡ ok answer
unfolding collect_transaction collect_from add_event ensure_room next_event event_from finish
    dropped complete check_open check read classify invalidate Client.receive Client.finish_inquiry
    Client.invalidate Client.on_line bytes_ahead Channel.new Channel.received_line Channel.clear
    Channel.close Channel.write_line drain receive receive_loop read_line read_line_or_eof feed
    feed_loop finish_eof line Frame.clear Frame.new zeros kind parse_server_line parse_keyword
    validate_line validate_token split_field from_utf8 decode_data_in_place
collects = refl

collect_transaction-le_example : retained answer ≤ 64
collect_transaction-le_example = collect_transaction-le limits transaction answer collects

abbrev gives : Transaction → Response → Collected
gives t r = (t.core, ok r)

abbrev fails : Transaction → Response → Collected
fails t r = (t.core, err ClientError.incomplete)

collect_from_enough_example :
    collect_from gives limits 9 0 transaction nothing
    ≡ collect_from fails limits 9 0 transaction nothing
collect_from_enough_example =
    collect_from_enough gives fails limits 9 0 transaction nothing (omega arith) (omega arith)
