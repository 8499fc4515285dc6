-- ===== src/Core/Error.antt =====
-- quote-core/src/error.rs: the errors and the texts that `thiserror` prints for them.
use rust_streaming_quotes.Base.{ℕ, ◌++◌, codes}
use rust_streaming_quotes.Text.{Text}
use rust_streaming_quotes.Text.Decimal.{display_nat}

pub data ProtocolError : Type 0 where
  empty_command : ProtocolError
  missing_command : ProtocolError
  unknown_command : Text → ProtocolError
  missing_udp_target : ProtocolError
  bad_udp_scheme : ProtocolError
  invalid_udp_address : Text → ProtocolError
  missing_tickers : ProtocolError
  empty_tickers : ProtocolError
  extra_args : ProtocolError

unfoldable pub display_protocol_error : ProtocolError → Text
display_protocol_error empty_command = codes "empty command"
display_protocol_error missing_command = codes "missing command name"
display_protocol_error (unknown_command cmd) = codes "unknown command: " ++ cmd
display_protocol_error missing_udp_target = codes "missing udp target"
display_protocol_error bad_udp_scheme = codes "udp target must start with udp://"
display_protocol_error (invalid_udp_address addr) = codes "invalid udp address: " ++ addr
display_protocol_error missing_tickers = codes "missing tickers list"
display_protocol_error empty_tickers = codes "tickers list is empty"
display_protocol_error extra_args = codes "unexpected extra arguments"

-- `E` is `postcard::Error`.
pub data WireError (E : Type 0) : Type 0 where
  packet_too_short : WireError E
  unsupported_wire_version : ℕ → WireError E
  postcard : E → WireError E

unfoldable pub display_wire_error : {E : Type 0} → (E → Text) → WireError E → Text
unfolding display_nat
display_wire_error display packet_too_short = codes "packet too short"
display_wire_error display (unsupported_wire_version ver) =
    codes "unsupported wire version: " ++ display_nat ver
display_wire_error display (postcard e) = codes "postcard encode/decode error: " ++ display e

pub data QuoteCoreError (E : Type 0) : Type 0 where
  protocol : ProtocolError → QuoteCoreError E
  wire : WireError E → QuoteCoreError E

-- `#[error(transparent)]`: the inner error's text.
unfoldable pub display_quote_core_error : {E : Type 0} → (E → Text) → QuoteCoreError E → Text
unfolding display_protocol_error display_wire_error
display_quote_core_error display (protocol e) = display_protocol_error e
display_quote_core_error display (wire e) = display_wire_error display e
