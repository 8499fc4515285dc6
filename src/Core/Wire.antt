-- ===== src/Core/Wire.antt =====
-- quote-core/src/wire.rs: a version byte, and the packet as the crate postcard serialises it.
pub mod Laws
use rust_streaming_quotes.Base.{
  ℕ, ◌≡◌, List, [], ◌∷◌, ◌==◌, if◌then◌else◌, Result, ok, err, ◌>>=◌, map_err,
}
use rust_streaming_quotes.Core.Types.{StockQuote}
use rust_streaming_quotes.Core.Error.{
  WireError, packet_too_short, unsupported_wire_version, postcard,
}

abbrev pub Bytes : Type 0
Bytes = List ℕ

abbrev pub wire_version : ℕ
wire_version = 1

pub data UdpPacketV1 : Type 0 where
  quote : StockQuote → UdpPacketV1
  ping : UdpPacketV1

-- The crate postcard at the packet type. What is relied on: a packet that it could serialise is
-- read back from those bytes.
pub record Postcard : Type 1 where
  pub Error : Type 0
  pub to_allocvec : UdpPacketV1 → Result Bytes Error
  pub from_bytes : Bytes → Result UdpPacketV1 Error
  pub from_bytes-to_allocvec :
      (pkt : UdpPacketV1) (bytes : Bytes) → to_allocvec pkt ≡ ok bytes → from_bytes bytes ≡ ok pkt

module _ (post : Postcard) where
  open post use {Error, to_allocvec, from_bytes}

  unfoldable pub encode_v1 : UdpPacketV1 → Result Bytes (WireError Error)
  encode_v1 pkt = do payload ← map_err postcard (to_allocvec pkt); ok (wire_version ∷ payload)

  unfoldable pub decode : Bytes → Result UdpPacketV1 (WireError Error)
  decode [] = err packet_too_short
  decode (ver ∷ payload) =
      if ver == wire_version
      then map_err postcard (from_bytes payload)
      else err (unsupported_wire_version ver)
