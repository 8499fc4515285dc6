-- ===== src/Core/Wire/Laws.antt =====
-- On `encode_v1` and `decode` of quote-core/src/wire.rs.
use rust_streaming_quotes.Base.{
  ℕ, ◌≡◌, ◌≢◌, ◌↔◌, inl, inr, refl, [], ◌∷◌, ◌==◌, ok, err, arith, Bool-cases, Result-cases,
}
use rust_streaming_quotes.Core.Error.{packet_too_short, unsupported_wire_version}
use rust_streaming_quotes.Core.Wire.{Bytes, wire_version, UdpPacketV1, Postcard, encode_v1, decode}

module _ (post : Postcard) where
  -- Every packet that can be encoded is decoded to itself.
  pub decode-encode_v1 :
      (pkt : UdpPacketV1) (buf : Bytes) → encode_v1 post pkt ≡ ok buf → decode post buf ≡ ok pkt
  unfolding encode_v1 decode
  decode-encode_v1 pkt buf h = elim (Result-cases (post.to_allocvec pkt)) [
    | inl (bytes, e) ↦ ground (arith, post.from_bytes-to_allocvec pkt bytes e)
    | inr (x, e) ↦ absurd (ground arith)
  ]

  decode_ok :
      (buf : Bytes) (pkt : UdpPacketV1)
      → (decode post buf ≡ ok pkt)
        ↔ ((payload : Bytes) × (buf ≡ wire_version ∷ payload) × (post.from_bytes payload ≡ ok pkt))
  unfolding decode
  decode_ok [] pkt = (λ h. absurd (ground arith), λ h. absurd (ground arith))
  decode_ok (ver ∷ payload) pkt = (
    λ h. elim (Bool-cases (ver == wire_version)) [
      | inl e ↦ (payload, ground arith, ground arith)
      | inr e ↦ absurd (ground arith)
    ],
    λ h. ground arith,
  )

  -- `decode` accepts exactly the version byte 1 followed by a payload that postcard reads, and
  -- returns what postcard read; a buffer of another version is refused with its version, whatever
  -- follows, and the empty one as too short.
  pub decode_outcomes :
      (buf : Bytes) (pkt : UdpPacketV1) (ver : ℕ) (payload : Bytes)
      → ver ≢ wire_version
      → ((decode post buf ≡ ok pkt)
          ↔ ((rest : Bytes) × (buf ≡ wire_version ∷ rest) × (post.from_bytes rest ≡ ok pkt)))
        × (decode post (ver ∷ payload) ≡ err (unsupported_wire_version ver))
        × (decode post [] ≡ err packet_too_short)
  unfolding decode
  decode_outcomes buf pkt ver payload h = (decode_ok buf pkt, ground arith, refl)
