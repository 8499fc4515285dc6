-- ===== src/Core/PlainPost.antt =====
-- A serialisation by lists of numbers, in place of the crate postcard: an instance of the interface
-- `Postcard`.
use rust_streaming_quotes.Base.{ℕ, zero, suc, ◌≡◌, refl, [], ◌∷◌, Result, ok, err, arith}
use rust_streaming_quotes.Base.Int.{ℤ, pos, negsuc}
use rust_streaming_quotes.Core.Wire.{
  Bytes, UdpPacketV1, quote, ping, Postcard, wire_version, encode_v1,
}
use rust_streaming_quotes.Core.Types.{StockQuote}

sign_of : ℤ → ℕ
sign_of (pos n) = 0
sign_of (negsuc n) = 1

size_of : ℤ → ℕ
size_of (pos n) = n
size_of (negsuc n) = n

price_of : ℕ → ℕ → ℤ
price_of zero n = pos n
price_of (suc s) n = negsuc n

-- The packet's number, the price's sign and size, the volume, the time, the name.
unfoldable pub to_list : UdpPacketV1 → Result Bytes (Unit {0})
unfolding sign_of size_of
to_list ping = ok (1 ∷ [])
to_list (quote q) =
    ok (0 ∷ sign_of q.price ∷ size_of q.price ∷ q.volume ∷ q.timestamp_ms ∷ q.ticker)

read_fields : Bytes → Result UdpPacketV1 (Unit {0})
unfolding price_of
read_fields (sign ∷ size ∷ volume ∷ time ∷ name) = ok (
    quote
      (record { ticker = name; price = price_of sign size; volume = volume; timestamp_ms = time }))
read_fields _ = err tt

unfoldable pub from_list : Bytes → Result UdpPacketV1 (Unit {0})
unfolding read_fields
from_list [] = err tt
from_list (zero ∷ fields) = read_fields fields
from_list (suc tag ∷ fields) = ok ping

price_of-sign_of : (price : ℤ) → price_of (sign_of price) (size_of price) ≡ price
unfolding price_of sign_of size_of
price_of-sign_of (pos n) = refl
price_of-sign_of (negsuc n) = refl

pub from_list-to_list :
    (pkt : UdpPacketV1) (bytes : Bytes) → to_list pkt ≡ ok bytes → from_list bytes ≡ ok pkt
unfolding to_list from_list
from_list-to_list ping bytes h = ground arith
from_list-to_list (quote q) bytes h = ground (arith, price_of-sign_of q.price)

abbrev pub plain_post : Postcard
plain_post = record {
  Error = Unit {0};
  to_allocvec = to_list;
  from_bytes = from_list;
  from_bytes-to_allocvec = from_list-to_list;
}

-- What `encode_v1` makes of a quote.
unfoldable pub quote_bytes : StockQuote → Bytes
unfolding sign_of size_of
quote_bytes q =
    wire_version ∷ 0 ∷ sign_of q.price ∷ size_of q.price ∷ q.volume ∷ q.timestamp_ms ∷ q.ticker

pub encode_v1-quote : (q : StockQuote) → encode_v1 plain_post (quote q) ≡ ok (quote_bytes q)
unfolding encode_v1 to_list quote_bytes
encode_v1-quote q = refl
