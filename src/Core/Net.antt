-- ===== src/Core/Net.antt =====
-- `std::net::SocketAddr`, as the program uses it: it compares addresses, prints them and parses
-- them. That parsing inverts printing, and that the printed form holds no white space, is what the
-- standard library documents of the two.
use rust_streaming_quotes.Base.{◌≡◌, ◌↔◌, Bool, true, Option, some, Lacks}
use rust_streaming_quotes.Text.{Text, is_whitespace}

pub record Net : Type 1 where
  pub SocketAddr : Type 0
  pub addr_eq : SocketAddr → SocketAddr → Bool
  pub addr_eq_iff : (a b : SocketAddr) → (addr_eq a b ≡ true) ↔ (a ≡ b)
  pub parse : Text → Option SocketAddr
  pub display : SocketAddr → Text
  pub parse-display : (a : SocketAddr) → parse (display a) ≡ some a
  pub display_solid : (a : SocketAddr) → Lacks is_whitespace (display a)
