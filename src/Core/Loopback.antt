-- ===== src/Core/Loopback.antt =====
-- The addresses `127.0.0.1:<port>`, by their port: an instance of the interface `Net`.
use rust_streaming_quotes.Base.{
  ℕ, ◌==◌, ==_iff, ◌≡◌, refl, Option, none, some, ◌++◌, codes, All-append, Lacks,
}
use rust_streaming_quotes.Text.{Text, is_whitespace, strip_prefix}
use rust_streaming_quotes.Text.Decimal.{
  display_nat, parse_nat, parse_nat-display_nat, display_nat_solid,
}
use rust_streaming_quotes.Core.Net.{Net}

host : Text
host = codes "127.0.0.1:"

port_of : Option Text → Option ℕ
port_of none = none
port_of (some s) = parse_nat s

unfoldable pub parse_port : Text → Option ℕ
unfolding port_of parse_nat host strip_prefix
parse_port s = port_of (strip_prefix host s)

unfoldable pub display_port : ℕ → Text
unfolding display_nat host
display_port port = host ++ display_nat port

pub parse_port-display_port : (port : ℕ) → parse_port (display_port port) ≡ some port
unfolding parse_port display_port
parse_port-display_port port = parse_nat-display_nat port

host_solid : Lacks is_whitespace host
unfolding is_whitespace host
host_solid = (refl, (refl, (refl, (refl, (refl, (refl, (refl, (refl, (refl, (refl, tt))))))))))

pub display_port_solid : (port : ℕ) → Lacks is_whitespace (display_port port)
unfolding display_port
display_port_solid port = All-append _ host (display_nat port) host_solid (display_nat_solid port)

abbrev pub loopback : Net
loopback = record {
  SocketAddr = ℕ;
  addr_eq = ◌==◌;
  addr_eq_iff = ==_iff;
  parse = parse_port;
  display = display_port;
  parse-display = parse_port-display_port;
  display_solid = display_port_solid;
}
