-- ===== src/Core/Constants.antt =====
-- quote-core/src/constants.rs. Times and durations are numbers of nanoseconds, as `Duration` and
-- `Instant` count them.
use rust_streaming_quotes.Base.{ℕ, ◌*◌}

abbrev pub from_secs : ℕ → ℕ
from_secs s = s * 1_000_000_000

abbrev pub from_millis : ℕ → ℕ
from_millis ms = ms * 1_000_000

abbrev pub ping_timeout : ℕ
ping_timeout = from_secs 5

abbrev pub ping_interval : ℕ
ping_interval = from_secs 2
