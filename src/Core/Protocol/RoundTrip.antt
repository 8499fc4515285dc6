-- ===== src/Core/Protocol/RoundTrip.antt =====
-- On quote-core/src/protocol.rs: `format_stream_command` and `parse_command` together.
use rust_streaming_quotes.Base.{
  ◌≡◌, ◌≢◌, refl, ap, ◌∙◌, true, false, List, [], ◌∷◌, ◌++◌, is_empty, codes, Result, ok, err, All,
  Lacks, All-append,
}
use rust_streaming_quotes.Text.{Text, is_whitespace, split_whitespace, join}
use rust_streaming_quotes.Text.Split.{IsWord, words_first, words_single, words-append_blank}
use rust_streaming_quotes.TextSet.{IsAscending}
use rust_streaming_quotes.TextSet.Laws.{insert_all_self}
use rust_streaming_quotes.Core.Net.{Net}
use rust_streaming_quotes.Core.Error.{ProtocolError, empty_tickers}
use rust_streaming_quotes.Core.Tickers.{parse_tickers_csv}
use rust_streaming_quotes.Core.Tickers.Laws.{IsTicker, parse_tickers_csv-join}
use rust_streaming_quotes.Core.Protocol.{
  Command, stream, parse_command, format_stream_command, format_stream_command_line,
}
use rust_streaming_quotes.Core.Protocol.Parse.{interpret, parse_command_lem, space_white}

IsWord-append : (w v : Text) → IsWord w → Lacks is_whitespace v → IsWord (w ++ v)
IsWord-append [] v hw hv = absurd (hw.some_text refl)
IsWord-append (c ∷ w) v hw hv = record {
  some_text = λ e. cc;
  solid = All-append _ (c ∷ w) v hw.solid hv;
}

stream-IsWord : IsWord (codes "STREAM")
unfolding is_whitespace
stream-IsWord = record {
  some_text = λ e. cc;
  solid = (refl, (refl, (refl, (refl, (refl, (refl, tt))))));
}

scheme-IsWord : IsWord (codes "udp://")
unfolding is_whitespace
scheme-IsWord = record {
  some_text = λ e. cc;
  solid = (refl, (refl, (refl, (refl, (refl, (refl, tt))))));
}

comma_solid : is_whitespace b',' ≡ false
unfolding is_whitespace
comma_solid = refl

-- Words joined by commas are one word.
join-IsWord : (ws : List Text) → ws ≢ [] → All IsWord ws → IsWord (join (codes ",") ws)
unfolding join
join-IsWord [] h hs = absurd (h refl)
join-IsWord (w ∷ []) h (hw, _) = hw
join-IsWord (w ∷ v ∷ ws) h (hw, hs) =
    IsWord-append w _ hw (comma_solid, (join-IsWord (v ∷ ws) (λ e. cc) hs).solid)

module _ (net : Net) where
  open net use {SocketAddr, parse, display, parse-display, display_solid}

  -- What the server makes of an address and a list word.
  abbrev pub outcome : SocketAddr → Text → Result (Command net) ProtocolError
  outcome target list = elim (is_empty (parse_tickers_csv list)) [
    | true ↦ err empty_tickers
    | false ↦ ok (stream target (parse_tickers_csv list))
  ]

  uri : SocketAddr → Text
  uri target = codes "udp://" ++ display target

  uri-IsWord : (target : SocketAddr) → IsWord (uri target)
  unfolding uri
  uri-IsWord target = IsWord-append _ _ scheme-IsWord (display_solid target)

  words_command :
      (target : SocketAddr) (list : Text)
      → IsWord list
      → split_whitespace (codes "STREAM udp://" ++ (display target ++ (codes " " ++ list)))
        ≡ codes "STREAM" ∷ uri target ∷ list ∷ []
  unfolding uri
  words_command target list h =
      words_first (codes "STREAM") b' ' (uri target ++ (b' ' ∷ list)) stream-IsWord space_white
      ∙ ap (◌∷◌ (codes "STREAM")) (
          words_first (uri target) b' ' list (uri-IsWord target) space_white
          ∙ ap (◌∷◌ (uri target)) (words_single list h))

  interpret_command :
      (target : SocketAddr) (list : Text)
      → interpret net (codes "STREAM" ∷ uri target ∷ list ∷ []) ≡ outcome target list
  unfolding interpret uri
  interpret_command target list = rw (parse-display target)

  newline_white : is_whitespace b'\n' ≡ true
  unfolding is_whitespace
  newline_white = refl

  -- `format_stream_command_line` adds a line break only, which changes nothing for the server.
  pub parse_command-format :
      (target : SocketAddr) (tickers : List Text)
      → tickers ≢ []
      → All IsWord tickers
      → (parse_command net (format_stream_command net target tickers)
          ≡ outcome target (join (codes ",") tickers))
        × (parse_command net (format_stream_command_line net target tickers)
            ≡ outcome target (join (codes ",") tickers))
  unfolding format_stream_command format_stream_command_line
  parse_command-format target tickers h hs =
      (rw (parse_command_lem net _) command, rw (parse_command_lem net _) (with_newline ∙ command))
    where
      list_word : IsWord (join (codes ",") tickers)
      list_word = join-IsWord tickers h hs

      line : Text
      line = format_stream_command net target tickers

      command : interpret net (split_whitespace line) ≡ outcome target (join (codes ",") tickers)
      command = ap (interpret net) (words_command target _ list_word) ∙ interpret_command target _

      with_newline :
          interpret net (split_whitespace (line ++ codes "\n"))
          ≡ interpret net (split_whitespace line)
      with_newline = ap (interpret net) (words-append_blank line (codes "\n") (newline_white, tt))

All-IsWord : (ts : List Text) → All IsTicker ts → All (Lacks is_whitespace) ts → All IsWord ts
All-IsWord [] h hs = tt
All-IsWord (t ∷ ts) (h, h') (s, s') =
    (record { some_text = h.some_text; solid = s }, All-IsWord ts h' s')

outcome_ok :
    (net : Net) (target : net.SocketAddr) (tickers : List Text) (raw : Text)
    → tickers ≢ []
    → parse_tickers_csv raw ≡ tickers
    → outcome net target raw ≡ ok (stream target tickers)
outcome_ok net target [] raw h e = absurd (h refl)
outcome_ok net target (t ∷ ts) raw h e = rw (e, outcome) (ap (λ us. ok (stream target us)) e)

-- The line that the client sends for a nonempty, ascending list of normalised tickers without white
-- space is read by the server as the same address and the same list.
pub parse_command-format_line :
    (net : Net) (target : net.SocketAddr) (tickers : List Text)
    → tickers ≢ []
    → IsAscending tickers
    → All IsTicker tickers
    → All (Lacks is_whitespace) tickers
    → parse_command net (format_stream_command_line net target tickers) ≡ ok (stream target tickers)
parse_command-format_line net target tickers h asc ht hw =
    (parse_command-format net target tickers h (All-IsWord tickers ht hw)).1
    ∙ outcome_ok net target tickers (join (codes ",") tickers) h
        (parse_tickers_csv-join tickers ht ∙ insert_all_self tickers asc)
