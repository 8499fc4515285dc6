-- ===== src/Core/Protocol/Parse.antt =====
-- On `parse_command` of quote-core/src/protocol.rs, by the words of the line.
use rust_streaming_quotes.Base.{
  ◌≡◌, ◌≢◌, refl, ap, sym, ◌∙◌, inl, inr, true, false, none, some, List, [], ◌∷◌, ◌++◌,
  if◌then◌else◌, is_empty, codes, Result, ok, err, ◌>>◌, refuse_if, arith, All, Option-cases,
  Bool-cases,
}
use rust_streaming_quotes.Text.{
  Text, is_whitespace, trim, split_whitespace, join, text_eq, strip_prefix,
}
use rust_streaming_quotes.Text.Split.{IsWord, words-IsWord, words-join}
use rust_streaming_quotes.Text.Trim.{words-trim, trim-is_empty}
use rust_streaming_quotes.Core.Net.{Net}
use rust_streaming_quotes.Core.Error.{
  ProtocolError, empty_command, missing_command, unknown_command, missing_udp_target,
  bad_udp_scheme, invalid_udp_address, missing_tickers, empty_tickers, extra_args,
}
use rust_streaming_quotes.Core.Tickers.{parse_tickers_csv}
use rust_streaming_quotes.TextSet.{IsAscending}
use rust_streaming_quotes.Text.Order.{strip_prefix-some, text_eq_iff}
use rust_streaming_quotes.Core.Tickers.Laws.{
  IsTicker, parse_tickers_csv-IsTicker, parse_tickers_csv-IsAscending,
}
use rust_streaming_quotes.Core.Protocol.{
  Command, stream, space, parse_stream, parse_parts, parse_command,
}

pub space_white : is_whitespace b' ' ≡ true
unfolding is_whitespace
space_white = refl

-- Words joined by spaces are blank exactly when there is none.
join-is_empty : (ws : List Text) → All IsWord ws → is_empty (trim (join space ws)) ≡ is_empty ws
join-is_empty ws h = trim-is_empty (join space ws) ∙ ap is_empty (words-join b' ' ws space_white h)

module _ (net : Net) where
  open net use {SocketAddr, parse}

  -- The last checks, once there are an address word and ticker words.
  accept : Text → Text → Result (Command net) ProtocolError
  accept udp_uri tickers_raw = elim (strip_prefix (codes "udp://") udp_uri) [
    | none ↦ err bad_udp_scheme
    | some addr ↦ elim (parse addr) [
      | none ↦ err (invalid_udp_address addr)
      | some target ↦ elim (is_empty (parse_tickers_csv tickers_raw)) [
        | true ↦ err empty_tickers
        | false ↦ ok (stream target (parse_tickers_csv tickers_raw))
      ]
    ]
  ]

  interpret_args : List Text → Result (Command net) ProtocolError
  unfolding accept
  interpret_args [] = err missing_udp_target
  interpret_args (udp_uri ∷ []) = err missing_tickers
  interpret_args (udp_uri ∷ w ∷ ws) = accept udp_uri (join space (w ∷ ws))

  -- The command that a list of words spells: the protocol, with no iterator and no trimming.
  unfoldable pub interpret : List Text → Result (Command net) ProtocolError
  unfolding interpret_args text_eq strip_prefix parse_tickers_csv join
  interpret [] = err empty_command
  interpret (cmd ∷ args) =
      if text_eq cmd (codes "STREAM") then interpret_args args else err (unknown_command cmd)

  parse_stream_lem : (ws : List Text) → All IsWord ws → parse_stream net ws ≡ interpret_args ws
  unfolding parse_stream interpret_args
  parse_stream_lem [] h = refl
  parse_stream_lem (u ∷ []) h = rw (join-is_empty [] tt)
  parse_stream_lem (u ∷ w ∷ ws) (_, h) = rw (join-is_empty (w ∷ ws) h) (ground arith)

  parse_parts_lem :
      (ws : List Text)
      → All IsWord ws
      → (refuse_if (is_empty ws) empty_command >> parse_parts net ws) ≡ interpret ws
  unfolding parse_parts interpret
  parse_parts_lem [] h = refl
  parse_parts_lem (cmd ∷ args) (_, h) = rw (parse_stream_lem args h)

  -- `parse_command` depends on the words of the line alone, and does what `interpret` says of them.
  pub parse_command_lem : (line : Text) → parse_command net line ≡ interpret (split_whitespace line)
  unfolding parse_command
  parse_command_lem line =
      rw (trim-is_empty line, words-trim line)
        (parse_parts_lem (split_whitespace line) (words-IsWord line))

  accept-ne-missing :
      (u raw : Text) → (accept u raw ≢ err missing_command) × (accept u raw ≢ err extra_args)
  unfolding accept
  accept-ne-missing u raw = (λ e. ground arith, λ e. ground arith)

  interpret-ne-missing :
      (ws : List Text) → (interpret ws ≢ err missing_command) × (interpret ws ≢ err extra_args)
  unfolding interpret interpret_args
  interpret-ne-missing [] = (λ e. cc, λ e. cc)
  interpret-ne-missing (cmd ∷ []) = (λ e. ground arith, λ e. ground arith)
  interpret-ne-missing (cmd ∷ u ∷ []) = (λ e. ground arith, λ e. ground arith)
  interpret-ne-missing (cmd ∷ u ∷ w ∷ ws) =
      let (m, x) = accept-ne-missing u (join space (w ∷ ws)) in
      (λ e. ground (arith, m), λ e. ground (arith, x))

  -- No line gives the errors `MissingCommand` and `ExtraArgs`: their branches are dead code.
  pub parse_command-ne-missing :
      (line : Text)
      → (parse_command net line ≢ err missing_command) × (parse_command net line ≢ err extra_args)
  parse_command-ne-missing line = rw (parse_command_lem line) (interpret-ne-missing _)

  -- The words of an accepted command, and what is read from them.
  pub record IsStream (ws : List Text) (target : SocketAddr) (tickers : List Text) : Type 0 where
    pub addr : Text
    pub first : Text
    pub rest : List Text
    pub spelled : ws ≡ codes "STREAM" ∷ (codes "udp://" ++ addr) ∷ first ∷ rest
    pub resolved : parse addr ≡ some target
    pub listed : tickers ≡ parse_tickers_csv (join space (first ∷ rest))
    pub some_ticker : tickers ≢ []

  accept_sound :
      (u raw : Text) (target : SocketAddr) (tickers : List Text)
      → accept u raw ≡ ok (stream target tickers)
      → (addr : Text) × (u ≡ codes "udp://" ++ addr)
        × (parse addr ≡ some target)
        × (tickers ≡ parse_tickers_csv raw)
        × (tickers ≢ [])
  unfolding accept
  accept_sound u raw target tickers h = elim (Option-cases (strip_prefix (codes "udp://") u)) [
    | inl e ↦ absurd (ground arith)
    | inr (addr, e) ↦ elim (Option-cases (parse addr)) [
      | inl e' ↦ absurd (ground arith)
      | inr (target', e') ↦
          (addr, strip_prefix-some _ u addr e, ground arith, ground arith, λ n. ground arith)
    ]
  ]

  interpret_sound :
      (ws : List Text) (target : SocketAddr) (tickers : List Text)
      → interpret ws ≡ ok (stream target tickers)
      → IsStream ws target tickers
  unfolding interpret interpret_args
  interpret_sound [] target tickers h = cc
  interpret_sound (cmd ∷ []) target tickers h = absurd (ground arith)
  interpret_sound (cmd ∷ u ∷ []) target tickers h = absurd (ground arith)
  interpret_sound (cmd ∷ u ∷ w ∷ ws) target tickers h =
      let raw = join space (w ∷ ws) in
      elim (Bool-cases (text_eq cmd (codes "STREAM"))) [
        | inl e ↦
            let (addr, eu, ep, el, en) = accept_sound u raw target tickers (ground arith) in
            record {
              addr = addr;
              first = w;
              rest = ws;
              spelled = cc ((text_eq_iff cmd (codes "STREAM")).0 e, eu);
              resolved = ep;
              listed = el;
              some_ticker = en;
            }
        | inr e ↦ absurd (ground arith)
      ]

  -- A line that is accepted is `STREAM`, an address that parses behind `udp://`, and at least one
  -- more word; the tickers are a nonempty, strictly ascending list of normalised tickers.
  pub parse_command_sound :
      (line : Text) (target : SocketAddr) (tickers : List Text)
      → parse_command net line ≡ ok (stream target tickers)
      → IsStream (split_whitespace line) target tickers × All IsTicker tickers × IsAscending tickers
  parse_command_sound line target tickers h =
      let s = interpret_sound _ target tickers (sym (parse_command_lem line) ∙ h) in
      (
        s,
        rw s.listed (parse_tickers_csv-IsTicker _),
        rw s.listed (parse_tickers_csv-IsAscending _).0,
      )
