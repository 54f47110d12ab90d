-- ===== src/MlClient.antt =====
-- The client of the ML service, gateway-go/internal/mlclient/client.go: the streams that it drains or
-- relays. gRPC is a parameter: a call either fails to open, or yields its messages in order and then
-- io.EOF or an error.
pub mod Drain
pub mod Relay
pub mod Interceptor
pub mod Unary
mod Tests
use financial_ai_platform.Prelude.{
  Bool, true, false, Option, none, some, List, [], ◌∷◌, ◌++◌, Text, lit, Result, ok, err,
}

pub data Ending : Type 0 where
  eof : Ending
  broken : Text → Ending

-- What `Recv` yields from now on.
pub record Stream (M : Type 0) : Type 0 where
  pub messages : List M
  pub ending : Ending

abbrev pub no_progress : Text
no_progress = lit "mlclient: ChunkAndEmbed: server closed the stream without sending any progress"

-- fmt's verb %w behind a prefix.
abbrev pub wrapped : Text → Text → Text
wrapped prefix cause = prefix ++ cause

module _ {M : Type 0} where
  abbrev pub ended : Ending → Option M → Result Text M
  ended eof none = err no_progress
  ended eof (some final) = ok final
  ended (broken cause) final = err (wrapped (lit "mlclient: ChunkAndEmbed stream: ") cause)

  -- The loop of `ChunkAndEmbed`, with the last message so far.
  unfoldable pub drain : List M → Ending → Option M → Result Text M
  drain [] ending final = ended ending final
  drain (progress ∷ messages) ending final = drain messages ending (some progress)

  unfoldable pub chunk_and_embed : Result Text (Stream M) → Result Text M
  unfolding drain
  chunk_and_embed (err cause) = err (wrapped (lit "mlclient: ChunkAndEmbed: ") cause)
  chunk_and_embed (ok stream) = drain stream.messages stream.ending none

-- The payload of a chunk of an answer; `unset` is neither of the two that the client knows.
pub data Payload (F : Type 0) : Type 0 where
  token : Text → Payload F
  final : F → Payload F
  unset : Payload F

pub data QueryEvent (F : Type 0) : Type 0 where
  token : Text → QueryEvent F
  final : F → QueryEvent F
  failure : Text → QueryEvent F

abbrev pub stream_error : Text → Text
stream_error cause = wrapped (lit "mlclient: Query stream: ") cause
