-- ===== src/MlClient/Tests.antt =====
-- Concrete streams of the ML service.
use financial_ai_platform.Prelude.{
  ℕ, false, ◌≡◌, ◌≢◌, ◌⊎◌, refl, Option, none, some, List, [], ◌∷◌, ◌++◌, Text, lit, Result, ok,
}
use financial_ai_platform.MlClient.{Ending, eof, broken, Stream, Payload, token, final}
use financial_ai_platform.MlClient.Relay.{
  sending, returned, Relay, started, Run, here, next, recv, leave,
}
use financial_ai_platform.MlClient.Relay.Delivery.{events, due, Run-delivered}
use financial_ai_platform.MlClient.Relay.Abandoned.{Run-abandoned}
use financial_ai_platform.MlClient.Interceptor.{Code}

abbrev progress : Result Text (Stream ℕ)
progress = ok (record { messages = 1 ∷ 2 ∷ []; ending = eof })

abbrev chunks : List (Payload ℕ)
chunks = token (lit "a") ∷ final 5 ∷ []

abbrev cancelled : Ending
cancelled = broken (lit "context canceled")

-- The first token has been received, and its reader has left.
abbrev abandoned : Relay ℕ
abandoned = record {
  goroutine = sending (token (lit "a")) (final 5 ∷ []) cancelled;
  delivered = [];
  reading = false;
}

to_abandoned : Run (started chunks cancelled) abandoned
to_abandoned = next (recv (started chunks cancelled) chunks cancelled refl) (
    next
      (leave (record (started chunks cancelled) {
        goroutine = sending (token (lit "a")) (final 5 ∷ []) cancelled;
      }))
      here)

Run-delivered_example :
    (abandoned.delivered ++ due abandoned.goroutine ≡ events chunks cancelled)
    × ((abandoned.goroutine ≢ returned) ⊎ (abandoned.delivered ≡ events chunks cancelled))
Run-delivered_example = Run-delivered chunks cancelled abandoned to_abandoned

Run-abandoned_example : abandoned.goroutine ≢ returned
Run-abandoned_example =
    Run-abandoned chunks (lit "context canceled") abandoned abandoned to_abandoned refl (λ e. cc e)
      here

-- A server that opens a stream only for a request with metadata.
abbrev streamer : List (Text × Text) → Option Code
streamer [] = some 16
streamer (header ∷ metadata) = none
