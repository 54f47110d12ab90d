-- ===== src/MlClient/Relay.antt =====
-- The goroutine of `Query`, gateway-go/internal/mlclient/client.go, and whoever reads its channel, as a
-- step relation. The channel has no buffer: a send waits for the reader.
pub mod Delivery
pub mod Abandoned
use financial_ai_platform.Prelude.{Bool, true, false, ◌≡◌, List, [], ◌∷◌, ◌++◌, Text}
use financial_ai_platform.MlClient.{
  Ending, eof, broken, Payload, token, final, unset, QueryEvent, failure, stream_error,
}

-- Where the goroutine stands: at `Recv`, at the send of an event with what `Recv` yields after it, at
-- the send of the error that ends it, or past the close of the channel.
pub data Goroutine (F : Type 0) : Type 0 where
  receiving : List (Payload F) → Ending → Goroutine F
  sending : QueryEvent F → List (Payload F) → Ending → Goroutine F
  failing : Text → Goroutine F
  returned : Goroutine F

pub record Relay (F : Type 0) : Type 0 where
  pub goroutine : Goroutine F
  pub delivered : List (QueryEvent F)
  pub reading : Bool

abbrev pub started : {F : Type 0} → List (Payload F) → Ending → Relay F
started chunks ending = record {
  goroutine = receiving chunks ending;
  delivered = [];
  reading = true;
}

-- The step that the goroutine makes by itself, from what `Recv` yields.
abbrev pub received : {F : Type 0} → List (Payload F) → Ending → Goroutine F
received [] eof = returned
received [] (broken cause) = failing cause
received (token t ∷ chunks) ending = sending (token t) chunks ending
received (final f ∷ chunks) ending = sending (final f) chunks ending
received (unset ∷ chunks) ending = receiving chunks ending

pub data Step {F : Type 0} : Relay F → Relay F → Type 0 where
  recv :
      (r : Relay F) (chunks : List (Payload F)) (ending : Ending)
      → r.goroutine ≡ receiving chunks ending
      → Step r (record r { goroutine = received chunks ending })
  deliver :
      (r : Relay F) (event : QueryEvent F) (chunks : List (Payload F)) (ending : Ending)
      → r.goroutine ≡ sending event chunks ending
      → r.reading ≡ true
      → Step r
          (record r { goroutine = receiving chunks ending; delivered = r.delivered ++ event ∷ [] })
  deliver_error :
      (r : Relay F) (cause : Text)
      → r.goroutine ≡ failing cause
      → r.reading ≡ true
      → Step r (record r {
        goroutine = returned;
        delivered = r.delivered ++ failure (stream_error cause) ∷ [];
      })
  -- The handler has returned.
  leave : (r : Relay F) → Step r (record r { reading = false })

pub data Run {F : Type 0} : Relay F → Relay F → Type 0 where
  here : {r : Relay F} → Run r r
  next : {r s t : Relay F} → Step r s → Run s t → Run r t
