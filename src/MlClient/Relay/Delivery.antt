-- ===== src/MlClient/Relay/Delivery.antt =====
-- What the reader of a query's channel gets, and whether the goroutine ends,
-- gateway-go/internal/mlclient/client.go.
use financial_ai_platform.Prelude.{
  true, ◌≡◌, ◌≢◌, ◌⊎◌, inl, inr, refl, sym, ap, ◌∙◌, List, [], ◌∷◌, ◌++◌, append-nil,
}
use mathlib.Core.List.{append_assoc}
use financial_ai_platform.MlClient.{
  Ending, eof, broken, Payload, token, final, unset, QueryEvent, failure, stream_error,
}
use financial_ai_platform.MlClient.Relay.{
  Goroutine, receiving, sending, failing, returned, Relay, started, received, Step, recv, deliver,
  deliver_error, leave, Run, here, next,
}

module _ {F : Type 0} where
  -- The events of a stream, without any goroutine.
  abbrev pub events : List (Payload F) → Ending → List (QueryEvent F)
  events [] eof = []
  events [] (broken cause) = failure (stream_error cause) ∷ []
  events (token t ∷ chunks) ending = token t ∷ events chunks ending
  events (final f ∷ chunks) ending = final f ∷ events chunks ending
  events (unset ∷ chunks) ending = events chunks ending

  -- The events that a goroutine has still to send.
  abbrev pub due : Goroutine F → List (QueryEvent F)
  due (receiving chunks ending) = events chunks ending
  due (sending event chunks ending) = event ∷ events chunks ending
  due (failing cause) = failure (stream_error cause) ∷ []
  due returned = []

  pub due-received :
      (chunks : List (Payload F)) (ending : Ending)
      → due (received chunks ending) ≡ events chunks ending
  due-received [] eof = refl
  due-received [] (broken cause) = refl
  due-received (token t ∷ chunks) ending = refl
  due-received (final f ∷ chunks) ending = refl
  due-received (unset ∷ chunks) ending = refl

  moved :
      (delivered : List (QueryEvent F)) (event : QueryEvent F) (rest : List (QueryEvent F))
      → (delivered ++ event ∷ []) ++ rest ≡ delivered ++ event ∷ rest
  moved delivered event rest = append_assoc delivered (event ∷ []) rest

  -- No step loses or adds an event.
  Step-due :
      {r s : Relay F} → Step r s → s.delivered ++ due s.goroutine ≡ r.delivered ++ due r.goroutine
  Step-due (recv r chunks ending at) =
      ap (λ es. r.delivered ++ es) (due-received chunks ending ∙ sym (ap due at))
  Step-due (deliver r event chunks ending at reading) =
      moved r.delivered event (events chunks ending) ∙ sym (ap (λ g. r.delivered ++ due g) at)
  Step-due (deliver_error r cause at reading) =
      moved r.delivered (failure (stream_error cause)) [] ∙ sym (ap (λ g. r.delivered ++ due g) at)
  Step-due (leave r) = refl

  finished :
      (delivered : List (QueryEvent F)) (g : Goroutine F) (all : List (QueryEvent F))
      → delivered ++ due g ≡ all
      → (g ≢ returned) ⊎ (delivered ≡ all)
  finished delivered (receiving chunks ending) all h = inl (λ e. cc e)
  finished delivered (sending event chunks ending) all h = inl (λ e. cc e)
  finished delivered (failing cause) all h = inl (λ e. cc e)
  finished delivered returned all h = inr (sym (append-nil delivered) ∙ h)

  Run-due :
      {r s : Relay F} → Run r s → s.delivered ++ due s.goroutine ≡ r.delivered ++ due r.goroutine
  Run-due here = refl
  Run-due (next step run) = Run-due run ∙ Step-due step

  -- However the goroutine and its reader are interleaved, what was delivered, followed by what is due, is
  -- the events of the stream in its order; once the goroutine has returned, all of
  -- them were delivered.
  pub Run-delivered :
      (chunks : List (Payload F)) (ending : Ending) (r : Relay F)
      → Run (started chunks ending) r
      → (r.delivered ++ due r.goroutine ≡ events chunks ending)
        × ((r.goroutine ≢ returned) ⊎ (r.delivered ≡ events chunks ending))
  Run-delivered chunks ending r run =
      let whole = Run-due run in
      (whole, finished r.delivered r.goroutine (events chunks ending) whole)

  -- The relay with an event to send, and after its delivery.
  abbrev holding : Relay F → QueryEvent F → List (Payload F) → Ending → Relay F
  holding r event chunks ending = record r { goroutine = sending event chunks ending }

  abbrev after : Relay F → QueryEvent F → List (Payload F) → Ending → Relay F
  after r event chunks ending = record r {
    goroutine = receiving chunks ending;
    delivered = r.delivered ++ event ∷ [];
  }

  -- While there is a reader, the goroutine at `Recv` has a run that ends.
  pub receives_all :
      (chunks : List (Payload F)) (ending : Ending) (r : Relay F)
      → r.goroutine ≡ receiving chunks ending
      → r.reading ≡ true
      → (s : Relay F) × Run r s × (s.goroutine ≡ returned)
  receives_all [] eof r at reading = (_, next (recv r [] eof at) here, refl)
  receives_all [] (broken cause) r at reading =
      let failed : Relay F = record r { goroutine = failing cause } in
      (
        _,
        next (recv r [] (broken cause) at) (next (deliver_error failed cause refl reading) here),
        refl,
      )
  receives_all (token t ∷ chunks) ending r at reading =
      let (s, run, done) =
        receives_all chunks ending (after r (token t) chunks ending) refl reading in
      (
        s,
        next (recv r (token t ∷ chunks) ending at) (
            next (deliver (holding r (token t) chunks ending) (token t) chunks ending refl reading)
              run),
        done,
      )
  receives_all (final f ∷ chunks) ending r at reading =
      let (s, run, done) =
        receives_all chunks ending (after r (final f) chunks ending) refl reading in
      (
        s,
        next (recv r (final f ∷ chunks) ending at) (
            next (deliver (holding r (final f) chunks ending) (final f) chunks ending refl reading)
              run),
        done,
      )
  receives_all (unset ∷ chunks) ending r at reading =
      let (s, run, done) =
        receives_all chunks ending (record r { goroutine = receiving chunks ending }) refl
          reading in
      (s, next (recv r (unset ∷ chunks) ending at) run, done)
