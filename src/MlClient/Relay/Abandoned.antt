-- ===== src/MlClient/Relay/Abandoned.antt =====
-- Goroutines whose reader has gone, gateway-go/internal/mlclient/client.go.
use financial_ai_platform.Prelude.{false, ◌≡◌, ◌≢◌, refl, sym, ap, subst, ◌∙◌, List, [], ◌∷◌, Text}
use financial_ai_platform.MlClient.{Ending, eof, broken, Payload, token, final, unset}
use financial_ai_platform.MlClient.Relay.{
  Goroutine, receiving, sending, failing, returned, Relay, started, received, Step, recv, deliver,
  deliver_error, leave, Run, here, next,
}
use financial_ai_platform.MlClient.Relay.Delivery.{events, due, due-received}

module _ {F : Type 0} where
  -- Without a reader nothing is delivered.
  Step-unread :
      {r s : Relay F}
      → Step r s
      → r.reading ≡ false
      → (s.reading ≡ false) × (due s.goroutine ≡ due r.goroutine)
  Step-unread (recv r chunks ending at) gone = (gone, due-received chunks ending ∙ sym (ap due at))
  Step-unread (deliver r event chunks ending at reading) gone = absurd (cc)
  Step-unread (deliver_error r cause at reading) gone = absurd (cc)
  Step-unread (leave r) gone = (refl, refl)

  Run-unread : {r s : Relay F} → Run r s → r.reading ≡ false → due s.goroutine ≡ due r.goroutine
  Run-unread here gone = refl
  Run-unread (next step run) gone =
      let (still, same) = Step-unread step gone in Run-unread run still ∙ same

  -- A goroutine with an event due never returns once its reader is gone.
  pub Run-stuck :
      (r s : Relay F) → r.reading ≡ false → due r.goroutine ≢ [] → Run r s → s.goroutine ≢ returned
  Run-stuck r s gone left run done = left (sym (Run-unread run gone) ∙ ap due done)

  -- What `Recv` yields ends with this error.
  abbrev Breaks : Text → Goroutine F → Type 0
  Breaks cause (receiving chunks ending) = ending ≡ broken cause
  Breaks cause (sending event chunks ending) = ending ≡ broken cause
  Breaks cause (failing c) = Unit
  Breaks cause returned = Unit

  Breaks-received :
      (cause : Text) (chunks : List (Payload F)) (ending : Ending)
      → ending ≡ broken cause
      → Breaks cause (received chunks ending)
  Breaks-received cause [] eof h = tt
  Breaks-received cause [] (broken c) h = tt
  Breaks-received cause (token t ∷ chunks) ending h = h
  Breaks-received cause (final f ∷ chunks) ending h = h
  Breaks-received cause (unset ∷ chunks) ending h = h

  Step-Breaks :
      {r s : Relay F} (cause : Text)
      → Step r s
      → Breaks cause r.goroutine
      → Breaks cause s.goroutine
  Step-Breaks cause (recv r chunks ending at) h =
      Breaks-received cause chunks ending (subst (Breaks cause) at h)
  Step-Breaks cause (deliver r event chunks ending at reading) h = subst (Breaks cause) at h
  Step-Breaks cause (deliver_error r c at reading) h = tt
  Step-Breaks cause (leave r) h = h

  Run-Breaks :
      {r s : Relay F} (cause : Text) → Run r s → Breaks cause r.goroutine → Breaks cause s.goroutine
  Run-Breaks cause here h = h
  Run-Breaks cause (next step run) h = Run-Breaks cause run (Step-Breaks cause step h)

  events_broken : (chunks : List (Payload F)) (cause : Text) → events chunks (broken cause) ≢ []
  events_broken [] cause e = cc e
  events_broken (token t ∷ chunks) cause e = cc e
  events_broken (final f ∷ chunks) cause e = cc e
  events_broken (unset ∷ chunks) cause e = events_broken chunks cause e

  due_broken : (g : Goroutine F) (cause : Text) → Breaks cause g → g ≢ returned → due g ≢ []
  due_broken (receiving chunks ending) cause h left e =
      events_broken chunks cause (ap (events chunks) (sym h) ∙ e)
  due_broken (sending event chunks ending) cause h left e = cc e
  due_broken (failing c) cause h left e = cc e
  due_broken returned cause h left e = left refl

  -- On a stream that ends with an error, as a cancelled one does, a goroutine whose reader has gone before
  -- it returned never returns.
  pub Run-abandoned :
      (chunks : List (Payload F)) (cause : Text) (r s : Relay F)
      → Run (started chunks (broken cause)) r
      → r.reading ≡ false
      → r.goroutine ≢ returned
      → Run r s
      → s.goroutine ≢ returned
  Run-abandoned chunks cause r s before gone left run =
      Run-stuck r s gone (due_broken r.goroutine cause (Run-Breaks cause before refl) left) run
