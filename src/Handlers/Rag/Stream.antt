-- ===== src/Handlers/Rag/Stream.antt =====
-- What the client of a question sees, and which answer is kept, gateway-go/internal/handlers/rag.go.
use financial_ai_platform.Prelude.{◌≡◌, sym, ap, append-nil, ◌∙◌, List, [], ◌∷◌, ◌++◌, some, Text}
use mathlib.Core.List.{append_assoc}
use financial_ai_platform.MlClient.{QueryEvent, token, final}
use financial_ai_platform.Handlers.Rag.Messages.{QueryFinal}
use financial_ai_platform.Handlers.Rag.{
  ServerEvent, token_event, final_event, final_view, stream_events,
}

-- The events of an answer that came in these tokens.
abbrev pub token_events : {F : Type 0} → List Text → List (QueryEvent F) → List (QueryEvent F)
token_events [] rest = rest
token_events (t ∷ ts) rest = token t ∷ token_events ts rest

abbrev pub shown_tokens : {F : Type 0} → List Text → List (ServerEvent F) → List (ServerEvent F)
shown_tokens [] rest = rest
shown_tokens (t ∷ ts) rest = token_event t ∷ shown_tokens ts rest

abbrev pub concat : List Text → Text
concat [] = []
concat (t ∷ ts) = t ++ concat ts

module _ {F : Type 0} (session_id : Text) where
  -- Tokens are shown one by one, then the final message, and the answer is their text.
  pub stream_events_final :
      (ts : List Text) (answer : Text) (f : QueryFinal F) (rest : List (QueryEvent (QueryFinal F)))
      → stream_events session_id answer (token_events ts (final f ∷ rest))
        ≡ (shown_tokens ts (final_event (final_view session_id f) ∷ []), some (answer ++ concat ts))
  unfolding stream_events
  stream_events_final [] answer f rest =
      ap (λ a. (final_event (final_view session_id f) ∷ [], some a)) (sym (append-nil answer))
  stream_events_final (t ∷ ts) answer f rest =
      let later = stream_events_final ts (answer ++ t) f rest in
      ap (λ r. (token_event t ∷ r.0, r.1)) later
      ∙ ap
          (λ a.
            (token_event t ∷ shown_tokens ts (final_event (final_view session_id f) ∷ []), some a))
          (append_assoc answer t (concat ts))
