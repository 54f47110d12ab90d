-- ===== src/Conversation/Tests.antt =====
-- Concrete sessions.
use financial_ai_platform.Prelude.{◌≡◌, none, List, [], ◌∷◌, lit, text_eq}
use financial_ai_platform.Conversation.{
  Turn, new_memory_store, max_turns_per_session, role_user, role_assistant, history,
}
use financial_ai_platform.Conversation.Transcript.{
  Operation, append, prune, run, said, transcript, last_of, history-run,
}

abbrev question : Turn
question = record { role = role_user; content = lit "hi"; created_at = 5 }

abbrev answer : Turn
answer = record { role = role_assistant; content = lit "hello"; created_at = 5 }

abbrev chat : List Operation
chat =
    append 5 (lit "a") (question ∷ answer ∷ [])
    ∷ append 7 (lit "b") (question ∷ [])
    ∷ prune 6
    ∷ append 9 (lit "a") (answer ∷ [])
    ∷ []

pruned_history : history (run chat new_memory_store) (lit "a") ≡ answer ∷ []
unfolding text_eq
pruned_history = history-run chat (lit "a")

history-run_example :
    history (run chat new_memory_store) (lit "b")
    ≡ last_of max_turns_per_session (said (transcript (lit "b") chat none))
history-run_example = history-run chat (lit "b")
