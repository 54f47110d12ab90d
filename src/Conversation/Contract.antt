-- ===== src/Conversation/Contract.antt =====
-- The interface `Store` (gateway-go/internal/conversation/store.go) with what its clients rely on, and
-- the store in memory as an implementation.
use financial_ai_platform.Prelude.{
  ℕ, ◌+◌, ◌≤◌, ◌<◌, ◌≡◌, ap, ◌∙◌, Result, ok, List, ◌++◌, Text, get, get-put_self,
}
use financial_ai_platform.Conversation.{
  Turn, MemoryStore, max_turns_per_session, turns_or_nil, trim, append_turns, history,
}
use financial_ai_platform.Conversation.Transcript.{last_of, trim_lem}

-- The clients ignore the error of an append; the law is that of a store whose appends do not fail.
pub record Store : Type 1 where
  pub State : Type 0
  pub append_turns : ℕ → State → Text → List Turn → State
  pub history : ℕ → State → Text → Result Text (List Turn)
  -- How long a session surely outlives an append.
  pub lifetime : ℕ
  pub history-append_turns :
      (s : State) (now later : ℕ) (id : Text) (old turns : List Turn)
      → now ≤ later
      → later < now + lifetime
      → history now s id ≡ ok old
      → history later (append_turns now s id turns) id
        ≡ ok (last_of max_turns_per_session (old ++ turns))

history-append :
    (s : MemoryStore) (now : ℕ) (id : Text) (turns : List Turn)
    → history (append_turns now s id turns) id
      ≡ last_of max_turns_per_session (history s id ++ turns)
unfolding append_turns history
history-append s now id turns =
    let updated = trim (turns_or_nil (get s.turns_by id) ++ turns) in
    ap turns_or_nil (get-put_self s.turns_by id updated)
    ∙ trim_lem (turns_or_nil (get s.turns_by id) ++ turns)

-- `History` of the store in memory has no error.
abbrev pub memory_history : ℕ → MemoryStore → Text → Result Text (List Turn)
memory_history now s id = ok (history s id)

pub memory_history-append_turns :
    (lifetime : ℕ) (s : MemoryStore) (now later : ℕ) (id : Text) (old turns : List Turn)
    → now ≤ later
    → later < now + lifetime
    → memory_history now s id ≡ ok old
    → memory_history later (append_turns now s id turns) id
      ≡ ok (last_of max_turns_per_session (old ++ turns))
memory_history-append_turns lifetime s now later id old turns order fresh h =
    let same : history s id ≡ old = cc in
    ap ok
      (history-append s now id turns ∙ ap (λ h. last_of max_turns_per_session (h ++ turns)) same)

-- A session lives until it is pruned, here for the age at which that happens.
abbrev pub memory_store : ℕ → Store
memory_store max_age = record {
  State = MemoryStore;
  append_turns = append_turns;
  history = memory_history;
  lifetime = max_age;
  history-append_turns = memory_history-append_turns max_age;
}
