-- ===== src/Conversation.antt =====
-- Sessions of the chat, gateway-go/internal/conversation: the turns of a session and the store in
-- memory, with the two metrics it sets. The clock's readings are arguments.
pub mod Sessions
pub mod Transcript
pub mod Pruned
pub mod Contract
pub mod Redis
mod Tests
use financial_ai_platform.Prelude.{
  ℕ, suc, ◌+◌, ◌-◌, Bool, if◌then◌else◌, ltb, Option, none, some, List, [], ◌∷◌, ◌++◌, length, drop,
  Text, Dict, get, put, remove, lit,
}

-- The roles of a turn are free text; these two are the ones the gateway writes.
abbrev pub role_user : Text
role_user = lit "user"

abbrev pub role_assistant : Text
role_assistant = lit "assistant"

pub record Turn : Type 0 where
  pub role : Text
  pub content : Text
  pub created_at : ℕ

abbrev pub max_turns_per_session : ℕ
max_turns_per_session = 20

-- `sessions_active` is the gauge and `sessions_pruned_total` the counter of the package.
pub record MemoryStore : Type 0 where
  pub turns_by : Dict (List Turn)
  pub last_activity : Dict ℕ
  sessions_active : ℕ
  sessions_pruned_total : ℕ

abbrev pub new_memory_store : MemoryStore
new_memory_store = record {
  turns_by = [];
  last_activity = [];
  sessions_active = 0;
  sessions_pruned_total = 0;
}

-- A missing key reads as the nil slice.
abbrev pub turns_or_nil : Option (List Turn) → List Turn
turns_or_nil none = []
turns_or_nil (some turns) = turns

-- `updated = updated[len(updated)-maxTurnsPerSession:]`, if it is longer than that.
unfoldable pub trim : List Turn → List Turn
trim updated =
    if ltb max_turns_per_session (length updated)
    then drop (length updated - max_turns_per_session) updated
    else updated

unfoldable pub append_turns : ℕ → MemoryStore → Text → List Turn → MemoryStore
unfolding trim
append_turns now s session_id turns =
    let updated = trim (turns_or_nil (get s.turns_by session_id) ++ turns) in
    let turns_by = put s.turns_by session_id updated in
    record s {
      turns_by = turns_by;
      last_activity = put s.last_activity session_id now;
      sessions_active = length turns_by;
    }

unfoldable pub history : MemoryStore → Text → List Turn
history s session_id = turns_or_nil (get s.turns_by session_id)

abbrev pub delete_session : Text → MemoryStore → MemoryStore
delete_session session_id s = record s {
  turns_by = remove s.turns_by session_id;
  last_activity = remove s.last_activity session_id;
}

-- One iteration of the loop over `lastActivity`, with the number pruned so far.
abbrev pub visit : ℕ → Text × ℕ → MemoryStore × ℕ → MemoryStore × ℕ
visit cutoff (session_id, last) (s, pruned) =
    if ltb last cutoff then (delete_session session_id s, suc pruned) else (s, pruned)

-- Go lets a loop delete the entry it stands on, so it visits each entry of the map it began with.
unfoldable pub prune_loop : ℕ → Dict ℕ → MemoryStore × ℕ → MemoryStore × ℕ
prune_loop cutoff [] state = state
prune_loop cutoff (e ∷ entries) state = prune_loop cutoff entries (visit cutoff e state)

abbrev pub set_metrics : MemoryStore × ℕ → MemoryStore × ℕ
set_metrics (s, pruned) =
    if ltb 0 pruned
    then (
      record s {
        sessions_pruned_total = s.sessions_pruned_total + pruned;
        sessions_active = length s.turns_by;
      },
      pruned,
    )
    else (s, pruned)

unfoldable pub prune_older_than : ℕ → MemoryStore → MemoryStore × ℕ
unfolding prune_loop
prune_older_than cutoff s = set_metrics (prune_loop cutoff s.last_activity (s, 0))
