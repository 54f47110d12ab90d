-- ===== src/Conversation/Redis.antt =====
-- The store in Redis (gateway-go/internal/conversation/redis_store.go). Redis and encoding/json are
-- parameters.
pub mod Kept
mod Tests
use financial_ai_platform.Prelude.{
  ℕ, ◌+◌, ◌*◌, ◌/◌, ◌>>=◌, ◌≤◌, ◌<◌, ◌≡◌, List, [], ◌∷◌, ◌++◌, Text, lit, Result, ok, err,
}
use financial_ai_platform.Conversation.{Turn, max_turns_per_session}
use financial_ai_platform.Conversation.Transcript.{last_of}

-- A turn as JSON; an error is its text.
pub record Codec : Type 0 where
  pub marshal : Turn → Result Text Text
  pub unmarshal : Text → Result Text Turn
  pub unmarshal-marshal :
      (turn : Turn) (raw : Text) → marshal turn ≡ ok raw → unmarshal raw ≡ ok turn

-- EXPIRE takes whole seconds: the client sends a duration in nanoseconds without the rest.
abbrev pub whole_seconds : ℕ → ℕ
whole_seconds ttl = ttl / 1000000000 * 1000000000

-- The pipeline RPUSH, LTRIM to the last items, EXPIRE as one transaction, and LRANGE of a whole list;
-- either may fail, with an error's text, and a transaction that fails changes nothing. Times are in
-- nanoseconds.
pub record Redis : Type 1 where
  pub Server : Type 0
  pub push_trim_expire : ℕ → Server → Text → List Text → ℕ → ℕ → Result Text Server
  pub range_all : ℕ → Server → Text → Result Text (List Text)
  -- Until the key expires, the list is the last of the old items and the new.
  pub range_all-push :
      (s s' : Server) (now later : ℕ) (key : Text) (old items read : List Text) (bound ttl : ℕ)
      → range_all now s key ≡ ok old
      → push_trim_expire now s key items bound ttl ≡ ok s'
      → now ≤ later
      → later < now + whole_seconds ttl
      → range_all later s' key ≡ ok read
      → read ≡ last_of bound (old ++ items)

unfoldable pub session_key : Text → Text
session_key session_id = lit "conversation:" ++ session_id

-- The loops over the turns and over the items: each is converted, up to the first that fails.
abbrev pub next : {B : Type 0} → Result Text B → Result Text (List B) → Result Text (List B)
next (err cause) rest = err cause
next (ok b) (err cause) = err cause
next (ok b) (ok bs) = ok (b ∷ bs)

abbrev pub each : {A : Type 0} {B : Type 0} → (A → Result Text B) → List A → Result Text (List B)
each f [] = ok []
each f (a ∷ rest) = next (f a) (each f rest)

-- An error wrapped by fmt.Errorf.
abbrev pub wrapped : {B : Type 0} → Text → Result Text B → Result Text B
wrapped prefix (err cause) = err (prefix ++ cause)
wrapped prefix (ok b) = ok b

module _ (j : Codec) where
  module _ (r : Redis) (session_ttl : ℕ) where
    -- The server as the pipeline leaves it; no turns are no call.
    unfoldable pub append_turns : ℕ → r.Server → Text → List Turn → Result Text r.Server
    append_turns now s session_id [] = ok s
    append_turns now s session_id (turn ∷ turns) = do
      encoded ← wrapped (lit "conversation: encode turn: ") (each j.marshal (turn ∷ turns))
      wrapped (lit "conversation: append turns: ") (
          r.push_trim_expire now s (session_key session_id) encoded max_turns_per_session
            session_ttl)

    unfoldable pub history : ℕ → r.Server → Text → Result Text (List Turn)
    history now s session_id = do
      raw ←
          wrapped (lit "conversation: load history: ") (r.range_all now s (session_key session_id))
      wrapped (lit "conversation: decode turn: ") (each j.unmarshal raw)
