-- ===== src/Conversation/Redis/Tests.antt =====
-- A Redis that never fails, with one list and the time at which it expires, and a codec that spells a
-- turn out.
use financial_ai_platform.Prelude.{
  ℕ, ◌+◌, ◌≤◌, ◌<◌, ◌≡◌, sym, ap, ◌∙◌, arith, ltb, if◌then◌else◌, Option, none, some, List, [], ◌∷◌,
  ◌++◌, Text, lit, Result, ok, err, length, take, drop, drop-append, take-append, Dict, get, put,
  get-put_self,
}
use financial_ai_platform.Conversation.{Turn}
use financial_ai_platform.Conversation.Transcript.{last_of}
use financial_ai_platform.Conversation.Redis.{Codec, Redis, whole_seconds}

encode : Turn → Text
encode turn = turn.created_at ∷ length turn.role ∷ (turn.role ++ turn.content)

decode : Text → Result Text Turn
decode (at ∷ n ∷ s) = ok (record { role = take n s; content = drop n s; created_at = at })
decode _ = err (lit "unexpected end of JSON input")

decode-encode : (turn : Turn) → decode (encode turn) ≡ ok turn
unfolding decode encode
decode-encode turn =
    ground (arith, take-append turn.role turn.content, drop-append turn.role turn.content)

-- The items of the keys, with the times at which they expire.
abbrev Lists : Type 0
Lists = Dict (List Text × ℕ)

abbrev live : ℕ → Option (List Text × ℕ) → List Text
live now none = []
live now (some (items, expires)) = if ltb now expires then items else []

push : ℕ → Lists → Text → List Text → ℕ → ℕ → Lists
push now s key items bound ttl =
    put s key (last_of bound (live now (get s key) ++ items), now + whole_seconds ttl)

abbrev marshalled : Turn → Result Text Text
marshalled turn = ok (encode turn)

abbrev range_all : ℕ → Lists → Text → Result Text (List Text)
range_all now s key = ok (live now (get s key))

abbrev pushed_items : ℕ → Lists → Text → List Text → ℕ → ℕ → Result Text Lists
pushed_items now s key items bound ttl = ok (push now s key items bound ttl)

decode_back : (turn : Turn) (raw : Text) → marshalled turn ≡ ok raw → decode raw ≡ ok turn
decode_back turn raw h =
    let same : encode turn ≡ raw = ground arith in ap decode (sym same) ∙ decode-encode turn

kept :
    (s s' : Lists) (now later : ℕ) (key : Text) (old items read : List Text) (bound ttl : ℕ)
    → range_all now s key ≡ ok old
    → pushed_items now s key items bound ttl ≡ ok s'
    → now ≤ later
    → later < now + whole_seconds ttl
    → range_all later s' key ≡ ok read
    → read ≡ last_of bound (old ++ items)
unfolding push
kept s s' now later key old items read bound ttl was pushed order fresh got =
    let before : live now (get s key) ≡ old = ground arith in
    let moved : put s key (last_of bound (live now (get s key) ++ items), now + whole_seconds ttl)
        ≡ s' =
      ground arith in
    let after : live later (get s' key) ≡ read = ground arith in
    let entry : List Text × ℕ =
      (last_of bound (live now (get s key) ++ items), now + whole_seconds ttl) in
    let there : get s' key ≡ some entry =
      ap (λ (t : Lists). get t key) (sym moved) ∙ get-put_self s key entry in
    sym after ∙ ap (live later) there ∙ ground arith

abbrev codec : Codec
codec = record { marshal = marshalled; unmarshal = decode; unmarshal-marshal = decode_back }

abbrev redis : Redis
redis = record {
  Server = Lists;
  push_trim_expire = pushed_items;
  range_all = range_all;
  range_all-push = kept;
}

abbrev turn : Turn
turn = record { role = lit "user"; content = lit "Hi"; created_at = 3 }

-- A minute and some nanoseconds, which are not sent.
abbrev ttl : ℕ
ttl = 60000000007

abbrev minute : ℕ
minute = 60000000000
