-- ===== src/Conversation/Redis/Kept.antt =====
-- What the store in Redis (gateway-go/internal/conversation/redis_store.go) gives back.
use financial_ai_platform.Prelude.{
  ℕ, zero, suc, ◌+◌, ◌-◌, ◌*◌, ◌/◌, ◌≤◌, ◌<◌, ◌≡◌, refl, sym, ap, ◌∙◌, List, [], ◌∷◌, ◌++◌, Text,
  lit, Result, ok, err, length, drop, Result-cases, ◌⊎◌, inl, inr, arith,
}
use financial_ai_platform.Conversation.{Turn, max_turns_per_session}
use financial_ai_platform.Conversation.Transcript.{last_of}
use financial_ai_platform.Conversation.Redis.{
  Codec, Redis, session_key, next, each, append_turns, history,
}

next_cases :
    {B : Type 0} (o : Result Text B) (p : Result Text (List B)) (bs : List B)
    → next o p ≡ ok bs
    → (b : B) × (rest : List B) × (o ≡ ok b) × (p ≡ ok rest) × (bs ≡ b ∷ rest)
next_cases (err cause) p bs h = absurd (grind arith)
next_cases (ok b) (err cause) bs h = absurd (grind arith)
next_cases (ok b) (ok rest) bs h = (b, rest, refl, refl, grind arith)

module _ {A : Type 0} {B : Type 0} where
  module _ (f : A → Result Text B) where
    each-append :
        (xs ys : List A) (cs bs : List B)
        → each f xs ≡ ok cs
        → each f ys ≡ ok bs
        → each f (xs ++ ys) ≡ ok (cs ++ bs)
    each-append [] ys cs bs e h = grind arith
    each-append (x ∷ xs) ys cs bs e h =
        let (b, rest, at, more, eq) = next_cases (f x) (each f xs) cs e in
        let ih = each-append xs ys rest bs more h in grind arith

    each-drop :
        (n : ℕ) (xs : List A) (cs : List B)
        → each f xs ≡ ok cs
        → each f (drop n xs) ≡ ok (drop n cs)
    each-drop zero xs cs h = h
    each-drop (suc n) [] cs h = grind arith
    each-drop (suc n) (x ∷ xs) cs h =
        let (b, rest, at, more, eq) = next_cases (f x) (each f xs) cs h in
        let ih = each-drop n xs rest more in grind arith

    length-each : (xs : List A) (cs : List B) → each f xs ≡ ok cs → length cs ≡ length xs
    length-each [] cs h = grind arith
    length-each (x ∷ xs) cs h =
        let (b, rest, at, more, eq) = next_cases (f x) (each f xs) cs h in
        let ih = length-each xs rest more in grind arith

each-each :
    (j : Codec) (turns : List Turn) (encoded : List Text)
    → each j.marshal turns ≡ ok encoded
    → each j.unmarshal encoded ≡ ok turns
each-each j [] encoded h = let same : [] ≡ encoded = grind arith in ap (each j.unmarshal) (sym same)
each-each j (turn ∷ turns) encoded h =
    let (raw, rest, at, more, eq) = next_cases (j.marshal turn) (each j.marshal turns) encoded h in
    let ih = each-each j turns rest more in
    let back = j.unmarshal-marshal turn raw at in grind arith

module _ (j : Codec) (r : Redis) (session_ttl : ℕ) where
  history_ok :
      (now : ℕ) (s : r.Server) (id : Text) (turns : List Turn)
      → history j r session_ttl now s id ≡ ok turns
      → (raw : List Text) × (r.range_all now s (session_key id) ≡ ok raw)
        × (each j.unmarshal raw ≡ ok turns)
  unfolding history
  history_ok now s id turns h = elim (Result-cases (r.range_all now s (session_key id))) [
    | inr (_, e) ↦ absurd (ground arith)
    | inl (raw, e) ↦ elim (Result-cases (each j.unmarshal raw)) [
      | inr (_, f) ↦ absurd (ground arith)
      | inl (got, f) ↦ (raw, e, f ∙ ap ok (ground arith))
    ]
  ]

  history_read :
      (now : ℕ) (s : r.Server) (id : Text) (raw : List Text) (turns : List Turn)
      → r.range_all now s (session_key id) ≡ ok raw
      → each j.unmarshal raw ≡ ok turns
      → history j r session_ttl now s id ≡ ok turns
  unfolding history
  history_read now s id raw turns e f = rw (e, f, history) refl

  append_ok :
      (now : ℕ) (s s' : r.Server) (id : Text) (turn : Turn) (turns : List Turn)
      → append_turns j r session_ttl now s id (turn ∷ turns) ≡ ok s'
      → (encoded : List Text) × (each j.marshal (turn ∷ turns) ≡ ok encoded)
        × (r.push_trim_expire now s (session_key id) encoded max_turns_per_session session_ttl
            ≡ ok s')
  unfolding append_turns
  append_ok now s s' id turn turns h = elim (Result-cases (each j.marshal (turn ∷ turns))) [
    | inr (_, e) ↦ absurd (ground arith)
    | inl (encoded, e) ↦
        elim (Result-cases
          (r.push_trim_expire now s (session_key id) encoded max_turns_per_session session_ttl)) [
            | inr (_, f) ↦ absurd (ground arith)
            | inl (next, f) ↦ (encoded, e, f ∙ ap ok (ground arith))
          ]
  ]

  pub history-append_turns :
      (s s' : r.Server) (now later : ℕ) (id : Text) (old : List Turn) (turn : Turn)
      (turns : List Turn)
      → now ≤ later
      → later < now + session_ttl / 1000000000 * 1000000000
      → history j r session_ttl now s id ≡ ok old
      → append_turns j r session_ttl now s id (turn ∷ turns) ≡ ok s'
      → ((cause : Text) × (r.range_all later s' (lit "conversation:" ++ id) ≡ err cause)
          × (history j r session_ttl later s' id
              ≡ err (lit "conversation: load history: " ++ cause)))
        ⊎ (history j r session_ttl later s' id ≡ ok (last_of 20 (old ++ (turn ∷ turns))))
  unfolding history session_key
  history-append_turns s s' now later id old turn turns order fresh h e =
      let (raw, at, decoded) = history_ok now s id old h in
      let (encoded, marshalled, pushed) = append_ok now s s' id turn turns e in
      elim (Result-cases (r.range_all later s' (session_key id))) [
        | inr (cause, absent) ↦ inl (cause, absent, rw (absent, history) refl)
        | inl (read, present) ↦
            let kept =
              r.range_all-push s s' now later (session_key id) raw encoded read
                max_turns_per_session session_ttl at pushed order fresh present in
            let both =
              each-append j.unmarshal raw encoded old (turn ∷ turns) decoded
                (each-each j (turn ∷ turns) encoded marshalled) in
            let cut =
              each-drop j.unmarshal (length (raw ++ encoded) - max_turns_per_session)
                (raw ++ encoded) (old ++ (turn ∷ turns)) both in
            let long = length-each j.unmarshal (raw ++ encoded) (old ++ (turn ∷ turns)) both in
            inr (
              history_read later s' id read (last_of max_turns_per_session (old ++ (turn ∷ turns)))
                present
                (ap (each j.unmarshal) kept
                  ∙ cut
                  ∙ ap (λ (n : ℕ). ok (drop (n - max_turns_per_session) (old ++ (turn ∷ turns))))
                      (sym long)))
      ]
