-- ===== src/Conversation/Transcript.antt =====
-- The store of gateway-go/internal/conversation/memory_store.go against what it stands for: for each
-- session everything said since it was last pruned, and the time of the last append.
use financial_ai_platform.Prelude.{
  ℕ, zero, suc, ◌+◌, ◌-◌, ◌≤◌, ◌≡◌, refl, sym, ap, ◌∙◌, if◌then◌else◌, ltb, Option, none, some,
  List, [], ◌∷◌, ◌++◌, length, drop, length-append, length-drop, Text, text_eq, text_eq_iff, get,
  get-put, IsDistinct, put-IsDistinct, arith,
}
use financial_ai_platform.Conversation.{
  Turn, MemoryStore, new_memory_store, max_turns_per_session, turns_or_nil, trim, append_turns,
  history, prune_older_than, prune_loop, set_metrics,
}
use financial_ai_platform.Conversation.Sessions.{get-prune_loop, prune_loop-IsDistinct}

-- A call of the store that writes.
pub data Operation : Type 0 where
  append : ℕ → Text → List Turn → Operation
  prune : ℕ → Operation

abbrev pub perform : Operation → MemoryStore → MemoryStore
perform (append now session_id turns) s = append_turns now s session_id turns
perform (prune cutoff) s = (prune_older_than cutoff s).0

abbrev pub run : List Operation → MemoryStore → MemoryStore
run [] s = s
run (op ∷ ops) s = run ops (perform op s)

-- The whole of a session and its last activity.
abbrev pub Session : Type 0
Session = List Turn × ℕ

abbrev pub said : Option Session → List Turn
said none = []
said (some (turns, last)) = turns

abbrev pub next_session : Text → Operation → Option Session → Option Session
next_session k (append now session_id turns) old =
    if text_eq session_id k then some (said old ++ turns, now) else old
next_session k (prune cutoff) none = none
next_session k (prune cutoff) (some (turns, last)) =
    if ltb last cutoff then none else some (turns, last)

abbrev pub transcript : Text → List Operation → Option Session → Option Session
transcript k [] session = session
transcript k (op ∷ ops) session = transcript k ops (next_session k op session)

module _ {ℓ} {A : Type ℓ} where
  abbrev pub last_of : ℕ → List A → List A
  last_of n xs = drop (length xs - n) xs

  drop-append_le : (n : ℕ) (xs ys : List A) → n ≤ length xs → drop n (xs ++ ys) ≡ drop n xs ++ ys
  drop-append_le zero xs ys h = refl
  drop-append_le (suc n) [] ys h = ground arith
  drop-append_le (suc n) (x ∷ xs) ys h = drop-append_le n xs ys (omega (arith, h))

  drop-nil : (n : ℕ) → drop {A = A} n [] ≡ []
  drop-nil zero = refl
  drop-nil (suc n) = refl

  drop-drop : (m n : ℕ) (xs : List A) → drop m (drop n xs) ≡ drop (n + m) xs
  drop-drop m zero xs = ap (λ k. drop k xs) (omega arith)
  drop-drop m (suc n) [] = drop-nil m ∙ sym (drop-nil (suc n + m))
  drop-drop m (suc n) (x ∷ xs) =
      let shifted : suc (n + m) ≡ suc n + m = omega arith in
      drop-drop m n xs ∙ ap (λ k. drop k (x ∷ xs)) shifted

  -- Forgetting early what falls out later loses nothing.
  pub last_of-append :
      (n : ℕ) (xs ys : List A) → last_of n (last_of n xs ++ ys) ≡ last_of n (xs ++ ys)
  last_of-append n xs ys =
      let cut = length xs - n in
      let early : last_of n xs ++ ys ≡ drop cut (xs ++ ys) =
        sym (drop-append_le cut xs ys (omega arith)) in
      let left = length-drop cut (xs ++ ys) in
      let whole = length-append xs ys in
      ap (last_of n) early
      ∙ drop-drop (length (drop cut (xs ++ ys)) - n) cut (xs ++ ys)
      ∙ ap (λ k. drop k (xs ++ ys)) (omega (arith, left, whole))

pub trim_lem : (xs : List Turn) → trim xs ≡ last_of max_turns_per_session xs
unfolding trim
trim_lem xs =
    let nothing : length xs ≤ 20 → drop (length xs - 20) xs ≡ xs =
      λ h. let none_cut : length xs - 20 ≡ 0 = omega (arith, h) in ap (λ k. drop k xs) none_cut in
    ground (arith, nothing)

trim-append : (xs ys : List Turn) → trim (trim xs ++ ys) ≡ trim (xs ++ ys)
trim-append xs ys =
    ap (λ zs. trim (zs ++ ys)) (trim_lem xs)
    ∙ trim_lem (last_of 20 xs ++ ys)
    ∙ last_of-append 20 xs ys
    ∙ sym (trim_lem (xs ++ ys))

-- What the maps of the store hold of a session.
abbrev pub shown : Option Session → Option (List Turn)
shown none = none
shown (some (turns, last)) = some (trim turns)

abbrev pub seen : Option Session → Option ℕ
seen none = none
seen (some (turns, last)) = some last

abbrev pub IsShown : MemoryStore → Text → Option Session → Type 0
IsShown s k session =
    IsDistinct s.turns_by
    × IsDistinct s.last_activity
    × (get s.turns_by k ≡ shown session)
    × (get s.last_activity k ≡ seen session)

trim-joined :
    (session : Option Session) (turns : List Turn)
    → trim (turns_or_nil (shown session) ++ turns) ≡ trim (said session ++ turns)
trim-joined none turns = refl
trim-joined (some (old, last)) turns = trim-append old turns

append-IsShown :
    (now : ℕ) (s : MemoryStore) (id k : Text) (turns : List Turn) (session : Option Session)
    → IsShown s k session
    → IsShown (append_turns now s id turns) k (next_session k (append now id turns) session)
unfolding append_turns
append-IsShown now s id k turns session (distinct_turns, distinct_times, turns_eq, time_eq) =
    let updated = trim (turns_or_nil (get s.turns_by id) ++ turns) in
    let turns_kept = put-IsDistinct s.turns_by id updated distinct_turns in
    let times_kept = put-IsDistinct s.last_activity id now distinct_times in
    let turns_read = get-put s.turns_by id k updated in
    let time_read = get-put s.last_activity id k now in
    let joined = trim-joined session turns in
    let same_turns : id ≡ k → get s.turns_by id ≡ shown session =
      λ e. ap (get s.turns_by) e ∙ turns_eq in
    let updated_eq : id ≡ k → updated ≡ trim (said session ++ turns) =
      λ e. ap (λ o. trim (turns_or_nil o ++ turns)) (same_turns e) ∙ joined in
    ground (
      arith,
      turns_kept,
      times_kept,
      turns_read,
      time_read,
      turns_eq,
      time_eq,
      text_eq_iff id k,
      updated_eq,
    )

pub set_metrics_lem :
    (r : MemoryStore × ℕ)
    → ((set_metrics r).0.turns_by ≡ r.0.turns_by)
      × ((set_metrics r).0.last_activity ≡ r.0.last_activity)
set_metrics_lem r = ground arith

prune-IsShown :
    (cutoff : ℕ) (s : MemoryStore) (k : Text) (session : Option Session)
    → IsShown s k session
    → IsShown (prune_older_than cutoff s).0 k (next_session k (prune cutoff) session)
unfolding prune_older_than
prune-IsShown cutoff s k session (distinct_turns, distinct_times, turns_eq, time_eq) =
    let distinct = prune_loop-IsDistinct cutoff s.last_activity s 0 distinct_turns distinct_times in
    let reads = get-prune_loop cutoff s.last_activity s 0 k distinct_times in
    let same = set_metrics_lem (prune_loop cutoff s.last_activity (s, 0)) in
    elim session [
      | none ↦ ground (arith, distinct, reads, same, turns_eq, time_eq)
      | some (old, last) ↦ ground (arith, distinct, reads, same, turns_eq, time_eq)
    ]

run-IsShown :
    (ops : List Operation) (s : MemoryStore) (k : Text) (session : Option Session)
    → IsShown s k session
    → IsShown (run ops s) k (transcript k ops session)
run-IsShown [] s k session h = h
run-IsShown (append now id turns ∷ ops) s k session h =
    run-IsShown ops (append_turns now s id turns) k (next_session k (append now id turns) session)
      (append-IsShown now s id k turns session h)
run-IsShown (prune cutoff ∷ ops) s k session h =
    run-IsShown ops (prune_older_than cutoff s).0 k (next_session k (prune cutoff) session)
      (prune-IsShown cutoff s k session h)

history_of_shown :
    (s : MemoryStore) (k : Text) (session : Option Session)
    → IsShown s k session
    → history s k ≡ last_of 20 (said session)
unfolding history
history_of_shown s k none (a, b, turns_eq, c) = ap turns_or_nil turns_eq
history_of_shown s k (some (turns, last)) (a, b, turns_eq, c) =
    ap turns_or_nil turns_eq ∙ trim_lem turns

-- After any sequence of appends and prunes from the new store, the history of a session is the last
-- 20 turns of what was said in it since it was last pruned, where a prune drops a session exactly if
-- its last append is before the cutoff; other sessions play no part.
pub history-run :
    (ops : List Operation) (k : Text)
    → history (run ops new_memory_store) k
      ≡ last_of max_turns_per_session (said (transcript k ops none))
unfolding get
history-run ops k =
    history_of_shown (run ops new_memory_store) k (transcript k ops none)
      (run-IsShown ops new_memory_store k none (tt, tt, refl, refl))
