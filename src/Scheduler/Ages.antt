-- ===== src/Scheduler/Ages.antt =====
-- How old the sessions of the process become (gateway-go/internal/scheduler/scheduler.go,
-- gateway-go/cmd/gateway/main.go, gateway-go/internal/conversation/memory_store.go).
use financial_ai_platform.Prelude.{
  ℕ, ◌+◌, ◌-◌, ◌≤◌, ◌<◌, ◌≡◌, ◌⊎◌, sym, ap, ◌∙◌, arith, inl, inr, Bool-cases, Option-cases, some,
  Text, List, text_eq, get, get-put, subst, IsDistinct, put-IsDistinct, ltb, ltb→lt, le_of_not_ltb,
  if◌then◌else◌, pos,
}
use financial_ai_platform.Conversation.{
  Turn, MemoryStore, append_turns, prune_older_than, prune_loop,
}
use financial_ai_platform.Conversation.Sessions.{kept, get-prune_loop, prune_loop-IsDistinct}
use financial_ai_platform.Conversation.Transcript.{set_metrics_lem}
use financial_ai_platform.Scheduler.{
  prune_sessions, Sessions, started_at, Step, appends, ticks, Run, here, next,
}

lt_or_le : (a b : ℕ) → (a < b) ⊎ (b ≤ a)
lt_or_le a b = elim (Bool-cases (ltb a b)) [
  | inl less ↦ inl (ltb→lt a b less)
  | inr more ↦ inr (le_of_not_ltb a b more)
]

abbrev AreDistinct : MemoryStore → Type 0
AreDistinct s = IsDistinct s.turns_by × IsDistinct s.last_activity

append-last :
    (now : ℕ) (s : MemoryStore) (id k : Text) (turns : List Turn)
    → get (append_turns now s id turns).last_activity k
      ≡ (if text_eq id k then some now else get s.last_activity k)
unfolding append_turns
append-last now s id k turns = get-put s.last_activity id k now

append-AreDistinct :
    (now : ℕ) (s : MemoryStore) (id : Text) (turns : List Turn)
    → AreDistinct s
    → AreDistinct (append_turns now s id turns)
unfolding append_turns
append-AreDistinct now s id turns (h, h') =
    (put-IsDistinct s.turns_by id _ h, put-IsDistinct s.last_activity id now h')

prune-last :
    (age now : ℕ) (s : MemoryStore) (k : Text)
    → AreDistinct s
    → get (prune_sessions (pos age) now s).last_activity k
      ≡ kept (now - age) (get s.last_activity k) (get s.last_activity k)
unfolding prune_sessions prune_older_than
prune-last age now s k h =
    let looped = prune_loop (now - age) s.last_activity (s, 0) in
    ap (λ m. get m k) (set_metrics_lem looped).1
    ∙ (get-prune_loop (now - age) s.last_activity s 0 k h.1).1

prune-AreDistinct :
    (age now : ℕ) (s : MemoryStore) → AreDistinct s → AreDistinct (prune_sessions (pos age) now s)
unfolding prune_sessions prune_older_than
prune-AreDistinct age now s h =
    let looped = prune_loop (now - age) s.last_activity (s, 0) in
    let same = set_metrics_lem looped in
    let distinct = prune_loop-IsDistinct (now - age) s.last_activity s 0 h.0 h.1 in
    (subst IsDistinct (sym same.0) distinct.0, subst IsDistinct (sym same.1) distinct.1)

module _ (interval age : ℕ) where
  -- Each session was used within the age before the last tick, or after it, and no tick is overdue.
  record IsTimely (s : Sessions) : Type 0 where
    distinct : AreDistinct s.store
    past : s.last_tick ≤ s.now
    due : s.now ≤ s.last_tick + interval
    recent :
        (k : Text) (last : ℕ)
        → get s.store.last_activity k ≡ some last
        → (s.last_tick ≤ last + age) × (last ≤ s.now)

  started-IsTimely : (now : ℕ) → IsTimely (started_at now)
  unfolding get
  started-IsTimely now = record {
    distinct = (tt, tt);
    past = omega arith;
    due = omega arith;
    recent = λ k last e. absurd (cc);
  }

  Step-IsTimely : {s t : Sessions} → Step interval (pos age) s t → IsTimely s → IsTimely t
  Step-IsTimely (appends {s} now id turns later early) v = record {
    distinct = append-AreDistinct now s.store id turns v.distinct;
    past = omega (arith, v.past, later);
    due = early;
    recent = λ k last e.
        let read = append-last now s.store id k turns in
        let before = v.recent k last in
        (ground (arith, read, before, v.past, later), ground (arith, read, before, later));
  }
  Step-IsTimely (ticks {s} now later early) v = record {
    distinct = prune-AreDistinct age now s.store v.distinct;
    past = omega arith;
    due = omega arith;
    recent = λ k last e.
        let read = prune-last age now s.store k v.distinct in
        elim (Option-cases (get s.store.last_activity k)) [
          | inl none_there ↦ absurd (ground arith)
          | inr (old, there) ↦
              let before = v.recent k old there in
              (ground (arith, read, there), ground (arith, read, there, before, later))
        ];
  }

  Run-IsTimely : {s t : Sessions} → Run interval (pos age) s t → IsTimely s → IsTimely t
  Run-IsTimely here v = v
  Run-IsTimely (next r step) v = Step-IsTimely step (Run-IsTimely r v)

  -- A step forgets no session that was used within the age.
  Step-keeps :
      {s t : Sessions} (k : Text) (used : ℕ)
      → Step interval (pos age) s t
      → IsTimely s
      → (last : ℕ) × (get s.store.last_activity k ≡ some last) × (used ≤ last) × (used ≤ s.now)
      → t.now ≤ used + age
      → (last : ℕ) × (get t.store.last_activity k ≡ some last) × (used ≤ last) × (used ≤ t.now)
  Step-keeps k used (appends {s} now id turns later early) v (last, there, h, h') young =
      let read = append-last now s.store id k turns in
      elim (Bool-cases (text_eq id k)) [
        | inl same ↦ (now, ground arith, omega arith, omega arith)
        | inr other ↦ (last, ground arith, h, omega arith)
      ]
  Step-keeps k used (ticks {s} now later early) v (last, there, h, h') young =
      let read = prune-last age now s.store k v.distinct in
      (last, ground (arith, read, there), h, omega (arith, later, h'))

  Run-later : {s u : Sessions} → Run interval (pos age) s u → s.now ≤ u.now
  Run-later here = omega arith
  Run-later (next r (appends now id turns later early)) = omega (arith, Run-later r, later)
  Run-later (next r (ticks now later early)) = omega (arith, Run-later r, later)

  Step-later : {s u : Sessions} → Step interval (pos age) s u → s.now ≤ u.now
  Step-later step = Run-later (next here step)

  Run-keeps :
      {s u : Sessions} (k : Text) (used : ℕ)
      → Run interval (pos age) s u
      → IsTimely s
      → (last : ℕ) × (get s.store.last_activity k ≡ some last) × (used ≤ last) × (used ≤ s.now)
      → u.now ≤ used + age
      → (last : ℕ) × (get u.store.last_activity k ≡ some last) × (used ≤ last) × (used ≤ u.now)
  Run-keeps k used here v there young = there
  Run-keeps k used (next r step) v there young =
      Step-keeps k used step (Run-IsTimely r v)
        (Run-keeps k used r v there (omega (arith, young, Step-later step))) young

  -- While no tick is overdue, a session that the store holds was used within the maximum age and one
  -- interval; and unless the maximum age has passed since then, it is still there later, as used then or
  -- after.
  pub Run-aged :
      {s u : Sessions} (start : ℕ) (k : Text) (last : ℕ)
      → Run interval (pos age) (started_at start) s
      → Run interval (pos age) s u
      → get s.store.last_activity k ≡ some last
      → (s.now ≤ last + (age + interval))
        × ((last + age < u.now)
            ⊎ ((again : ℕ) × (get u.store.last_activity k ≡ some again) × (last ≤ again)))
  Run-aged start k last r later there =
      let v = Run-IsTimely r (started-IsTimely start) in
      let (recent, known) = v.recent k last there in
      let due = v.due in
      (
        omega arith,
        elim (lt_or_le (last + age) _) [
          | inl old ↦ inl old
          | inr young ↦
              let (again, found, after, since) =
                Run-keeps k last later v (last, there, omega arith, known) young in
              inr (again, found, after)
        ],
      )
