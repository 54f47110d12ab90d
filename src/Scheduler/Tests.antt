-- ===== src/Scheduler/Tests.antt =====
-- A session used at 10, with ticks every 5 and a maximum age of 20: it is there at 30, and gone at 31.
use financial_ai_platform.Prelude.{
  ℕ, ◌+◌, ◌<◌, ◌≤◌, ◌≡◌, ◌⊎◌, refl, arith, [], ◌∷◌, some, lit, get, put, remove, text_eq, pos,
}
use financial_ai_platform.Conversation.{
  Turn, new_memory_store, append_turns, prune_older_than, prune_loop, trim,
}
use financial_ai_platform.Scheduler.{
  ticked, done, returned, waiting, panicked, loop, run, prune_sessions, Sessions, started_at,
  appends, Run, here, next,
}
use financial_ai_platform.Scheduler.Ages.{Run-aged}

no_interval : run (prune_sessions (pos 20)) (pos 0) (ticked 5 ∷ []) new_memory_store ≡ panicked
unfolding run
no_interval = refl

abbrev turn : Turn
turn = record { role = lit "user"; content = lit "revenue?"; created_at = 10 }

abbrev used : Sessions
used = record {
  now = 10;
  last_tick = 10;
  store = append_turns 10 new_memory_store (lit "s1") (turn ∷ []);
}

kept_then_pruned :
    (run (prune_sessions (pos 20)) (pos 5) (ticked 30 ∷ []) used.store ≡ waiting used.store)
    × (run (prune_sessions (pos 20)) (pos 5) (ticked 31 ∷ done ∷ []) used.store
        ≡ returned (prune_sessions (pos 20) 31 used.store))
    × ((prune_sessions (pos 20) 31 used.store).turns_by ≡ [])
unfolding run loop prune_sessions prune_older_than prune_loop append_turns trim get put remove
    text_eq
kept_then_pruned = (refl, refl, refl)

to_used : Run 5 (pos 20) (started_at 5) (record {
  now = 10;
  last_tick = 5;
  store = append_turns 10 new_memory_store (lit "s1") (turn ∷ []);
})
to_used = next here (appends 10 (lit "s1") (turn ∷ []) (omega arith) (omega arith))

Run-aged_example :
    (10 ≤ 10 + (20 + 5))
    × ((10 + 20 < 10)
        ⊎ ((again : ℕ) × (get
                (append_turns 10 new_memory_store (lit "s1") (turn ∷ [])).last_activity
                (lit "s1")
              ≡ some again)
            × (10 ≤ again)))
unfolding append_turns put get text_eq
Run-aged_example = Run-aged 5 20 5 (lit "s1") 10 to_used here refl
