-- ===== src/Conversation/Pruned.antt =====
-- How many sessions `PruneOlderThan` of gateway-go/internal/conversation/memory_store.go removes, and
-- what the gauge of the sessions shows.
use financial_ai_platform.Prelude.{
  ℕ, suc, ◌+◌, ◌≡◌, ◌≢◌, refl, none, List, [], ◌∷◌, ◌++◌, length, Text, text_eq_iff, Dict, get,
  remove, get-put, get-remove, IsDistinct, put-IsDistinct, remove-IsDistinct, arith,
}
use financial_ai_platform.Conversation.{
  Turn, MemoryStore, new_memory_store, append_turns, delete_session, prune_loop, prune_older_than,
  trim, turns_or_nil,
}
use financial_ai_platform.Conversation.Sessions.{get-prune_loop, prune_loop-IsDistinct}
use financial_ai_platform.Conversation.Transcript.{Operation, append, prune, run, set_metrics_lem}

-- The maps have the same keys, each once, and the gauge counts them.
abbrev pub IsCounted : MemoryStore → Type 0
IsCounted s =
    IsDistinct s.turns_by
    × IsDistinct s.last_activity
    × ((k : Text) → get s.last_activity k ≢ none → get s.turns_by k ≢ none)
    × (s.sessions_active ≡ length s.turns_by)

remove_absent {ℓ} :
    {V : Type ℓ} (m : Dict V) (k : Text) → get m k ≡ none → length (remove m k) ≡ length m
unfolding get remove
remove_absent [] k h = refl
remove_absent ((j, v) ∷ m) k h = ground (arith, remove_absent m k)

length-remove {ℓ} :
    {V : Type ℓ} (m : Dict V) (k : Text)
    → IsDistinct m
    → get m k ≢ none
    → suc (length (remove m k)) ≡ length m
unfolding get remove
length-remove [] k h absent = absurd (absent refl)
length-remove ((j, v) ∷ m) k h present =
    ground (arith, length-remove m k h.1, remove_absent m k, text_eq_iff j k, h.0)

-- Each session that the loop clears is counted, and was there.
length-prune_loop :
    (cutoff : ℕ) (entries : Dict ℕ) (s : MemoryStore) (n : ℕ)
    → IsDistinct entries
    → IsDistinct s.turns_by
    → ((k : Text) → get entries k ≢ none → get s.turns_by k ≢ none)
    → (prune_loop cutoff entries (s, n)).1 + length (prune_loop cutoff entries (s, n)).0.turns_by
      ≡ n + length s.turns_by
unfolding prune_loop get
length-prune_loop cutoff [] s n h h' present = refl
length-prune_loop cutoff ((j, last) ∷ es) s n h h' present =
    let here : get s.turns_by j ≢ none = present j (ground (arith, text_eq_iff j j)) in
    let later : (k : Text) → get es k ≢ none → get s.turns_by k ≢ none =
      λ k e. present k (ground (arith, e, text_eq_iff j k, h.0)) in
    let left : (k : Text) → get es k ≢ none → get (remove s.turns_by j) k ≢ none =
      λ k e. ground (arith, e, later k e, get-remove s.turns_by j k, text_eq_iff j k, h.0) in
    let stale =
      length-prune_loop cutoff es (delete_session j s) (suc n) h.1
        (remove-IsDistinct s.turns_by j h') left in
    let fresh = length-prune_loop cutoff es s n h.1 h' later in
    let dropped = length-remove s.turns_by j h' here in ground (arith, stale, fresh, dropped)

append-IsCounted :
    (now : ℕ) (s : MemoryStore) (id : Text) (turns : List Turn)
    → IsCounted s
    → IsCounted (append_turns now s id turns)
unfolding append_turns
append-IsCounted now s id turns (distinct_turns, distinct_times, keys, count_eq) =
    let updated = trim (turns_or_nil (get s.turns_by id) ++ turns) in
    (
      put-IsDistinct s.turns_by id updated distinct_turns,
      put-IsDistinct s.last_activity id now distinct_times,
      λ k e.
          ground
            (arith, e, keys k, get-put s.turns_by id k updated, get-put s.last_activity id k now),
      refl,
    )

-- The loop's store before the metrics are set, and after.
prune_length :
    (cutoff : ℕ) (s : MemoryStore)
    → IsCounted s
    → (prune_older_than cutoff s).1 + length (prune_older_than cutoff s).0.turns_by
      ≡ length s.turns_by
unfolding prune_older_than
prune_length cutoff s (distinct_turns, distinct_times, keys, count_eq) =
    let looped = length-prune_loop cutoff s.last_activity s 0 distinct_times distinct_turns keys in
    ground (arith, looped)

gauge-prune_loop :
    (cutoff : ℕ) (entries : Dict ℕ) (s : MemoryStore) (n : ℕ)
    → ((prune_loop cutoff entries (s, n)).0.sessions_active ≡ s.sessions_active)
      × ((prune_loop cutoff entries (s, n)).0.sessions_pruned_total ≡ s.sessions_pruned_total)
unfolding prune_loop
gauge-prune_loop cutoff [] s n = (refl, refl)
gauge-prune_loop cutoff ((j, last) ∷ es) s n =
    ground (
      arith,
      gauge-prune_loop cutoff es s n,
      gauge-prune_loop cutoff es (delete_session j s) (suc n),
    )

prune_gauge :
    (cutoff : ℕ) (s : MemoryStore)
    → IsCounted s
    → ((prune_older_than cutoff s).0.sessions_active
        ≡ length (prune_older_than cutoff s).0.turns_by)
      × ((prune_older_than cutoff s).0.sessions_pruned_total
          ≡ s.sessions_pruned_total + (prune_older_than cutoff s).1)
unfolding prune_older_than
prune_gauge cutoff s (distinct_turns, distinct_times, keys, count_eq) =
    let looped = length-prune_loop cutoff s.last_activity s 0 distinct_times distinct_turns keys in
    ground (arith, looped, gauge-prune_loop cutoff s.last_activity s 0, count_eq)

prune-IsCounted :
    (cutoff : ℕ) (s : MemoryStore) → IsCounted s → IsCounted (prune_older_than cutoff s).0
unfolding prune_older_than
prune-IsCounted cutoff s (distinct_turns, distinct_times, keys, count_eq) =
    let distinct = prune_loop-IsDistinct cutoff s.last_activity s 0 distinct_turns distinct_times in
    let reads = λ (k : Text). get-prune_loop cutoff s.last_activity s 0 k distinct_times in
    let same = set_metrics_lem (prune_loop cutoff s.last_activity (s, 0)) in
    (
      ground (arith, distinct, same),
      ground (arith, distinct, same),
      λ k e. ground (arith, e, keys k, reads k, same),
      (prune_gauge cutoff s (distinct_turns, distinct_times, keys, count_eq)).0,
    )

run-IsCounted : (ops : List Operation) (s : MemoryStore) → IsCounted s → IsCounted (run ops s)
run-IsCounted [] s h = h
run-IsCounted (append now id turns ∷ ops) s h =
    run-IsCounted ops (append_turns now s id turns) (append-IsCounted now s id turns h)
run-IsCounted (prune cutoff ∷ ops) s h =
    run-IsCounted ops (prune_older_than cutoff s).0 (prune-IsCounted cutoff s h)

-- After any sequence of appends and prunes from the new store, a prune returns by how many sessions
-- the store shrinks, adds that to the total, and leaves the gauge at the number of sessions held.
pub prune-counts :
    (ops : List Operation) (cutoff : ℕ)
    → ((prune_older_than cutoff (run ops new_memory_store)).1
          + length (prune_older_than cutoff (run ops new_memory_store)).0.turns_by
        ≡ length (run ops new_memory_store).turns_by)
      × ((prune_older_than cutoff (run ops new_memory_store)).0.sessions_active
          ≡ length (prune_older_than cutoff (run ops new_memory_store)).0.turns_by)
      × ((prune_older_than cutoff (run ops new_memory_store)).0.sessions_pruned_total
          ≡ (run ops new_memory_store).sessions_pruned_total
            + (prune_older_than cutoff (run ops new_memory_store)).1)
unfolding get
prune-counts ops cutoff =
    let counted : IsCounted (run ops new_memory_store) =
      run-IsCounted ops new_memory_store (tt, tt, λ k e. absurd (e refl), refl) in
    (
      prune_length cutoff (run ops new_memory_store) counted,
      (prune_gauge cutoff (run ops new_memory_store) counted).0,
      (prune_gauge cutoff (run ops new_memory_store) counted).1,
    )
