-- ===== src/Conversation/Sessions.antt =====
-- The two maps of the store, gateway-go/internal/conversation/memory_store.go, under the loop of
-- `PruneOlderThan`.
use financial_ai_platform.Prelude.{
  ℕ, suc, ◌≡◌, refl, if◌then◌else◌, ltb, Option, none, some, [], ◌∷◌, Text, text_eq_iff, Dict, get,
  get-remove, IsDistinct, remove-IsDistinct, arith,
}
use financial_ai_platform.Conversation.{MemoryStore, delete_session, prune_loop}

-- What a map keeps of an entry, by the last activity of its session.
abbrev pub kept {ℓ} : {V : Type ℓ} → ℕ → Option ℕ → Option V → Option V
kept cutoff none v = v
kept cutoff (some last) v = if ltb last cutoff then none else v

-- The loop clears what it visits and finds stale, and leaves the rest.
pub get-prune_loop :
    (cutoff : ℕ) (entries : Dict ℕ) (s : MemoryStore) (n : ℕ) (k : Text)
    → IsDistinct entries
    → (get (prune_loop cutoff entries (s, n)).0.turns_by k
        ≡ kept cutoff (get entries k) (get s.turns_by k))
      × (get (prune_loop cutoff entries (s, n)).0.last_activity k
          ≡ kept cutoff (get entries k) (get s.last_activity k))
unfolding prune_loop get
get-prune_loop cutoff [] s n k h = (refl, refl)
get-prune_loop cutoff ((j, last) ∷ es) s n k h =
    let stale = get-prune_loop cutoff es (delete_session j s) (suc n) k h.1 in
    let fresh = get-prune_loop cutoff es s n k h.1 in
    ground (
      arith,
      stale,
      fresh,
      get-remove s.turns_by j k,
      get-remove s.last_activity j k,
      text_eq_iff j k,
    )

pub prune_loop-IsDistinct :
    (cutoff : ℕ) (entries : Dict ℕ) (s : MemoryStore) (n : ℕ)
    → IsDistinct s.turns_by
    → IsDistinct s.last_activity
    → IsDistinct (prune_loop cutoff entries (s, n)).0.turns_by
      × IsDistinct (prune_loop cutoff entries (s, n)).0.last_activity
unfolding prune_loop
prune_loop-IsDistinct cutoff [] s n h h' = (h, h')
prune_loop-IsDistinct cutoff ((j, last) ∷ es) s n h h' =
    let stale =
      prune_loop-IsDistinct cutoff es (delete_session j s) (suc n)
        (remove-IsDistinct s.turns_by j h) (remove-IsDistinct s.last_activity j h') in
    let fresh = prune_loop-IsDistinct cutoff es s n h h' in ground (arith, stale, fresh)
