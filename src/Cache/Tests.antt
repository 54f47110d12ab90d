-- ===== src/Cache/Tests.antt =====
-- A cache in use.
use financial_ai_platform.Prelude.{◌≡◌, refl, arith, some, List, [], ◌∷◌, lit, get, put, text_eq}
use financial_ai_platform.Cache.{new_memory_cache, lookup, store}
use financial_ai_platform.Cache.Expiry.{Call, get_call, set_call, run, lookup-run}

abbrev calls : List Call
calls =
    set_call 1 (lit "q") (lit "old") 5
    ∷ get_call 7 (lit "q")
    ∷ set_call 8 (lit "q") (lit "new") 5
    ∷ []

lookup-run_example : (lookup 13 (run calls new_memory_cache) (lit "q")).1 ≡ some (lit "new")
unfolding text_eq
lookup-run_example =
    lookup-run calls 13 (lit "q") (omega arith, (omega arith, (omega arith, omega arith)))

-- Without a time to live, an entry is found at the instant at which it was stored.
found_at_once :
    (lookup 4 (store 4 new_memory_cache (lit "q") (lit "v") 0) (lit "q")).1 ≡ some (lit "v")
unfolding lookup store get put text_eq
found_at_once = refl
