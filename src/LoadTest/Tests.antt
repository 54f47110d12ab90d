-- ===== src/LoadTest/Tests.antt =====
-- Two workers with three rounds.
use financial_ai_platform.Prelude.{
  ◌+◌, ◌*◌, ◌<◌, ◌≤◌, ◌≡◌, ◌⊎◌, refl, arith, none, some, [], ◌∷◌, lit, trim_space, count, leb, ltb,
  length,
}
use financial_ai_platform.LoadTest.{
  failed, responded, Load, started, counted, counts, appends, ends, Run, here, next, cut_at_colon,
  parse_header, sort, element, percentile, report,
}
use financial_ai_platform.LoadTest.Counted.{report_lem}

header_parsed :
    (parse_header (lit "Authorization: Bearer a:b") ≡ some (lit "Authorization", lit "Bearer a:b"))
    × (parse_header (lit "Authorization") ≡ none)
unfolding parse_header cut_at_colon trim_space
header_parsed = (refl, refl)

abbrev finished : Load
finished = record {
  latencies = 30 ∷ 20 ∷ [];
  successes = 1;
  errors = 1;
  status_errs = 1;
  running = 0;
  pending = [];
  rounds = 3;
}

-- The response counted first is kept last.
to_finished : Run (started 2) finished
unfolding counted
to_finished =
    let first = next here (counts (responded 200 20) 1 refl) in
    let both = next first (counts (responded 429 30) 0 refl) in
    let kept = next both (appends [] (20 ∷ []) 30 refl) in
    let free = next (next kept (appends [] [] 20 refl)) (counts failed 1 refl) in
    next (next free (ends 1 refl)) (ends 0 refl)

reported : (report finished).latencies ≡ some (30, 30, 30, 30)
unfolding report sort percentile element
reported = refl

report_lem_example :
    ((report finished).total ≡ 3)
    × ((report finished).successes + (report finished).non_2xx ≡ 2)
    × ((length finished.latencies ≡ 0)
        ⊎ ((50 * 2 < 100 * count (λ x. leb x (percentile (sort (30 ∷ 20 ∷ [])) 50)) (30 ∷ 20 ∷ []))
            × (100 * count (λ x. ltb x (percentile (sort (30 ∷ 20 ∷ [])) 50)) (30 ∷ 20 ∷ [])
                ≤ 50 * 2)))
report_lem_example = report_lem 2 50 finished to_finished refl (omega arith)
