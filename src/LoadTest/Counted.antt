-- ===== src/LoadTest/Counted.antt =====
-- The report of a load test whose workers have all ended, tests/load/main.go.
use financial_ai_platform.Prelude.{
  ℕ, zero, suc, ◌+◌, ◌*◌, ◌≤◌, ◌<◌, ◌≡◌, ◌⊎◌, refl, ap, ◌∙◌, arith, List, [], ◌∷◌, ◌++◌, length,
  length-append, count, ltb, leb, inl, inr,
}
use financial_ai_platform.LoadTest.{
  Outcome, failed, responded, Load, started, counted, Step, counts, appends, ends, Run, here, next,
  sort, percentile, report,
}
use financial_ai_platform.LoadTest.Percentiles.{percentile-sort}

-- Every round is counted once, the responses that are counted are those whose latencies are kept or about to
-- be, and only running workers wait for the lock.
record IsCounted (s : Load) : Type 0 where
  all : s.successes + s.errors + s.status_errs ≡ s.rounds
  responses : s.successes + s.status_errs ≡ length s.latencies + length s.pending
  waiting : length s.pending ≤ s.running

length-split :
    (before after : List ℕ) (a : ℕ)
    → length (before ++ (a ∷ after)) ≡ suc (length (before ++ after))
length-split [] after a = refl
length-split (b ∷ before) after a = ap suc (length-split before after a)

count-IsCounted :
    (s : Load) (outcome : Outcome) (free : ℕ)
    → s.running ≡ suc free + length s.pending
    → IsCounted s
    → IsCounted (counted outcome s)
unfolding counted
count-IsCounted s failed free e v = record {
  all = omega (arith, v.all);
  responses = v.responses;
  waiting = v.waiting;
}
count-IsCounted s (responded status elapsed) free e v = record {
  all = ground (arith, v.all);
  responses = ground (arith, v.responses);
  waiting = ground (arith, e);
}

Step-IsCounted : {s t : Load} → Step s t → IsCounted s → IsCounted t
Step-IsCounted (counts {s} outcome free e) v = count-IsCounted s outcome free e v
Step-IsCounted (appends {s} before after elapsed e) v =
    let split = ap length e ∙ length-split before after elapsed in
    record {
      all = v.all;
      responses = omega (arith, v.responses, split, length-append s.latencies (elapsed ∷ []));
      waiting = omega (arith, v.waiting, split);
    }
Step-IsCounted (ends {s} free e) v = record {
  all = v.all;
  responses = v.responses;
  waiting = omega arith;
}

Run-IsCounted : {s t : Load} → IsCounted s → Run s t → IsCounted t
Run-IsCounted v here = v
Run-IsCounted v (next r step) = Step-IsCounted step (Run-IsCounted v r)

-- However the workers are interleaved, once all have ended the report's total is the number of their rounds,
-- and as many latencies are kept as responses are reported; of these, if there are any, more than p
-- percent are at most the p-th percentile of the sorted latencies, and at most p percent are less than it,
-- for each p below 100.
pub report_lem :
    (concurrency p : ℕ) (s : Load)
    → Run (started concurrency) s
    → s.running ≡ 0
    → p < 100
    → let r = report s in
      let v = percentile (sort s.latencies) p in
      (r.total ≡ s.rounds)
      × (r.successes + r.non_2xx ≡ length s.latencies)
      × ((length s.latencies ≡ 0)
          ⊎ ((p * length s.latencies < 100 * count (λ x. leb x v) s.latencies)
              × (100 * count (λ x. ltb x v) s.latencies ≤ p * length s.latencies)))
unfolding report
report_lem concurrency p s r ended small =
    let v = Run-IsCounted (record { all = refl; responses = refl; waiting = omega arith }) r in
    (
      v.all,
      omega (arith, v.responses, v.waiting, ended),
      elim (zero_or_some (length s.latencies)) [
        | inl none_there ↦ inl none_there
        | inr some_there ↦ inr (percentile-sort s.latencies p some_there small)
      ],
    )
  where
    zero_or_some : (n : ℕ) → (n ≡ 0) ⊎ (0 < n)
    zero_or_some zero = inl refl
    zero_or_some (suc n) = inr (omega arith)
