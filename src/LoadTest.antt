-- ===== src/LoadTest.antt =====
-- The load test, tests/load/main.go: its workers, which share the counters and the latencies, and its report.
-- Times are in nanoseconds; the rate of requests, a float, is left out of the report.
pub mod Counted
pub mod Percentiles
mod Tests
use financial_ai_platform.Prelude.{
  ℕ, zero, suc, ◌+◌, ◌-◌, ◌*◌, ◌/◌, ◌≡◌, Bool, ◌&&◌, List, [], ◌∷◌, ◌++◌, Option, none, some, Text,
  lit, is_empty, trim_space, if◌then◌else◌, ltb, leb, ◌==◌, length, Result, ok, err,
}

-- strings.SplitN at the first colon: the text before it and behind it.
unfoldable pub cut_at_colon : Text → Option (Text × Text)
cut_at_colon [] = none
cut_at_colon (c ∷ s) =
    let rest = cut_at_colon s in
    if c == b':'
    then some ([], s)
    else elim rest [ none ↦ none | some (name, value) ↦ some (c ∷ name, value) ]

-- The flag -header, with an error where there is no colon; the empty flag sets no header.
unfoldable pub parse_header : Text → Option (Text × Text)
unfolding cut_at_colon
parse_header header = if is_empty header then some ([], []) else elim (cut_at_colon header) [
  | none ↦ none
  | some (name, value) ↦ some (trim_space name, trim_space value)
]

-- What a round of a worker meets: a request that cannot be made or sent, or a response.
pub data Outcome : Type 0 where
  failed : Outcome
  responded : (status elapsed : ℕ) → Outcome

-- The shared state. `running` workers are in their loops, of which those with a latency in `pending` have
-- counted a response and wait for the lock; `rounds` counts the rounds begun.
pub record Load : Type 0 where
  pub latencies : List ℕ
  pub successes : ℕ
  pub errors : ℕ
  pub status_errs : ℕ
  pub running : ℕ
  pub pending : List ℕ
  pub rounds : ℕ

abbrev pub started : ℕ → Load
started concurrency = record {
  latencies = [];
  successes = 0;
  errors = 0;
  status_errs = 0;
  running = concurrency;
  pending = [];
  rounds = 0;
}

abbrev pub is_success : ℕ → Bool
is_success status = leb 200 status && ltb status 300

-- The counting of an outcome.
unfoldable pub counted : Outcome → Load → Load
counted failed s = record s { errors = suc s.errors; rounds = suc s.rounds }
counted (responded status elapsed) s =
    if is_success status
    then record s {
      successes = suc s.successes;
      pending = elapsed ∷ s.pending;
      rounds = suc s.rounds;
    }
    else record s {
      status_errs = suc s.status_errs;
      pending = elapsed ∷ s.pending;
      rounds = suc s.rounds;
    }

-- A worker that waits for the lock is in its round, so that a free worker is one of the others.
pub data Step : Load → Load → Type 0 where
  counts :
      {s : Load} (outcome : Outcome) (free : ℕ)
      → s.running ≡ suc free + length s.pending
      → Step s (counted outcome s)
  appends :
      {s : Load} (before after : List ℕ) (elapsed : ℕ)
      → s.pending ≡ before ++ (elapsed ∷ after)
      → Step s (record s { latencies = s.latencies ++ (elapsed ∷ []); pending = before ++ after })
  ends :
      {s : Load} (free : ℕ)
      → s.running ≡ suc free + length s.pending
      → Step s (record s { running = free + length s.pending })

pub data Run (s : Load) : Load → Type 0 where
  here : Run s s
  next : {t u : Load} → Run s t → Step t u → Run s u

insert : ℕ → List ℕ → List ℕ
insert a [] = a ∷ []
insert a (b ∷ xs) = if leb a b then a ∷ b ∷ xs else b ∷ insert a xs

-- sort.Slice by the smaller latency.
unfoldable pub sort : List ℕ → List ℕ
unfolding insert
sort [] = []
sort (a ∷ xs) = insert a (sort xs)

-- sorted[i], within its bounds.
unfoldable pub element : List ℕ → ℕ → ℕ
element [] i = 0
element (a ∷ xs) zero = a
element (a ∷ xs) (suc i) = element xs i

abbrev pub index : ℕ → ℕ → ℕ
index n p = let i = (p * n) / 100 in if leb n i then n - 1 else i

unfoldable pub percentile : List ℕ → ℕ → ℕ
unfolding element
percentile sorted p = if length sorted == 0 then 0 else element sorted (index (length sorted) p)

pub record Report : Type 0 where
  pub total : ℕ
  pub successes : ℕ
  pub non_2xx : ℕ
  pub errors : ℕ
  pub latencies : Option (ℕ × ℕ × ℕ × ℕ)

unfoldable pub report : Load → Report
unfolding sort percentile
report s =
    let sorted = sort s.latencies in
    record {
      total = s.successes + s.errors + s.status_errs;
      successes = s.successes;
      non_2xx = s.status_errs;
      errors = s.errors;
      latencies =
          if length sorted == 0
          then none
          else some (
            percentile sorted 50,
            percentile sorted 95,
            percentile sorted 99,
            element sorted (length sorted - 1),
          );
    }
