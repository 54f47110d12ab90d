-- ===== src/Ingestion/Flights/Grows.antt =====
-- How the records grow under uploads in flight (gateway-go/internal/ingestion/memory_repository.go).
use financial_ai_platform.Prelude.{
  ◌≡◌, sym, ap, ◌∙◌, inl, inr, arith, none, some, Bool-cases, Text, text_eq, text_eq_iff, get,
  get-put, ok, err,
}
use financial_ai_platform.Ingestion.Records.{
  Document, Job, MemoryDocumentRepository, MemoryJobRepository,
}
use financial_ai_platform.Ingestion.Documents
use financial_ai_platform.Ingestion.Jobs
use financial_ai_platform.Ingestion.Process.{save}
use financial_ai_platform.Ingestion.System.Served.{IsServed, save-put}
use financial_ai_platform.Ingestion.Flights.{
  Flight, looking, storing, reusing, recording, filing, submitting, ended,
}

-- The record of a job is stored, and belongs to the document.
abbrev pub Recorded : MemoryJobRepository → Text → Text → Type 0
Recorded jobs id document_id =
    (job : Job) × (get jobs.by_id id ≡ some job) × (job.document_id ≡ document_id)

-- The documents that are stored stay, and so do the jobs with their documents.
pub record Grows (docs : MemoryDocumentRepository) (jobs : MemoryJobRepository)
    (docs' : MemoryDocumentRepository) (jobs' : MemoryJobRepository) : Type 0 where
  pub docs_kept :
      (id : Text) (doc : Document) → get docs.by_id id ≡ some doc → get docs'.by_id id ≡ some doc
  pub jobs_kept :
      (id document_id : Text) → Recorded jobs id document_id → Recorded jobs' id document_id

pub Grows-same :
    (docs : MemoryDocumentRepository) (jobs : MemoryJobRepository) → Grows docs jobs docs jobs
Grows-same docs jobs = record { docs_kept = λ id doc e. e; jobs_kept = λ id document_id e. e }

pub Grows-create_document :
    (docs : MemoryDocumentRepository) (jobs : MemoryJobRepository) (doc : Document)
    → get docs.by_id doc.id ≡ none
    → Grows docs jobs (Documents.create docs doc) jobs
unfolding Documents.create
Grows-create_document docs jobs doc fresh = record {
  docs_kept =
      λ id old e. ground (arith, get-put docs.by_id doc.id id doc, text_eq_iff doc.id id, e);
  jobs_kept = λ id document_id e. e;
}

pub Grows-create_job :
    (docs : MemoryDocumentRepository) (jobs : MemoryJobRepository) (job : Job)
    → get jobs.by_id job.id ≡ none
    → Grows docs jobs docs (Jobs.create jobs job)
unfolding Jobs.create
Grows-create_job docs jobs job fresh = record {
  docs_kept = λ id old e. e;
  jobs_kept = λ id document_id (old, e, own).
      (old, ground (arith, get-put jobs.by_id job.id id job, text_eq_iff job.id id, e), own);
}

pub Grows-save :
    (docs : MemoryDocumentRepository) (jobs : MemoryJobRepository) (written : Job)
    → Recorded jobs written.id written.document_id
    → Grows docs jobs docs (save jobs written)
Grows-save docs jobs written (old, there, own) = record {
  docs_kept = λ id doc e. e;
  jobs_kept = λ id document_id (other, e, owned).
      let shape =
        ap (λ (r : MemoryJobRepository). get r.by_id id) (save-put jobs written old there) in
      let read = get-put jobs.by_id written.id id written in
      elim (Bool-cases (text_eq written.id id)) [
        | inl hit ↦
            let ids : written.id ≡ id = (text_eq_iff written.id id).0 hit in
            let twice : some old ≡ some other = sym there ∙ ap (get jobs.by_id) ids ∙ e in
            let one : old ≡ other = cc in
            (written, shape ∙ read ∙ ground arith, sym own ∙ ap (λ j. j.document_id) one ∙ owned)
        | inr miss ↦ (other, shape ∙ read ∙ ground arith, owned)
      ];
}

module _ {docs docs' : MemoryDocumentRepository} {jobs jobs' : MemoryJobRepository}
    (g : Grows docs jobs docs' jobs') where
  pub IsServed-grown : (job : Job) → IsServed docs jobs job → IsServed docs' jobs' job
  IsServed-grown job v =
      let (recorded, stored, own) =
        g.jobs_kept job.id job.document_id (v.recorded, v.stored, v.own) in
      record {
        document = v.document;
        found = g.docs_kept job.document_id v.document v.found;
        recorded = recorded;
        stored = stored;
        own = own;
      }

-- What an upload in flight relies on, and what it has achieved at its end.
abbrev pub Flies : MemoryDocumentRepository → MemoryJobRepository → Flight → Type 0
Flies docs jobs (reusing doc) = get docs.by_id doc.id ≡ some doc
Flies docs jobs (filing doc) = get docs.by_id doc.id ≡ some doc
Flies docs jobs (submitting doc job) =
    (get docs.by_id doc.id ≡ some doc) × (job.document_id ≡ doc.id) × Recorded jobs job.id doc.id
Flies docs jobs (ended (ok result)) =
    (get docs.by_id result.document.id ≡ some result.document)
    × (result.job.document_id ≡ result.document.id)
    × Recorded jobs result.job.id result.document.id
Flies docs jobs _ = Unit

pub Flies-grown :
    {docs docs' : MemoryDocumentRepository} {jobs jobs' : MemoryJobRepository}
    → Grows docs jobs docs' jobs'
    → (f : Flight) → Flies docs jobs f
    → Flies docs' jobs' f
Flies-grown g (looking uploader filename dt bytes) h = tt
Flies-grown g (storing uploader filename dt bytes) h = tt
Flies-grown g (recording doc) h = tt
Flies-grown g (reusing doc) h = g.docs_kept doc.id doc h
Flies-grown g (filing doc) h = g.docs_kept doc.id doc h
Flies-grown g (submitting doc job) (stored, named, recorded) =
    (g.docs_kept doc.id doc stored, named, g.jobs_kept job.id doc.id recorded)
Flies-grown g (ended (err e)) h = tt
Flies-grown g (ended (ok result)) (stored, named, recorded) = (
  g.docs_kept result.document.id result.document stored,
  named,
  g.jobs_kept result.job.id result.document.id recorded,
)
