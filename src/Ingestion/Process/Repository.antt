-- ===== src/Ingestion/Process/Repository.antt =====
-- What processing keeps of the records (gateway-go/internal/ingestion/service.go).
use financial_ai_platform.Prelude.{
  ◌≡◌, refl, sym, ap, ◌∙◌, inl, inr, arith, Bool-cases, some, Option-cases, Result-cases, Text, get,
  put, text_eq, text_eq_iff, get-put, put-IsDistinct, ok,
}
use financial_ai_platform.Ingestion.Records.{
  Document, Job, MemoryDocumentRepository, MemoryJobRepository,
}
use financial_ai_platform.Ingestion.Documents
use financial_ai_platform.Ingestion.Jobs
use financial_ai_platform.Ingestion.Process.{
  MlService, Clock, ExtractDocumentResponse, load_error, save, extracted, marked_extracting,
  marked_embedding, process_job,
}
use financial_ai_platform.Ingestion.Process.Outcome.{failed_job, completed_job}
use financial_ai_platform.Ingestion.Service.Consistency.{HasJob, IsConsistent}

-- A property of the repository that every write of the job keeps is kept by the processing.
module _ (P : MemoryJobRepository → Type 0) (m : MlService) (c : Clock)
    (docs : MemoryDocumentRepository) (job : Job)
    (write : (r : MemoryJobRepository) (j : Job)
      → j.id ≡ job.id
      → j.document_id ≡ job.document_id
      → P r
      → P (save r j)) where
  embedding_writes :
      (jobs : MemoryJobRepository) (doc : Document) (resp : ExtractDocumentResponse)
      → Documents.find_by_id docs job.document_id ≡ ok doc
      → m.extract_document doc.id doc.storage_uri doc.doc_type ≡ ok resp
      → P jobs
      → P (process_job m c docs jobs job)
  unfolding process_job
  embedding_writes jobs doc resp e f p =
      let first = marked_extracting c job in
      let second = marked_embedding c (extracted first resp) in
      let twice = write _ second refl refl (write jobs first refl refl p) in
      elim (Result-cases (m.chunk_and_embed doc.id second.extracted_text second.metadata)) [
        | inr (cause, g) ↦
            let last = failed_job c second cause in
            let shape : process_job m c docs jobs job ≡ save (save (save jobs first) second) last =
              ground arith in
            rw shape (write _ last refl refl twice)
        | inl (progress, g) ↦
            let last = completed_job c second progress in
            let shape : process_job m c docs jobs job ≡ save (save (save jobs first) second) last =
              ground arith in
            rw shape (write _ last refl refl twice)
      ]

  pub process_job_writes : (jobs : MemoryJobRepository) → P jobs → P (process_job m c docs jobs job)
  unfolding process_job
  process_job_writes jobs p = elim (Result-cases (Documents.find_by_id docs job.document_id)) [
    | inr (x, e) ↦
        let last = failed_job c (marked_extracting c job) load_error in
        let shape : process_job m c docs jobs job
            ≡ save (save jobs (marked_extracting c job)) last =
          ground arith in
        rw shape (write _ last refl refl (write jobs (marked_extracting c job) refl refl p))
    | inl (doc, e) ↦ elim (Result-cases (m.extract_document doc.id doc.storage_uri doc.doc_type)) [
      | inr (cause, f) ↦
          let last = failed_job c (marked_extracting c job) cause in
          let shape : process_job m c docs jobs job
              ≡ save (save jobs (marked_extracting c job)) last =
            ground arith in
          rw shape (write _ last refl refl (write jobs (marked_extracting c job) refl refl p))
      | inl (resp, f) ↦ embedding_writes jobs doc resp e f p
    ]
  ]

module _ (docs : MemoryDocumentRepository) (job : Job) where
  -- The records agree, and a stored job with this job's id belongs to the same document.
  abbrev pub OwnsJob : MemoryJobRepository → Type 0
  OwnsJob r =
      IsConsistent docs r
      × ((old : Job) → get r.by_id job.id ≡ some old → old.document_id ≡ job.document_id)

  module _ (r : MemoryJobRepository) (j old : Job) (named : j.id ≡ job.id)
      (same : j.document_id ≡ job.document_id) (p : OwnsJob r)
      (e : get r.by_id j.id ≡ some old) where
    written : MemoryJobRepository
    written = record r { by_id = put r.by_id j.id j }

    old_own : old.document_id ≡ j.document_id
    old_own = p.1 old (ap (get r.by_id) (sym named) ∙ e) ∙ sym same

    written_job : (id : Text) → HasJob r id → HasJob written id
    unfolding written
    written_job id h = elim (Bool-cases (text_eq j.id h.job_id)) [
      | inl hit ↦
          let at : j.id ≡ h.job_id = (text_eq_iff j.id h.job_id).0 hit in
          let found : h.job ≡ old = ground (arith, h.stored) in
          record {
            job_id = h.job_id;
            job = j;
            latest = h.latest;
            stored = ground (arith, get-put r.by_id j.id h.job_id j);
            own = sym old_own ∙ ap (λ x. x.document_id) (sym found) ∙ h.own;
          }
      | inr miss ↦ record {
        job_id = h.job_id;
        job = h.job;
        latest = h.latest;
        stored = ground (arith, h.stored, get-put r.by_id j.id h.job_id j);
        own = h.own;
      }
    ]

    written-OwnsJob : OwnsJob written
    unfolding written
    written-OwnsJob =
        let v = p.0 in
        (
          record {
            docs_distinct = v.docs_distinct;
            hashes_distinct = v.hashes_distinct;
            jobs_distinct = put-IsDistinct r.by_id j.id j v.jobs_distinct;
            hash_is_stored = v.hash_is_stored;
            docs_filed = λ id doc stored.
                let old_file = v.docs_filed id doc stored in
                record {
                  named = old_file.named;
                  hashed = old_file.hashed;
                  has_job = written_job id old_file.has_job;
                };
            jobs_named = λ id x stored.
                ground (arith, get-put r.by_id j.id id j, text_eq_iff j.id id, v.jobs_named id x);
          },
          λ x stored. ground (arith, get-put r.by_id j.id job.id j, text_eq_iff j.id job.id),
        )

  pub save-OwnsJob :
      (r : MemoryJobRepository) (j : Job)
      → j.id ≡ job.id
      → j.document_id ≡ job.document_id
      → OwnsJob r
      → OwnsJob (save r j)
  save-OwnsJob r j named same p = elim (Option-cases (get r.by_id j.id)) [
    | inl e ↦ let shape : save r j ≡ r = unfold save Jobs.update in ground arith in rw shape p
    | inr (old, e) ↦
        let shape : save r j ≡ written r j old named same p e =
          unfold save Jobs.update written in ground arith in
        rw shape (written-OwnsJob r j old named same p e)
  ]

-- Processing a job, with whatever outcome, keeps the records consistent, if the stored job with its
-- id belongs to the same document.
pub process_job-IsConsistent :
    (m : MlService) (c : Clock) (docs : MemoryDocumentRepository) (jobs : MemoryJobRepository)
    (job : Job)
    → IsConsistent docs jobs
    → ((old : Job) → get jobs.by_id job.id ≡ some old → old.document_id ≡ job.document_id)
    → IsConsistent docs (process_job m c docs jobs job)
process_job-IsConsistent m c docs jobs job v owns =
    (process_job_writes (OwnsJob docs job) m c docs job (save-OwnsJob docs job) jobs (v, owns)).0
