-- ===== src/Ingestion/Process/Outcome.antt =====
-- How a job ends (gateway-go/internal/ingestion/service.go).
use financial_ai_platform.Prelude.{
  ◌≡◌, refl, ◌⊎◌, inl, inr, arith, if◌then◌else◌, Option, none, some, Option-cases, Result-cases,
  Text, lit, get, text_eq, text_eq_iff, get-put, Result, ok, err, ◌>>=◌,
}
use financial_ai_platform.Ingestion.Records.{
  Document, RepositoryError, Job, extracting, embedding, completed, failed, InferredMetadata,
  MemoryDocumentRepository, MemoryJobRepository,
}
use financial_ai_platform.Ingestion.Documents
use financial_ai_platform.Ingestion.Jobs
use financial_ai_platform.Ingestion.Process.{
  MlService, Clock, ChunkAndEmbedProgress, save, load_error, extracted, marked_extracting,
  marked_embedding, process_job,
}

-- The last state of a job, computed without any repository: the two calls in order, and the fields
-- that each sets.
abbrev pub failed_job : Clock → Job → Text → Job
failed_job c job cause = record job {
  status = failed;
  error = cause;
  updated_at = c.finish;
  completed_at = some c.finish;
}

abbrev pub completed_job : Clock → Job → ChunkAndEmbedProgress → Job
completed_job c job progress = record job {
  status = completed;
  chunk_count = progress.chunks_total;
  chunks_skipped_duplicate = progress.chunks_skipped_duplicate;
  updated_at = c.finish;
  completed_at = some c.finish;
}

-- After a write, the repository holds the job if it held one with this id, and else is unchanged.
get-save :
    (jobs : MemoryJobRepository) (job : Job) (id : Text)
    → get (save jobs job).by_id id ≡ (
        if text_eq job.id id
        then elim (get jobs.by_id id) [ none ↦ none | some _ ↦ some job ]
        else get jobs.by_id id)
unfolding save Jobs.update
get-save jobs job id = elim (Option-cases (get jobs.by_id job.id)) [
  | inl e ↦ ground (arith, text_eq_iff job.id id)
  | inr (old, e) ↦ ground (arith, text_eq_iff job.id id, get-put jobs.by_id job.id id job)
]

abbrev attempt : {A : Type 0} → Job → Result Text A → Result (Job × Text) A
attempt job (ok a) = ok a
attempt job (err cause) = err (job, cause)

abbrev load : Job → Result RepositoryError Document → Result (Job × Text) Document
load job (ok doc) = ok doc
load job (err _) = err (job, lit "load document: ingestion: document not found")

abbrev inferred_or : InferredMetadata → Option InferredMetadata → InferredMetadata
inferred_or own none = own
inferred_or own (some inferred) = inferred

abbrev settle : Clock → Result (Job × Text) Job → Job
settle c (ok job) = job
settle c (err failure) = failed_job c failure.0 failure.1

module _ (m : MlService) (c : Clock) (docs : MemoryDocumentRepository) (job : Job) where
  -- The job at its end: the document is loaded, extracted and embedded, and the first error ends it
  -- as failed. The text that was extracted goes to the embedding, and the metadata that was
  -- inferred with it, or else the job's own.
  abbrev pub final_job : Job
  final_job = settle c (do
    let begun = record job { status = extracting; updated_at = c.extraction }
    doc ← load begun (Documents.find_by_id docs job.document_id)
    resp ← attempt begun (m.extract_document doc.id doc.storage_uri doc.doc_type)
    let metadata = inferred_or job.metadata resp.inferred_metadata
    let midway = record job {
      status = embedding;
      updated_at = c.embedding_start;
      extracted_text = resp.raw_text;
      table_count = resp.tables;
      page_count = resp.page_count;
      metadata = metadata;
    }
    progress ← attempt midway (m.chunk_and_embed doc.id resp.raw_text metadata)
    ok (completed_job c midway progress))

  -- A worker ends a job as completed or failed, with the time of its end, and leaves its identity.
  pub final_job_ends :
      ((final_job.status ≡ completed) ⊎ (final_job.status ≡ failed))
      × (final_job.completed_at ≡ some c.finish)
      × (final_job.id ≡ job.id)
      × (final_job.document_id ≡ job.document_id)
  final_job_ends = ground arith

  module _ (jobs : MemoryJobRepository) (id : Text) where
    -- The repository's entry under an id, if the job with the id of `job` were replaced by `last`.
    abbrev pub replaced : Job → Option Job
    replaced last =
        if text_eq job.id id
        then elim (get jobs.by_id id) [ none ↦ none | some _ ↦ some last ]
        else get jobs.by_id id

    -- Two writes of the job leave what the second wrote.
    get-save_twice :
        (first last : Job)
        → first.id ≡ job.id
        → last.id ≡ job.id
        → get (save (save jobs first) last).by_id id ≡ replaced last
    get-save_twice first last named same =
        ground (arith, get-save jobs first id, get-save (save jobs first) last id)

    get-save_thrice :
        (first second last : Job)
        → first.id ≡ job.id
        → second.id ≡ job.id
        → last.id ≡ job.id
        → get (save (save (save jobs first) second) last).by_id id ≡ replaced last
    get-save_thrice first second last named again same = ground (
      arith,
      get-save_twice first second named again,
      get-save (save (save jobs first) second) last id,
    )

  extracting_job : Job
  extracting_job = marked_extracting c job

  -- After `processJob`, the repository holds the final job in place of the one with its id, if
  -- there was one, and every other job as before.
  pub get-process_job :
      (jobs : MemoryJobRepository) (id : Text)
      → get (process_job m c docs jobs job).by_id id ≡ replaced jobs id final_job
  unfolding process_job extracting_job
  get-process_job jobs id = elim (Result-cases (Documents.find_by_id docs job.document_id)) [
    | inr (x, e) ↦ ground (
      arith,
      get-save_twice jobs id extracting_job (failed_job c extracting_job load_error) refl refl,
    )
    | inl (doc, e) ↦ elim (Result-cases (m.extract_document doc.id doc.storage_uri doc.doc_type)) [
      | inr (cause, f) ↦ ground (
        arith,
        get-save_twice jobs id extracting_job (failed_job c extracting_job cause) refl refl,
      )
      | inl (resp, f) ↦
          let embedding_job = marked_embedding c (extracted extracting_job resp) in
          elim (Result-cases
            (m.chunk_and_embed doc.id embedding_job.extracted_text embedding_job.metadata)) [
              | inr (cause, g) ↦ ground (
                arith,
                get-save_thrice jobs id extracting_job embedding_job
                    (failed_job c embedding_job cause) refl refl refl,
              )
              | inl (progress, g) ↦ ground (
                arith,
                get-save_thrice jobs id extracting_job embedding_job
                    (completed_job c embedding_job progress) refl refl refl,
              )
            ]
    ]
  ]
