-- ===== src/Ingestion/Service/Consistency.antt =====
-- The records of documents and jobs agree (gateway-go/internal/ingestion/memory_repository.go,
-- service.go).
use financial_ai_platform.Prelude.{
  ℕ, ◌≡◌, ◌≢◌, sym, ap, subst, ◌∙◌, inl, inr, arith, none, some, Bool-cases, Text, text_eq,
  text_eq_iff, get, put, get-put, get-put_self, put-IsDistinct, IsDistinct,
}
use financial_ai_platform.Ingestion.Records.{
  Document, Job, new_job, MemoryDocumentRepository, MemoryJobRepository,
}
use financial_ai_platform.Ingestion.Documents
use financial_ai_platform.Ingestion.Jobs
use financial_ai_platform.Ingestion.Service.{
  Service, Outside, Draw, Reader, started_service, upload,
}
use financial_ai_platform.Ingestion.Service.Outcomes.{upload-Effect}

-- A document has a latest job, which is its own.
pub record HasJob (jobs : MemoryJobRepository) (document_id : Text) : Type 0 where
  pub job_id : Text
  pub job : Job
  pub latest : get jobs.latest_by_doc_id document_id ≡ some job_id
  pub stored : get jobs.by_id job_id ≡ some job
  pub own : job.document_id ≡ document_id

-- A stored document: its id is its key, its hash leads back to it, and it has a job.
pub record IsFiled (docs : MemoryDocumentRepository) (jobs : MemoryJobRepository) (id : Text)
    (doc : Document) : Type 0 where
  pub named : doc.id ≡ id
  pub hashed : get docs.by_hash doc.content_hash ≡ some id
  pub has_job : HasJob jobs id

pub record IsConsistent (docs : MemoryDocumentRepository) (jobs : MemoryJobRepository)
    : Type 0 where
  pub docs_distinct : IsDistinct docs.by_id
  pub hashes_distinct : IsDistinct docs.by_hash
  pub jobs_distinct : IsDistinct jobs.by_id
  pub hash_is_stored :
      (hash id : Text)
      → get docs.by_hash hash ≡ some id
      → (doc : Document) × (get docs.by_id id ≡ some doc) × (doc.content_hash ≡ hash)
  pub docs_filed :
      (id : Text) (doc : Document) → get docs.by_id id ≡ some doc → IsFiled docs jobs id doc
  pub jobs_named : (id : Text) (job : Job) → get jobs.by_id id ≡ some job → job.id ≡ id

module _ (docs : MemoryDocumentRepository) (jobs : MemoryJobRepository) (v : IsConsistent docs jobs)
    (doc : Document) (job : Job) (own : job.document_id ≡ doc.id)
    (new_doc : get docs.by_id doc.id ≡ none) (new_job_id : get jobs.by_id job.id ≡ none)
    (unused : get docs.by_hash doc.content_hash ≡ none) where
  kept_hash :
      (hash id : Text)
      → get docs.by_hash hash ≡ some id
      → get (put docs.by_hash doc.content_hash doc.id) hash ≡ some id
  kept_hash hash id e =
      ground (
        arith,
        get-put docs.by_hash doc.content_hash hash doc.id,
        text_eq_iff doc.content_hash hash,
      )

  kept_doc :
      (id : Text) (x : Document)
      → get docs.by_id id ≡ some x
      → get (put docs.by_id doc.id doc) id ≡ some x
  kept_doc id x e = ground (arith, get-put docs.by_id doc.id id doc, text_eq_iff doc.id id)

  created_hash :
      (hash id : Text)
      → get (put docs.by_hash doc.content_hash doc.id) hash ≡ some id
      → (x : Document) × (get (put docs.by_id doc.id doc) id ≡ some x) × (x.content_hash ≡ hash)
  created_hash hash id h = elim (Bool-cases (text_eq doc.content_hash hash)) [
    | inl same ↦ (
      doc,
      ground (
        arith,
        get-put docs.by_hash doc.content_hash hash doc.id,
        get-put_self docs.by_id doc.id doc,
      ),
      (text_eq_iff doc.content_hash hash).0 same,
    )
    | inr other ↦
        let (x, stored, named) =
          v.hash_is_stored hash id
            (ground (arith, get-put docs.by_hash doc.content_hash hash doc.id)) in
        (x, kept_doc id x stored, named)
  ]

  kept_job : (id : Text) → doc.id ≢ id → HasJob jobs id → HasJob (Jobs.create jobs job) id
  unfolding Jobs.create
  kept_job id other h = record {
    job_id = h.job_id;
    job = h.job;
    latest = ground (
      arith,
      h.latest,
      own,
      get-put jobs.latest_by_doc_id job.document_id id job.id,
      text_eq_iff doc.id id,
    );
    stored =
        ground
          (arith, h.stored, get-put jobs.by_id job.id h.job_id job, text_eq_iff job.id h.job_id);
    own = h.own;
  }

  created_job : HasJob (Jobs.create jobs job) doc.id
  unfolding Jobs.create
  created_job = record {
    job_id = job.id;
    job = job;
    latest = ground (arith, own, get-put_self jobs.latest_by_doc_id job.document_id job.id);
    stored = get-put_self jobs.by_id job.id job;
    own = own;
  }

  created-IsFiled :
      (id : Text) (x : Document)
      → get (put docs.by_id doc.id doc) id ≡ some x
      → IsFiled (Documents.create docs doc) (Jobs.create jobs job) id x
  unfolding Documents.create
  created-IsFiled id x h = elim (Bool-cases (text_eq doc.id id)) [
    | inl same ↦
        let e : doc.id ≡ id = (text_eq_iff doc.id id).0 same in
        let f : x ≡ doc = ground (arith, get-put docs.by_id doc.id id doc) in
        record {
          named = ap (λ y. y.id) f ∙ e;
          hashed = ground (arith, f, e, get-put_self docs.by_hash doc.content_hash doc.id);
          has_job = subst (HasJob (Jobs.create jobs job)) e created_job;
        }
    | inr other ↦
        let old = v.docs_filed id x (ground (arith, get-put docs.by_id doc.id id doc)) in
        record {
          named = old.named;
          hashed = kept_hash x.content_hash id old.hashed;
          has_job = kept_job id (λ e. cc ((text_eq_iff doc.id id).1 e)) old.has_job;
        }
  ]

  created_named : (id : Text) (x : Job) → get (put jobs.by_id job.id job) id ≡ some x → x.id ≡ id
  created_named id x h =
      ground (arith, get-put jobs.by_id job.id id job, text_eq_iff job.id id, v.jobs_named id x)

  -- A new document under a fresh id and an unused hash, with its job, keeps the records consistent.
  pub create-IsConsistent : IsConsistent (Documents.create docs doc) (Jobs.create jobs job)
  unfolding Documents.create Jobs.create
  create-IsConsistent = record {
    docs_distinct = put-IsDistinct docs.by_id doc.id doc v.docs_distinct;
    hashes_distinct = put-IsDistinct docs.by_hash doc.content_hash doc.id v.hashes_distinct;
    jobs_distinct = put-IsDistinct jobs.by_id job.id job v.jobs_distinct;
    hash_is_stored = created_hash;
    docs_filed = created-IsFiled;
    jobs_named = created_named;
  }

pub IsConsistent-started :
    (workers queue_size : ℕ)
    → IsConsistent
        (started_service workers queue_size).docs
        (started_service workers queue_size).jobs
unfolding get
IsConsistent-started workers queue_size = record {
  docs_distinct = tt;
  hashes_distinct = tt;
  jobs_distinct = tt;
  hash_is_stored = λ hash id h. absurd (cc);
  docs_filed = λ id doc h. absurd (cc);
  jobs_named = λ id job h. absurd (cc);
}

-- Every upload, whatever its outcome, with fresh ids, keeps the records consistent: every stored
-- document has a latest job, and every known hash leads to a document with that hash.
pub upload-IsConsistent :
    (o : Outside) (s : Service) (d : Draw) (uploader filename category : Text) (r : Reader)
    → IsConsistent s.docs s.jobs
    → get s.docs.by_id d.doc_id ≡ none
    → get s.jobs.by_id d.job_id ≡ none
    → let s' = (upload o s d uploader filename category r).0 in IsConsistent s'.docs s'.jobs
upload-IsConsistent o s d uploader filename category r v new_doc new_job_id =
    elim (upload-Effect o s d r uploader filename category) [
      | inl kept ↦ subst (λ t. IsConsistent t.docs t.jobs) (sym kept.0) v
      | inr w ↦
          rw (w.docs_shape, w.jobs_shape)
            (create-IsConsistent s.docs s.jobs v w.document (new_job d.job_id d.doc_id d.now)
              (sym w.named) (ap (get s.docs.by_id) w.named ∙ new_doc) new_job_id w.unused)
    ]
