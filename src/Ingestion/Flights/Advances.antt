-- ===== src/Ingestion/Flights/Advances.antt =====
-- What one step of an upload keeps (gateway-go/internal/ingestion/service.go).
use financial_ai_platform.Prelude.{
  ◌≡◌, refl, sym, ap, ◌∙◌, inl, inr, arith, some, Option-cases, Result-cases, true, ◌∷◌, ◌++◌, Text,
  get, get-put_self, ok, err,
}
use financial_ai_platform.Worker.{Submitted, submit, sent, queue_full, panicked}
use financial_ai_platform.Worker.Held.{submit-Held}
use financial_ai_platform.Ingestion.DocType.{
  no_job_for_duplicate, store_failed, queue_is_full, pool_panic,
}
use financial_ai_platform.Ingestion.Records.{
  Document, Job, new_job, MemoryDocumentRepository, MemoryJobRepository,
}
use financial_ai_platform.Ingestion.Documents
use financial_ai_platform.Ingestion.Jobs
use financial_ai_platform.Ingestion.Service.{Service, Outside, Draw, new_document}
use financial_ai_platform.Ingestion.System.Served.{IsServed}
use financial_ai_platform.Ingestion.Flights.{
  Flight, looking, storing, reusing, recording, filing, submitting, ended, advance, IsFresh,
}
use financial_ai_platform.Ingestion.Flights.Grows.{
  Recorded, Grows, Grows-same, Grows-create_document, Grows-create_job, Flies,
}
use financial_ai_platform.Ingestion.Flights.Kept.{IsSound, record_document, record_job}

created :
    (docs : MemoryDocumentRepository) (doc : Document)
    → get (Documents.create docs doc).by_id doc.id ≡ some doc
unfolding Documents.create
created docs doc = get-put_self docs.by_id doc.id doc

created_job :
    (jobs : MemoryJobRepository) (job : Job) → get (Jobs.create jobs job).by_id job.id ≡ some job
unfolding Jobs.create
created_job jobs job = get-put_self jobs.by_id job.id job

module _ (o : Outside) where
  -- A step of an upload keeps the records sound, lets them grow, and leaves the upload with what it relies
  -- on.
  abbrev pub Advances : Service → Service × Flight → Type 0
  Advances s (s', f') = IsSound s' × Grows s.docs s.jobs s'.docs s'.jobs × Flies s'.docs s'.jobs f'

  stay : (s : Service) (f : Flight) → IsSound s → Flies s.docs s.jobs f → Advances s (s, f)
  stay s f v h = (v, Grows-same s.docs s.jobs, h)

  find_existing :
      (s : Service) (hash : Text) (existing : Document)
      → IsSound s
      → Documents.find_by_content_hash s.docs hash ≡ ok existing
      → get s.docs.by_id existing.id ≡ some existing
  unfolding Documents.find_by_content_hash
  find_existing s hash existing v e = elim (Option-cases (get s.docs.by_hash hash)) [
    | inl unknown ↦ absurd (ground arith)
    | inr (id, known) ↦
        let (doc, there, hashed, named) = v.hashes hash id known in
        let same : existing ≡ doc = ground (arith, there) in
        rw same (ap (get s.docs.by_id) named ∙ there)
  ]

  find_job :
      (s : Service) (document_id : Text) (job : Job)
      → IsSound s
      → Jobs.find_latest_by_document_id s.jobs document_id ≡ ok job
      → (job.document_id ≡ document_id) × Recorded s.jobs job.id document_id
  unfolding Jobs.find_latest_by_document_id
  find_job s document_id job v e = elim (Option-cases (get s.jobs.latest_by_doc_id document_id)) [
    | inl unknown ↦ absurd (ground arith)
    | inr (id, known) ↦
        let (found, there, own, named) = v.latest document_id id known in
        let same : job ≡ found = ground (arith, there) in
        rw same (own, (found, ap (get s.jobs.by_id) named ∙ there, own))
  ]

  submit_job :
      (d : Draw) (s : Service) (doc : Document) (job : Job)
      → IsSound s
      → Flies s.docs s.jobs (submitting doc job)
      → Advances s (advance o d s (submitting doc job))
  unfolding advance
  submit_job d s doc job v (stored, named, (recorded, there, own)) =
      by_result (submit s.pool job) refl
    where
      served : IsServed s.docs s.jobs job
      served = record {
        document = doc;
        found = ap (get s.docs.by_id) named ∙ stored;
        recorded = recorded;
        stored = there;
        own = own ∙ sym named;
      }

      by_result :
          (r : Submitted Job)
          → submit s.pool job ≡ r
          → Advances s (advance o d s (submitting doc job))
      by_result (sent pool) e =
          rw (e, advance)
            (
              record {
                hashes = v.hashes;
                latest = v.latest;
                held =
                    submit-Held (IsServed s.docs s.jobs) s.pool pool job s.pool.parked refl e served
                      v.held;
              },
              Grows-same s.docs s.jobs,
              (stored, named, (recorded, there, own)),
            )
      by_result queue_full e = rw (e, advance) (stay s (ended (err queue_is_full)) v tt)
      by_result panicked e = rw (e, advance) (stay s (ended (err pool_panic)) v tt)

  pub advance-Advances :
      (d : Draw) (s : Service) (f : Flight)
      → IsFresh o d s f
      → IsSound s
      → Flies s.docs s.jobs f
      → Advances s (advance o d s f)
  unfolding advance
  advance-Advances d s (looking uploader filename dt bytes) fresh v h =
      elim (Result-cases (Documents.find_by_content_hash s.docs (o.digest bytes))) [
        | inl (existing, e) ↦
            rw (e, advance)
              (stay s (reusing existing) v (find_existing s (o.digest bytes) existing v e))
        | inr (x, e) ↦ rw (e, advance) (stay s (storing uploader filename dt bytes) v tt)
      ]
  advance-Advances d s (reusing doc) fresh v h =
      elim (Result-cases (Jobs.find_latest_by_document_id s.jobs doc.id)) [
        | inl (job, e) ↦
            let (own, recorded) = find_job s doc.id job v e in
            rw (e, advance)
              (stay s (ended (ok (record { document = doc; job = job; reused = true }))) v
                (h, own, recorded))
        | inr (x, e) ↦ rw (e, advance) (stay s (ended (err no_job_for_duplicate)) v tt)
      ]
  advance-Advances d s (storing uploader filename dt bytes) fresh v h =
      elim (Option-cases (o.store_put (d.doc_id ++ (b'/' ∷ filename)) bytes)) [
        | inl e ↦ rw (e, advance) (stay s (ended (err store_failed)) v tt)
        | inr (uri, e) ↦
            rw (e, advance)
              (stay s (recording (new_document o d uploader filename dt bytes uri)) v tt)
      ]
  advance-Advances d s (recording doc) fresh v h = (
    record_document s doc fresh v,
    Grows-create_document s.docs s.jobs doc fresh,
    created s.docs doc,
  )
  advance-Advances d s (filing doc) fresh v h =
      let job = new_job d.job_id doc.id doc.created_at in
      (
        record_job s job fresh v,
        Grows-create_job s.docs s.jobs job fresh,
        (h, refl, (job, created_job s.jobs job, refl)),
      )
  advance-Advances d s (submitting doc job) fresh v h = submit_job d s doc job v h
  advance-Advances d s (ended (err e)) fresh v h = stay s (ended (err e)) v h
  advance-Advances d s (ended (ok result)) fresh v h = stay s (ended (ok result)) v h
