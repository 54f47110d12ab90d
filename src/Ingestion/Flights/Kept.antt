-- ===== src/Ingestion/Flights/Kept.antt =====
-- What every interleaving of uploads and workers keeps (gateway-go/internal/ingestion/service.go,
-- memory_repository.go).
use financial_ai_platform.Prelude.{
  ℕ, ◌≡◌, sym, ap, ◌∙◌, inl, inr, arith, none, some, Bool-cases, All-map, Text, text_eq,
  text_eq_iff, get, put, get-put, get-put_self,
}
use financial_ai_platform.Worker.{Pool, new_pool, start}
use financial_ai_platform.Worker.Held.{Held}
use financial_ai_platform.Ingestion.Records.{
  Document, Job, MemoryDocumentRepository, MemoryJobRepository,
}
use financial_ai_platform.Ingestion.Documents
use financial_ai_platform.Ingestion.Jobs
use financial_ai_platform.Ingestion.Service.{Service, started_service}
use financial_ai_platform.Ingestion.Process.{save}
use financial_ai_platform.Ingestion.System.Served.{IsServed, save-put}
use financial_ai_platform.Ingestion.Flights.Grows.{
  Recorded, Grows, Grows-create_document, Grows-create_job, Grows-save, IsServed-grown,
}

-- The index of the hashes leads to documents with these hashes, and that of the latest jobs to records of
-- jobs of these documents; every job that is queued or being processed is served.
pub record IsSound (s : Service) : Type 0 where
  pub hashes :
      (hash id : Text)
      → get s.docs.by_hash hash ≡ some id
      → (doc : Document) × (get s.docs.by_id id ≡ some doc)
        × (doc.content_hash ≡ hash)
        × (doc.id ≡ id)
  pub latest :
      (document_id id : Text)
      → get s.jobs.latest_by_doc_id document_id ≡ some id
      → (job : Job) × (get s.jobs.by_id id ≡ some job)
        × (job.document_id ≡ document_id)
        × (job.id ≡ id)
  pub held : Held (IsServed s.docs s.jobs) s.pool

pub started-IsSound : (workers queue_size : ℕ) → IsSound (started_service workers queue_size)
unfolding new_pool start get
started-IsSound workers queue_size = record {
  hashes = λ hash id e. absurd (cc);
  latest = λ document_id id e. absurd (cc);
  held = (tt, tt);
}

pub Held-grown :
    {docs docs' : MemoryDocumentRepository} {jobs jobs' : MemoryJobRepository} (pool : Pool Job)
    → Grows docs jobs docs' jobs'
    → Held (IsServed docs jobs) pool
    → Held (IsServed docs' jobs') pool
Held-grown pool g (queued, busy) =
    (All-map pool.queue (IsServed-grown g) queued, All-map pool.busy (IsServed-grown g) busy)

pub record_document :
    (s : Service) (doc : Document)
    → get s.docs.by_id doc.id ≡ none
    → IsSound s
    → IsSound (record s { docs = Documents.create s.docs doc })
unfolding Documents.create
record_document s doc fresh v =
    let g = Grows-create_document s.docs s.jobs doc fresh in
    record {
      hashes = λ hash id e.
          let read = get-put s.docs.by_hash doc.content_hash hash doc.id in
          elim (Bool-cases (text_eq doc.content_hash hash)) [
            | inl hit ↦
                let same : doc.id ≡ id = ground arith in
                let found =
                  ap (get (put s.docs.by_id doc.id doc)) (sym same)
                  ∙ get-put_self s.docs.by_id doc.id doc in
                (doc, found, (text_eq_iff doc.content_hash hash).0 hit, same)
            | inr miss ↦
                let (old, there, hashed, named) = v.hashes hash id (ground arith) in
                (old, g.docs_kept id old there, hashed, named)
          ];
      latest = v.latest;
      held = Held-grown s.pool g v.held;
    }

pub record_job :
    (s : Service) (job : Job)
    → get s.jobs.by_id job.id ≡ none
    → IsSound s
    → IsSound (record s { jobs = Jobs.create s.jobs job })
unfolding Jobs.create
record_job s job fresh v =
    let g = Grows-create_job s.docs s.jobs job fresh in
    record {
      hashes = v.hashes;
      latest = λ document_id id e.
          let read = get-put s.jobs.latest_by_doc_id job.document_id document_id job.id in
          elim (Bool-cases (text_eq job.document_id document_id)) [
            | inl hit ↦
                let same : job.id ≡ id = ground arith in
                let found =
                  ap (get (put s.jobs.by_id job.id job)) (sym same)
                  ∙ get-put_self s.jobs.by_id job.id job in
                (job, found, (text_eq_iff job.document_id document_id).0 hit, same)
            | inr miss ↦
                let (old, there, own, named) = v.latest document_id id (ground arith) in
                let read_old = get-put s.jobs.by_id job.id id job in
                (old, ground (arith, read_old, text_eq_iff job.id id, there), own, named)
          ];
      held = Held-grown s.pool g v.held;
    }

pub write_job :
    (s : Service) (written : Job)
    → Recorded s.jobs written.id written.document_id
    → IsSound s
    → IsSound (record s { jobs = save s.jobs written })
write_job s written (old, there, own) v =
    let g = Grows-save s.docs s.jobs written (old, there, own) in
    let shape = save-put s.jobs written old there in
    record {
      hashes = v.hashes;
      latest = λ document_id id e.
          let (other, found, owned, named) = v.latest document_id id (
            ap (λ (r : MemoryJobRepository). get r.latest_by_doc_id document_id) (sym shape) ∙ e) in
          let reread = ap (λ (r : MemoryJobRepository). get r.by_id id) shape in
          let read = get-put s.jobs.by_id written.id id written in
          elim (Bool-cases (text_eq written.id id)) [
            | inl hit ↦
                let ids : written.id ≡ id = (text_eq_iff written.id id).0 hit in
                let twice : some old ≡ some other = sym there ∙ ap (get s.jobs.by_id) ids ∙ found in
                let one : old ≡ other = cc in
                (
                  written,
                  reread ∙ read ∙ ground arith,
                  sym own ∙ ap (λ j. j.document_id) one ∙ owned,
                  ids,
                )
            | inr miss ↦ (other, reread ∙ read ∙ ground arith, owned, named)
          ];
      held = Held-grown s.pool g v.held;
    }
