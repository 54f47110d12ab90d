-- ===== src/Ingestion/System/Served.antt =====
-- What every interleaving of uploads and processing keeps (gateway-go/internal/ingestion/service.go).
use financial_ai_platform.Prelude.{
  ℕ, ◌≡◌, refl, sym, ap, subst, ◌∙◌, inl, inr, arith, none, some, if◌then◌else◌, Bool-cases, List,
  ◌∷◌, ◌++◌, All, All-map, Text, text_eq, text_eq_iff, get, put, get-put, get-put_self,
}
use financial_ai_platform.Worker.{new_pool, start}
use financial_ai_platform.Worker.Held.{Held, All-split, submit-Held, Step-Held}
use financial_ai_platform.Ingestion.Records.{
  Document, Job, new_job, MemoryDocumentRepository, MemoryJobRepository,
}
use financial_ai_platform.Ingestion.Documents
use financial_ai_platform.Ingestion.Jobs
use financial_ai_platform.Ingestion.Service.{
  Service, Outside, Draw, Reader, started_service, upload,
}
use financial_ai_platform.Ingestion.Service.Outcomes.{upload-Effect}
use financial_ai_platform.Ingestion.Service.Consistency.{
  IsConsistent, IsConsistent-started, upload-IsConsistent,
}
use financial_ai_platform.Ingestion.Process.{MlService, Clock, save, process_job}
use financial_ai_platform.Ingestion.Process.Repository.{process_job_writes, save-OwnsJob}
use financial_ai_platform.Ingestion.System.{Step, uploads, writes, works, Run, here, next}

-- The document of a job is stored, and its record, which belongs to the same document.
pub record IsServed (docs : MemoryDocumentRepository) (jobs : MemoryJobRepository) (job : Job)
    : Type 0 where
  pub document : Document
  pub found : get docs.by_id job.document_id ≡ some document
  pub recorded : Job
  pub stored : get jobs.by_id job.id ≡ some recorded
  pub own : recorded.document_id ≡ job.document_id

-- A new document and a new job with a fresh id leave a job served.
IsServed-create :
    (docs : MemoryDocumentRepository) (jobs : MemoryJobRepository) (doc : Document) (new job : Job)
    → get jobs.by_id new.id ≡ none
    → IsServed docs jobs job
    → IsServed (Documents.create docs doc) (Jobs.create jobs new) job
unfolding Documents.create Jobs.create
IsServed-create docs jobs doc new job fresh v = record {
  document = if text_eq doc.id job.document_id then doc else v.document;
  found = ground (arith, get-put docs.by_id doc.id job.document_id doc, v.found);
  recorded = v.recorded;
  stored =
      ground (arith, get-put jobs.by_id new.id job.id new, text_eq_iff new.id job.id, v.stored);
  own = v.own;
}

-- The new job itself is served.
IsServed-new :
    (docs : MemoryDocumentRepository) (jobs : MemoryJobRepository) (doc : Document) (new : Job)
    → new.document_id ≡ doc.id
    → IsServed (Documents.create docs doc) (Jobs.create jobs new) new
unfolding Documents.create Jobs.create
IsServed-new docs jobs doc new own = record {
  document = doc;
  found = ap (get (put docs.by_id doc.id doc)) own ∙ get-put_self docs.by_id doc.id doc;
  recorded = new;
  stored = get-put_self jobs.by_id new.id new;
  own = refl;
}

-- An update of a record that is there.
pub save-put :
    (jobs : MemoryJobRepository) (written old : Job)
    → get jobs.by_id written.id ≡ some old
    → save jobs written ≡ record jobs { by_id = put jobs.by_id written.id written }
unfolding save Jobs.update
save-put jobs written old e = ground arith

-- A write of a served job leaves every job served.
IsServed-save :
    (docs : MemoryDocumentRepository) (jobs : MemoryJobRepository) (job written other : Job)
    → written.id ≡ job.id
    → written.document_id ≡ job.document_id
    → IsServed docs jobs job
    → IsServed docs jobs other
    → IsServed docs (save jobs written) other
IsServed-save docs jobs job written other same_id same_doc v w =
    let at : get jobs.by_id written.id ≡ some v.recorded = ap (get jobs.by_id) same_id ∙ v.stored in
    let after = put jobs.by_id written.id written in
    let read = get-put jobs.by_id written.id other.id written in
    let shape = save-put jobs written v.recorded at in
    let reread = ap (λ (r : MemoryJobRepository). get r.by_id other.id) shape in
    elim (Bool-cases (text_eq written.id other.id)) [
      | inl hit ↦
          let ids : written.id ≡ other.id = (text_eq_iff written.id other.id).0 hit in
          let twice : some w.recorded ≡ some v.recorded =
            sym w.stored ∙ ap (get jobs.by_id) (sym ids) ∙ at in
          let one : w.recorded ≡ v.recorded = ground arith in
          record {
            document = w.document;
            found = w.found;
            recorded = written;
            stored =
                reread ∙ read ∙ ap (λ b. if b then some written else get jobs.by_id other.id) hit;
            own = same_doc ∙ sym v.own ∙ ap (λ r. r.document_id) (sym one) ∙ w.own;
          }
      | inr miss ↦ record {
        document = w.document;
        found = w.found;
        recorded = w.recorded;
        stored =
            reread
            ∙ read
            ∙ ap (λ b. if b then some written else get jobs.by_id other.id) miss
            ∙ w.stored;
        own = w.own;
      }
    ]

-- The records agree, and each job in the queue or with a worker is served.
abbrev pub IsSound : Service → Type 0
IsSound s = IsConsistent s.docs s.jobs × Held (IsServed s.docs s.jobs) s.pool

upload-IsSound :
    (o : Outside) (s : Service) (d : Draw) (uploader filename category : Text) (r : Reader)
    → get s.docs.by_id d.doc_id ≡ none
    → get s.jobs.by_id d.job_id ≡ none
    → IsSound s
    → IsSound (upload o s d uploader filename category r).0
upload-IsSound o s d uploader filename category r new_doc new_id v =
    let u = upload o s d uploader filename category r in
    let consistent = upload-IsConsistent o s d uploader filename category r v.0 new_doc new_id in
    elim (upload-Effect o s d r uploader filename category) [
      | inl kept ↦ subst IsSound (sym kept.0) v
      | inr w ↦
          let new = new_job d.job_id d.doc_id d.now in
          let P : Job → Type 0 =
            IsServed (Documents.create s.docs w.document) (Jobs.create s.jobs new) in
          let keep = λ (job : Job) (h : IsServed s.docs s.jobs job).
            IsServed-create s.docs s.jobs w.document new job new_id h in
          let old : Held P s.pool =
            (All-map s.pool.queue keep v.1.0, All-map s.pool.busy keep v.1.1) in
          let served : P new = IsServed-new s.docs s.jobs w.document new (sym w.named) in
          let held : Held P u.0.pool = elim w.submitted [
            | inl (pool, accepted, same, reply) ↦
                subst (Held P) (sym same)
                  (submit-Held P s.pool pool new s.pool.parked refl accepted served old)
            | inr (inl (full, same, reply)) ↦ subst (Held P) (sym same) old
            | inr (inr (closed, same, reply)) ↦ subst (Held P) (sym same) old
          ] in
          (consistent, rw (w.docs_shape, w.jobs_shape) held)
    ]

Step-IsSound : {o : Outside} {s t : Service} → Step o s t → IsSound s → IsSound t
Step-IsSound (uploads {s} d uploader filename category r new_doc new_id) v =
    upload-IsSound _ s d uploader filename category r new_doc new_id v
Step-IsSound (writes {s} before after job written busy same_id same_doc) v =
    let served : IsServed s.docs s.jobs job =
      (All-split (IsServed s.docs s.jobs) before job after
        (subst (All (IsServed s.docs s.jobs)) busy v.1.1)).0 in
    let keep = λ (other : Job) (h : IsServed s.docs s.jobs other).
      IsServed-save s.docs s.jobs job written other same_id same_doc served h in
    let owns = λ (old : Job) (e : get s.jobs.by_id job.id ≡ some old).
      let twice : some old ≡ some served.recorded = sym e ∙ served.stored in
      let one : old ≡ served.recorded = ground arith in
      ap (λ (r : Job). r.document_id) one ∙ served.own in
    (
      (save-OwnsJob s.docs job s.jobs written same_id same_doc (v.0, owns)).0,
      (All-map s.pool.queue keep v.1.0, All-map s.pool.busy keep v.1.1),
    )
Step-IsSound (works {s} {pool} step kept) v =
    (v.0, Step-Held (IsServed s.docs s.jobs) step kept v.1)

-- What `process_job` does for a job that a worker has is such a run, with nothing in between.
pub process_job-Run :
    (o : Outside) (m : MlService) (c : Clock) (s : Service) (before after : List Job) (job : Job)
    → s.pool.busy ≡ before ++ (job ∷ after)
    → Run o s (record s { jobs = process_job m c s.docs s.jobs job })
process_job-Run o m c s before after job busy =
    process_job_writes (λ (r : MemoryJobRepository). Run o s (record s { jobs = r })) m c s.docs job
      (λ (r : MemoryJobRepository) (written : Job) (same_id : written.id ≡ job.id)
          (same_doc : written.document_id ≡ job.document_id)
          (run : Run o s (record s { jobs = r })).
        next run (writes before after job written busy same_id same_doc))
      s.jobs here

Run-keeps : {o : Outside} {s t : Service} → IsSound s → Run o s t → IsSound t
Run-keeps v here = v
Run-keeps v (next r step) = Step-IsSound step (Run-keeps v r)

-- From the start of the service, in whatever order uploads under fresh ids, updates of the records of the
-- jobs that are being processed, and steps of the pool are made, the records stay consistent, and the
-- document and the record of each job that is queued or being processed are stored.
pub Run-IsSound :
    (o : Outside) (workers queue_size : ℕ) (s : Service)
    → Run o (started_service workers queue_size) s
    → IsSound s
unfolding new_pool start
Run-IsSound o workers queue_size s r =
    Run-keeps (IsConsistent-started workers queue_size, (tt, tt)) r
