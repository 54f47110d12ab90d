-- ===== src/Ingestion/Flights/Interleaved.antt =====
-- Every interleaving of uploads and workers (gateway-go/internal/ingestion/service.go).
use financial_ai_platform.Prelude.{
  ℕ, ◌≡◌, sym, ap, subst, ◌∙◌, inl, inr, Result-cases, List, [], ◌∷◌, ◌++◌, All, All-map,
  All-insert, Text, get,
}
use financial_ai_platform.Worker.Held.{All-split, Step-Held}
use financial_ai_platform.Ingestion.DocType.{upload_doc_type}
use financial_ai_platform.Ingestion.Records.{Job, MemoryDocumentRepository, MemoryJobRepository}
use financial_ai_platform.Ingestion.Service.{Outside, Draw, Reader, started_service, read_upload}
use financial_ai_platform.Ingestion.Process.{save}
use financial_ai_platform.Ingestion.System.Served.{IsServed}
use financial_ai_platform.Ingestion.Flights.{
  Flight, begin, advance, IsFresh, Flights, Step, arrives, moves, writes, works, Run, here, next,
}
use financial_ai_platform.Ingestion.Flights.Grows.{Recorded, Grows-save, Flies, Flies-grown}
use financial_ai_platform.Ingestion.Flights.Kept.{IsSound, started-IsSound, write_job}
use financial_ai_platform.Ingestion.Flights.Advances.{advance-Advances}

begin-Flies :
    (docs : MemoryDocumentRepository) (jobs : MemoryJobRepository)
    (uploader filename category : Text) (r : Reader)
    → Flies docs jobs (begin uploader filename category r)
unfolding begin
begin-Flies docs jobs uploader filename category r =
    elim (Result-cases (upload_doc_type category filename)) [
      | inr (x, e) ↦ rw (e, begin) tt
      | inl (dt, e) ↦ elim (Result-cases (read_upload r)) [
        | inr (x, f) ↦ rw (e, f, begin) tt
        | inl (bytes, f) ↦ rw (e, f, begin) tt
      ]
    ]

-- The records are sound, and each upload has what it relies on.
abbrev pub AreSound : Flights → Type 0
AreSound s = IsSound s.service × All (Flies s.service.docs s.service.jobs) s.uploads

module _ (o : Outside) where
  move-AreSound :
      (d : Draw) (s : Flights) (before after : List Flight) (f : Flight)
      → s.uploads ≡ before ++ (f ∷ after)
      → IsFresh o d s.service f
      → AreSound s
      → AreSound (record {
        service = (advance o d s.service f).0;
        uploads = before ++ ((advance o d s.service f).1 ∷ after);
      })
  move-AreSound d s before after f at fresh (v, flies) =
      let P : Flight → Type 0 = Flies s.service.docs s.service.jobs in
      let u = (advance o d s.service f).0 in
      let (own, others) = All-split P before f after (subst (All P) at flies) in
      let (sound, grown, flies') = advance-Advances o d s.service f fresh v own in
      (
        sound,
        All-insert (Flies u.docs u.jobs) before after (advance o d s.service f).1 flies'
            (All-map (before ++ after) (Flies-grown grown) others),
      )

  write-AreSound :
      (s : Flights) (before after : List Job) (job written : Job)
      → s.service.pool.busy ≡ before ++ (job ∷ after)
      → written.id ≡ job.id
      → written.document_id ≡ job.document_id
      → AreSound s
      → AreSound (record s { service = record s.service { jobs = save s.service.jobs written } })
  write-AreSound s before after job written busy same_id same_doc (v, flies) =
      let (docs, jobs) : MemoryDocumentRepository × MemoryJobRepository =
        (s.service.docs, s.service.jobs) in
      let served : IsServed docs jobs job =
        (All-split (IsServed docs jobs) before job after
          (subst (All (IsServed docs jobs)) busy v.held.1)).0 in
      let recorded : Recorded jobs written.id written.document_id =
        (served.recorded, ap (get jobs.by_id) same_id ∙ served.stored, served.own ∙ sym same_doc) in
      (
        write_job s.service written recorded v,
        All-map s.uploads (Flies-grown (Grows-save docs jobs written recorded)) flies,
      )

  Step-AreSound : {s t : Flights} → Step o s t → AreSound s → AreSound t
  Step-AreSound (arrives {s} uploader filename category r) (v, flies) =
      (v, (begin-Flies s.service.docs s.service.jobs uploader filename category r, flies))
  Step-AreSound (moves {s} d before after f at fresh) v =
      move-AreSound d s before after f at fresh v
  Step-AreSound (writes {s} before after job written busy same_id same_doc) v =
      write-AreSound s before after job written busy same_id same_doc v
  Step-AreSound (works {s} {pool} step kept) (v, flies) = (
    record {
      hashes = v.hashes;
      latest = v.latest;
      held = Step-Held (IsServed s.service.docs s.service.jobs) step kept v.held;
    },
    flies,
  )

  Run-keeps : {s t : Flights} → AreSound s → Run o s t → AreSound t
  Run-keeps v here = v
  Run-keeps v (next r step) = Step-AreSound step (Run-keeps v r)

  -- From the start of the service, however the single calls of any number of uploads, the updates of the
  -- records of jobs that are being processed, and the steps of the pool are interleaved, if each Create uses
  -- an id that is not in use: each hash in the index leads to a stored document with that hash, and the
  -- latest job of a document to the record of a job of that document; the document and the record of each
  -- job that is queued or being processed are stored; and an upload that has ended with a result has
  -- returned a stored document, and a job of that document whose record is stored.
  pub Run-AreSound :
      (workers queue_size : ℕ) (s : Flights)
      → Run o (record { service = started_service workers queue_size; uploads = [] }) s
      → AreSound s
  Run-AreSound workers queue_size s r = Run-keeps (started-IsSound workers queue_size, tt) r
