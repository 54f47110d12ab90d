-- ===== src/MlClient/Drain.antt =====
-- What `ChunkAndEmbed` returns, gateway-go/internal/mlclient/client.go.
use financial_ai_platform.Prelude.{
  ◌≡◌, ◌↔◌, ◌⊎◌, inl, inr, refl, ap, ◌∙◌, arith, Option, none, some, List, [], ◌∷◌, ◌++◌, Text,
  Result, ok, err,
}
use financial_ai_platform.MlClient.{Ending, eof, broken, Stream, drain, chunk_and_embed}

module _ {M : Type 0} where
  drain_last :
      (messages : List M) (last : M) (old : Option M)
      → drain (messages ++ last ∷ []) eof old ≡ ok last
  unfolding drain
  drain_last [] last old = refl
  drain_last (m ∷ messages) last old = drain_last messages last (some m)

  -- The messages of a stream that was drained, with those before.
  abbrev Ends : Option M → List M → M → Type 0
  Ends old messages p =
      ((before : List M) × (messages ≡ before ++ p ∷ [])) ⊎ ((messages ≡ []) × (old ≡ some p))

  drain-eq-ok :
      (messages : List M) (ending : Ending) (old : Option M) (p : M)
      → drain messages ending old ≡ ok p
      → (ending ≡ eof) × Ends old messages p
  unfolding drain
  drain-eq-ok [] eof none p h = absurd (cc)
  drain-eq-ok [] eof (some q) p h = (refl, inr (refl, ground arith))
  drain-eq-ok [] (broken cause) old p h = absurd (cc)
  drain-eq-ok (m ∷ messages) ending old p h =
      let (at_end, rest) = drain-eq-ok messages ending (some m) p h in
      (
        at_end,
        elim rest [
          | inl (before, shape) ↦ inl (m ∷ before, ap (◌∷◌ m) shape)
          | inr (nothing, same) ↦ inl ([], ground arith)
        ],
      )

  last_message :
      (stream : Stream M) (p : M)
      → drain stream.messages stream.ending none ≡ ok p
      → (before : List M) × (stream ≡ record { messages = before ++ p ∷ []; ending = eof })
  last_message stream p h =
      let (at_end, rest) = drain-eq-ok stream.messages stream.ending none p h in
      elim rest [ inl (before, shape) ↦ (before, ground arith) | inr (nothing, same) ↦ absurd (cc) ]

  was_last :
      (stream : Stream M) (p : M) (before : List M)
      → stream ≡ record { messages = before ++ p ∷ []; ending = eof }
      → drain stream.messages stream.ending none ≡ ok p
  was_last stream p before same =
      ap (λ t. drain t.messages t.ending none) same ∙ drain_last before p none

  -- `ChunkAndEmbed` returns a message exactly if the stream opened, ended without an error, and had
  -- this message as its last.
  pub chunk_and_embed_iff :
      (opened : Result Text (Stream M)) (p : M)
      → (chunk_and_embed opened ≡ ok p)
        ↔ ((before : List M) × (opened ≡ ok (record { messages = before ++ p ∷ []; ending = eof })))
  unfolding chunk_and_embed
  chunk_and_embed_iff (err cause) p = ((λ h. absurd (cc)), (λ e. absurd (cc (e.1))))
  chunk_and_embed_iff (ok stream) p = (
    λ h. let (before, same) = last_message stream p h in (before, ap ok same),
    λ e. was_last stream p e.0 (cc (e.1)),
  )
