-- ===== src/Storage/Utf8.antt =====
-- The decoding of UTF-8 with "replace" that urllib's unquote ends with (ml-service/app/storage.py): texts are
-- their bytes, and each longest start of a character that does not become one is replaced by U+FFFD.
use financial_ai_platform.Prelude.{
  ℕ, zero, suc, ◌≤◌, ◌<◌, ◌&&◌, ◌==◌, ◌≡◌, ◌≢◌, ◌⊎◌, Bool, Bool-cases, inl, inr, refl, ap, ◌∙◌,
  arith, [], ◌∷◌, ◌++◌, All, if◌then◌else◌, leb, ltb, Text,
}

-- Between characters, or behind the bytes of one: the bounds of the next byte, and how many follow it.
pub data Decoder : Type 0 where
  idle : Decoder
  need : Text → (low high more : ℕ) → Decoder

abbrev replacement : Text
replacement = 239 ∷ 191 ∷ 189 ∷ []

abbrev between : ℕ → ℕ → ℕ → Bool
between low high c = leb low c && leb c high

-- The first byte of a character.
lead : ℕ → Text × Decoder
lead c =
    if ltb c 128
    then (c ∷ [], idle)
    else if between 194 223 c
    then ([], need (c ∷ []) 128 191 0)
    else if c == 224
    then ([], need (c ∷ []) 160 191 1)
    else if c == 237
    then ([], need (c ∷ []) 128 159 1)
    else if between 225 239 c
    then ([], need (c ∷ []) 128 191 1)
    else if c == 240
    then ([], need (c ∷ []) 144 191 2)
    else if between 241 243 c
    then ([], need (c ∷ []) 128 191 2)
    else if c == 244
    then ([], need (c ∷ []) 128 143 2)
    else (replacement, idle)

abbrev continued : Text → ℕ → ℕ → Text × Decoder
continued read c zero = (read ++ c ∷ [], idle)
continued read c (suc more) = ([], need (read ++ c ∷ []) 128 191 more)

abbrev restarted : Text × Decoder → Text × Decoder
restarted r = (replacement ++ r.0, r.1)

step : Decoder → ℕ → Text × Decoder
unfolding lead
step idle c = lead c
step (need read low high more) c =
    if between low high c then continued read c more else restarted (lead c)

unfoldable pub decode : Decoder → Text → Text
unfolding step
decode idle [] = []
decode (need read low high more) [] = replacement
decode d (c ∷ s) = let r = step d c in r.0 ++ decode r.1 s

-- A byte that continues a character.
abbrev pub IsTail : ℕ → Type 0
IsTail c = (128 ≤ c) × (c ≤ 191)

-- The texts that are UTF-8: no longer form than is needed, no surrogate, and no more than U+10FFFF.
pub data IsUtf8 : Text → Type 0 where
  nothing : IsUtf8 []
  one_byte : {s : Text} (a : ℕ) → a < 128 → IsUtf8 s → IsUtf8 (a ∷ s)
  two_bytes : {s : Text} (a b : ℕ) → 194 ≤ a → a ≤ 223 → IsTail b → IsUtf8 s → IsUtf8 (a ∷ b ∷ s)
  three_bytes :
      {s : Text} (a b c : ℕ)
      → 224 ≤ a
      → a ≤ 239
      → IsTail b
      → (a ≢ 224) ⊎ (160 ≤ b)
      → (a ≢ 237) ⊎ (b ≤ 159)
      → IsTail c
      → IsUtf8 s
      → IsUtf8 (a ∷ b ∷ c ∷ s)
  four_bytes :
      {s : Text} (a b c d : ℕ)
      → 240 ≤ a
      → a ≤ 244
      → IsTail b
      → (a ≢ 240) ⊎ (144 ≤ b)
      → (a ≢ 244) ⊎ (b ≤ 143)
      → IsTail c
      → IsTail d
      → IsUtf8 s
      → IsUtf8 (a ∷ b ∷ c ∷ d ∷ s)

pub ascii-IsUtf8 : (s : Text) → All (λ c. c < 128) s → IsUtf8 s
ascii-IsUtf8 [] h = nothing
ascii-IsUtf8 (c ∷ s) (h, hs) = one_byte c h (ascii-IsUtf8 s hs)

pub bytes-IsUtf8 : (s : Text) → IsUtf8 s → All (λ c. c < 256) s
bytes-IsUtf8 _ nothing = tt
bytes-IsUtf8 _ (one_byte {s} a h u) = (omega arith, bytes-IsUtf8 s u)
bytes-IsUtf8 _ (two_bytes {s} a b h h' t u) = (omega arith, (omega arith, bytes-IsUtf8 s u))
bytes-IsUtf8 _ (three_bytes {s} a b c h h' t o p t' u) =
    (omega arith, (omega arith, (omega arith, bytes-IsUtf8 s u)))
bytes-IsUtf8 _ (four_bytes {s} a b c d h h' t o p t' t'' u) =
    (omega arith, (omega arith, (omega arith, (omega arith, bytes-IsUtf8 s u))))

-- A decoder that reads a byte, and the rest of a character.
decode_steps :
    (d : Decoder) (c : ℕ) (s : Text) (r : Text × Decoder)
    → step d c ≡ r
    → decode d (c ∷ s) ≡ r.0 ++ decode r.1 s
unfolding decode
decode_steps idle c s r h = ap (λ (q : Text × Decoder). q.0 ++ decode q.1 s) h
decode_steps (need read low high more) c s r h = ap (λ (q : Text × Decoder). q.0 ++ decode q.1 s) h

step_last :
    (read : Text) (low high c : ℕ)
    → low ≤ c
    → c ≤ high
    → step (need read low high 0) c ≡ (read ++ c ∷ [], idle)
unfolding step
step_last read low high c h h' = ground arith

step_more :
    (read : Text) (low high more c : ℕ)
    → low ≤ c
    → c ≤ high
    → step (need read low high (suc more)) c ≡ ([], need (read ++ c ∷ []) 128 191 more)
unfolding step
step_more read low high more c h h' = ground arith

lead_two : (a : ℕ) → 194 ≤ a → a ≤ 223 → step idle a ≡ ([], need (a ∷ []) 128 191 0)
unfolding step lead
lead_two a h h' = ground arith

-- The bounds of the second byte of three, and of four.
lead_three :
    (a b : ℕ)
    → 224 ≤ a
    → a ≤ 239
    → IsTail b
    → (a ≢ 224) ⊎ (160 ≤ b)
    → (a ≢ 237) ⊎ (b ≤ 159)
    → (low : ℕ) × (high : ℕ) × (step idle a ≡ ([], need (a ∷ []) low high 1))
      × (low ≤ b)
      × (b ≤ high)
unfolding step lead
lead_three a b h h' t o p = elim (Bool-cases (a == 224)) [
  | inl e ↦ (160, 191, ground arith, ground arith, ground arith)
  | inr e ↦ elim (Bool-cases (a == 237)) [
    | inl f ↦ (128, 159, ground arith, ground arith, ground arith)
    | inr f ↦ (128, 191, ground arith, ground arith, ground arith)
  ]
]

lead_four :
    (a b : ℕ)
    → 240 ≤ a
    → a ≤ 244
    → IsTail b
    → (a ≢ 240) ⊎ (144 ≤ b)
    → (a ≢ 244) ⊎ (b ≤ 143)
    → (low : ℕ) × (high : ℕ) × (step idle a ≡ ([], need (a ∷ []) low high 2))
      × (low ≤ b)
      × (b ≤ high)
unfolding step lead
lead_four a b h h' t o p = elim (Bool-cases (a == 240)) [
  | inl e ↦ (144, 191, ground arith, ground arith, ground arith)
  | inr e ↦ elim (Bool-cases (a == 244)) [
    | inl f ↦ (128, 143, ground arith, ground arith, ground arith)
    | inr f ↦ (128, 191, ground arith, ground arith, ground arith)
  ]
]

lead_ascii : (a : ℕ) → a < 128 → step idle a ≡ (a ∷ [], idle)
unfolding step lead
lead_ascii a h = ground arith

-- UTF-8 is left as it is.
pub decode-IsUtf8 : (s : Text) → IsUtf8 s → decode idle s ≡ s
unfolding decode
decode-IsUtf8 _ nothing = refl
decode-IsUtf8 _ (one_byte {s} a h u) =
    decode_steps idle a s _ (lead_ascii a h) ∙ ap (◌∷◌ a) (decode-IsUtf8 s u)
decode-IsUtf8 _ (two_bytes {s} a b h h' (l, l') u) =
    decode_steps idle a (b ∷ s) _ (lead_two a h h')
    ∙ decode_steps (need (a ∷ []) 128 191 0) b s _ (step_last (a ∷ []) 128 191 b l l')
    ∙ ap (λ (r : Text). a ∷ b ∷ r) (decode-IsUtf8 s u)
decode-IsUtf8 _ (three_bytes {s} a b c h h' t o p (m, m') u) =
    let (low, high, first, l, l') = lead_three a b h h' t o p in
    decode_steps idle a (b ∷ c ∷ s) _ first
    ∙ decode_steps (need (a ∷ []) low high 1) b (c ∷ s) _ (step_more (a ∷ []) low high 0 b l l')
    ∙ decode_steps (need (a ∷ b ∷ []) 128 191 0) c s _ (step_last (a ∷ b ∷ []) 128 191 c m m')
    ∙ ap (λ (r : Text). a ∷ b ∷ c ∷ r) (decode-IsUtf8 s u)
decode-IsUtf8 _ (four_bytes {s} a b c d h h' t o p (m, m') (n, n') u) =
    let (low, high, first, l, l') = lead_four a b h h' t o p in
    decode_steps idle a (b ∷ c ∷ d ∷ s) _ first
    ∙ decode_steps (need (a ∷ []) low high 2) b (c ∷ d ∷ s) _ (step_more (a ∷ []) low high 1 b l l')
    ∙ decode_steps (need (a ∷ b ∷ []) 128 191 1) c (d ∷ s) _
        (step_more (a ∷ b ∷ []) 128 191 0 c m m')
    ∙ decode_steps (need (a ∷ b ∷ c ∷ []) 128 191 0) d s _
        (step_last (a ∷ b ∷ c ∷ []) 128 191 d n n')
    ∙ ap (λ (r : Text). a ∷ b ∷ c ∷ d ∷ r) (decode-IsUtf8 s u)
