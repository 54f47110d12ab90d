-- ===== src/Storage/Uris.antt =====
-- The file:// URIs of gateway-go/internal/storage/local.go, and how ml-service/app/storage.py reads them.
use financial_ai_platform.Prelude.{
  ℕ, ◌+◌, ◌-◌, ◌*◌, ◌/◌, ◌%◌, ◌<◌, Bool, false, not, ◌||◌, ◌&&◌, ◌≡◌, ◌≢◌, inl, inr, refl, ap, ◌∙◌,
  arith, Bool-cases, [], ◌∷◌, ◌++◌, All, Option, none, some, if◌then◌else◌, leb, ltb, ◌==◌, Text,
  lit, cut_prefix, cut_prefix-append,
}
use financial_ai_platform.Storage.Utf8.{idle, decode, IsUtf8, bytes-IsUtf8, decode-IsUtf8}

abbrev is_letter_or_digit : ℕ → Bool
is_letter_or_digit c =
    (leb b'a' c && leb c b'z') || (leb b'A' c && leb c b'Z') || (leb b'0' c && leb c b'9')

abbrev is_one_of : ℕ → Text → Bool
is_one_of c [] = false
is_one_of c (d ∷ s) = (c == d) || is_one_of c s

-- shouldEscape of net/url, for a path.
unfoldable pub should_escape : ℕ → Bool
should_escape c = if is_letter_or_digit c then false else not (is_one_of c (lit "-_.~$&+,/:;=@"))

-- A digit of "0123456789ABCDEF".
abbrev upper_hex : ℕ → ℕ
upper_hex n = if ltb n 10 then b'0' + n else (b'A' + n) - 10

unfoldable pub escape : Text → Text
escape [] = []
escape (c ∷ s) =
    if should_escape c
    then b'%' ∷ upper_hex (c / 16) ∷ upper_hex (c % 16) ∷ escape s
    else c ∷ escape s

abbrev with_slash : Text → Text
with_slash [] = lit "/"
with_slash (c ∷ p) = if c == b'/' then c ∷ p else b'/' ∷ c ∷ p

unfoldable pub path_to_file_uri : Text → Text
unfolding escape
path_to_file_uri path = lit "file://" ++ escape (with_slash path)

-- The value of a hexadecimal digit.
unfoldable pub hex_value : ℕ → Option ℕ
hex_value c =
    if leb b'0' c && leb c b'9'
    then some (c - b'0')
    else if leb b'A' c && leb c b'F'
    then some ((c - b'A') + 10)
    else if leb b'a' c && leb c b'f'
    then some ((c - b'a') + 10)
    else none

-- The byte behind a percent sign, if two digits follow.
abbrev decoded : ℕ → ℕ → Option ℕ
decoded a b = elim (hex_value a) [
  | none ↦ none
  | some high ↦ elim (hex_value b) [ none ↦ none | some low ↦ some (16 * high + low) ]
]

abbrev percent_decoded : ℕ → ℕ → ℕ → Option ℕ
percent_decoded c a b = if c == b'%' then decoded a b else none

-- The bytes of urllib's unquote, which leaves a percent sign alone that no two digits follow.
unfoldable pub unquote_to_bytes : Text → Text
unquote_to_bytes [] = []
unquote_to_bytes (c ∷ []) = c ∷ []
unquote_to_bytes (c ∷ d ∷ []) = c ∷ d ∷ []
unquote_to_bytes (c ∷ a ∷ b ∷ s) = elim (percent_decoded c a b) [
  | none ↦ c ∷ unquote_to_bytes (a ∷ b ∷ s)
  | some byte ↦ byte ∷ unquote_to_bytes s
]

-- url2pathname on Unix: the text of the bytes, in which invalid UTF-8 is replaced.
unfoldable pub unquote : Text → Text
unfolding unquote_to_bytes decode
unquote s = decode idle (unquote_to_bytes s)

-- Behind the host of a URI.
unfoldable pub skip_host : Text → Text
skip_host [] = []
skip_host (c ∷ s) =
    let rest = skip_host s in
    if c == b'/' then c ∷ s else if (c == b'?') || (c == b'#') then c ∷ s else rest

-- Up to the query and the fragment.
unfoldable pub until_query : Text → Text
until_query [] = []
until_query (c ∷ s) =
    let rest = until_query s in if (c == b'?') || (c == b'#') then [] else c ∷ rest

path_of : Option Text → Option Text
unfolding unquote skip_host until_query
path_of none = none
path_of (some s) = some (unquote (until_query (skip_host s)))

-- The path that a URI is read at; a scheme other than file has no reader.
unfoldable pub pathname : Text → Option Text
unfolding path_of
pathname uri = path_of (cut_prefix uri (lit "file://"))

upper_hex-IsDigit : (n : ℕ) → n < 16 → (hex_value (upper_hex n) ≡ some n)
unfolding hex_value
upper_hex-IsDigit n h = ground arith

decoded-hex :
    (a b x y : ℕ)
    → hex_value a ≡ some x
    → hex_value b ≡ some y
    → percent_decoded b'%' a b ≡ some (16 * x + y)
decoded-hex a b x y e f = ground arith

decoded-upper_hex :
    (c : ℕ) → c < 256 → percent_decoded b'%' (upper_hex (c / 16)) (upper_hex (c % 16)) ≡ some c
decoded-upper_hex c h =
    let high = upper_hex-IsDigit (c / 16) (omega arith) in
    let low = upper_hex-IsDigit (c % 16) (omega arith) in
    decoded-hex (upper_hex (c / 16)) (upper_hex (c % 16)) (c / 16) (c % 16) high low
    ∙ ap some (omega arith)

unquote_kept : (c : ℕ) (s : Text) → c ≢ b'%' → unquote_to_bytes (c ∷ s) ≡ c ∷ unquote_to_bytes s
unfolding unquote_to_bytes
unquote_kept c [] h = refl
unquote_kept c (a ∷ []) h = refl
unquote_kept c (a ∷ b ∷ s) h = ground arith

kept_iff : (c : ℕ) → should_escape c ≡ false → (c ≢ b'%') × (c ≢ b'?') × (c ≢ b'#')
unfolding should_escape
kept_iff c h = ((λ e. ground arith), (λ e. ground arith), (λ e. ground arith))

unquote-escape : (s : Text) → All (λ c. c < 256) s → unquote_to_bytes (escape s) ≡ s
unfolding escape unquote_to_bytes
unquote-escape [] h = refl
unquote-escape (c ∷ s) (h, hs) = elim (Bool-cases (should_escape c)) [
  | inl escaped ↦ ground (arith, decoded-upper_hex c h, unquote-escape s hs)
  | inr kept ↦ ground (arith, (kept_iff c kept).0, unquote_kept c (escape s), unquote-escape s hs)
]

until_query-escape : (s : Text) → All (λ c. c < 256) s → until_query (escape s) ≡ escape s
unfolding escape until_query
until_query-escape [] h = refl
until_query-escape (c ∷ s) (h, hs) = elim (Bool-cases (should_escape c)) [
  | inl escaped ↦ ground (arith, until_query-escape s hs)
  | inr kept ↦ ground (arith, (kept_iff c kept).1, (kept_iff c kept).2, until_query-escape s hs)
]

-- The URI of an absolute path of UTF-8 is read at that path.
pub pathname-path_to_file_uri :
    (p : Text) → IsUtf8 (b'/' ∷ p) → pathname (path_to_file_uri (b'/' ∷ p)) ≡ some (b'/' ∷ p)
unfolding pathname path_of path_to_file_uri unquote skip_host until_query escape should_escape
pathname-path_to_file_uri p u =
    let h = (bytes-IsUtf8 (b'/' ∷ p) u).1 in
    let bytes : unquote_to_bytes (b'/' ∷ escape p) ≡ b'/' ∷ p =
      unquote_kept b'/' (escape p) (omega arith) ∙ ap (◌∷◌ b'/') (unquote-escape p h) in
    ap path_of (cut_prefix-append (lit "file://") (escape (b'/' ∷ p)))
    ∙ ap (λ r. some (unquote (b'/' ∷ r))) (until_query-escape p h)
    ∙ ap (λ (r : Text). some (decode idle r)) bytes
    ∙ ap some (decode-IsUtf8 (b'/' ∷ p) u)
