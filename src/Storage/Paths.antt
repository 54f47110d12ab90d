-- ===== src/Storage/Paths.antt =====
-- The paths of stored objects (gateway-go/internal/storage/local.go): filepath.Join below an absolute
-- directory, on Unix.
use mathlib.Core.List.{reverse, reverse-cons, reverse-reverse, append_assoc}
use financial_ai_platform.Prelude.{
  append-nil, false, ◌||◌, ◌≡◌, ◌≢◌, inl, inr, refl, sym, ap, ◌∙◌, arith, Bool-cases, List, [], ◌∷◌,
  ◌++◌, All, if◌then◌else◌, Text, lit, text_eq, text_eq_iff, is_empty, split, split_first,
  split_last, Lacks,
}

-- An absolute path of the parts.
unfoldable pub rooted : List Text → Text
rooted [] = []
rooted (p ∷ ps) = b'/' ∷ (p ++ rooted ps)

abbrev parent : List Text → List Text
parent [] = []
parent (p ∷ ps) = ps

-- The loop of filepath.Clean on a rooted path, with the parts so far in reverse.
unfoldable pub clean_parts : List Text → List Text → List Text
clean_parts done [] = done
clean_parts done (p ∷ ps) =
    let dropped = clean_parts done ps in
    let up = clean_parts (parent done) ps in
    let kept = clean_parts (p ∷ done) ps in
    if is_empty p || text_eq p (lit ".") then dropped else if text_eq p (lit "..") then up else kept

abbrev rooted_or_slash : List Text → Text
rooted_or_slash [] = lit "/"
rooted_or_slash (p ∷ ps) = rooted (p ∷ ps)

-- filepath.Clean of a rooted path.
unfoldable pub clean : Text → Text
unfolding clean_parts rooted
clean path = rooted_or_slash (reverse (clean_parts [] (split b'/' path)))

-- filepath.Join of an absolute directory and a key.
unfoldable pub join : Text → Text → Text
unfolding clean
join dir key = clean (dir ++ (b'/' ∷ key))

-- A part of a path that stands for itself.
abbrev pub IsPlain : Text → Type 0
IsPlain p = Lacks b'/' p × (p ≢ []) × (p ≢ lit ".") × (p ≢ lit "..")

split-rooted :
    (p : Text) (ps : List Text) → All (Lacks b'/') (p ∷ ps) → split b'/' (p ++ rooted ps) ≡ p ∷ ps
unfolding rooted
split-rooted p [] h = rw (append-nil p) (split_last b'/' p h.0)
split-rooted p (q ∷ ps) h =
    split_first b'/' p (q ++ rooted ps) h.0 ∙ ap (◌∷◌ p) (split-rooted q ps h.1)

-- The parts of an absolute path determine it, and are determined by it.
split_parts : (ps : List Text) → All (Lacks b'/') ps → (ps ≢ []) → split b'/' (rooted ps) ≡ [] ∷ ps
unfolding rooted split
split_parts [] h e = absurd (e refl)
split_parts (p ∷ ps) h e = ap (◌∷◌ []) (split-rooted p ps h)

not_eq : (p q : Text) → p ≢ q → text_eq p q ≡ false
not_eq p q h = elim (Bool-cases (text_eq p q)) [
  | inl same ↦ absurd (h ((text_eq_iff p q).0 same))
  | inr other ↦ other
]

clean_part_plain :
    (done : List Text) (p : Text) (ps : List Text)
    → IsPlain p
    → clean_parts done (p ∷ ps) ≡ clean_parts (p ∷ done) ps
unfolding clean_parts
clean_part_plain done [] ps h = absurd (h.1 refl)
clean_part_plain done (c ∷ p) ps h =
    let dot = not_eq (c ∷ p) (lit ".") h.2 in
    let dots = not_eq (c ∷ p) (lit "..") h.3 in ground (arith, dot, dots)

clean_parts_plain :
    (done ps : List Text) → All IsPlain ps → clean_parts done ps ≡ reverse ps ++ done
unfolding clean_parts
clean_parts_plain done [] h = refl
clean_parts_plain done (p ∷ ps) (h, hs) =
    clean_part_plain done p ps h
    ∙ clean_parts_plain (p ∷ done) ps hs
    ∙ sym (ap (λ r. r ++ done) (reverse-cons p ps) ∙ append_assoc (reverse ps) (p ∷ []) done)

rooted-append : (ps qs : List Text) → rooted (ps ++ qs) ≡ rooted ps ++ rooted qs
unfolding rooted
rooted-append [] qs = refl
rooted-append (p ∷ ps) qs =
    ap (λ r. b'/' ∷ (p ++ r)) (rooted-append ps qs)
    ∙ ap (◌∷◌ b'/') (sym (append_assoc p (rooted ps) (rooted qs)))

All-Lacks : (ps : List Text) → All IsPlain ps → All (Lacks b'/') ps
All-Lacks [] h = tt
All-Lacks (p ∷ ps) (h, hs) = (h.0, All-Lacks ps hs)

-- A path of plain parts is clean.
clean-rooted :
    (p : Text) (ps : List Text) → All IsPlain (p ∷ ps) → clean (rooted (p ∷ ps)) ≡ rooted (p ∷ ps)
unfolding clean
clean-rooted p ps h =
    let parts = split_parts (p ∷ ps) (All-Lacks (p ∷ ps) h) (λ e. cc) in
    ap (λ r. rooted_or_slash (reverse (clean_parts [] r))) parts
    ∙ ap (λ r. rooted_or_slash (reverse r)) (clean_parts_plain [] (p ∷ ps) h ∙ append-nil _)
    ∙ ap rooted_or_slash (reverse-reverse (p ∷ ps))

All-append : (ps qs : List Text) → All IsPlain ps → All IsPlain qs → All IsPlain (ps ++ qs)
All-append [] qs h k = k
All-append (p ∷ ps) qs (h, hs) k = (h, All-append ps qs hs k)

-- The parts below a directory.
abbrev pub below : List Text → Text → Text → List Text
below dir id name = dir ++ (id ∷ name ∷ [])

-- The key of an object: the id of its document, and a file name.
abbrev pub key_of : Text → Text → Text
key_of id name = id ++ (b'/' ∷ name)

rooted-below :
    (dir : List Text) (id name : Text)
    → rooted dir ++ (b'/' ∷ key_of id name) ≡ rooted (below dir id name)
unfolding rooted
rooted-below dir id name =
    ap (λ r. rooted dir ++ (b'/' ∷ (id ++ (b'/' ∷ r)))) (sym (append-nil name))
    ∙ sym (rooted-append dir (id ∷ name ∷ []))

pub join-below :
    (d : Text) (dir : List Text) (id name : Text)
    → All IsPlain (d ∷ dir)
    → IsPlain id
    → IsPlain name
    → join (rooted (d ∷ dir)) (key_of id name) ≡ rooted (below (d ∷ dir) id name)
unfolding join
join-below d dir id name h h_id h_name =
    ap clean (rooted-below (d ∷ dir) id name)
    ∙ clean-rooted d (below dir id name)
        (All-append (d ∷ dir) (id ∷ name ∷ []) h (h_id, (h_name, tt)))

below-injective :
    (dir : List Text) (id id' name name' : Text)
    → below dir id name ≡ below dir id' name'
    → id ≡ id'
below-injective [] id id' name name' h = cc
below-injective (p ∷ dir) id id' name name' h = below-injective dir id id' name name' cc

-- Two ids below one directory have different paths.
pub rooted-below-distinct :
    (dir : List Text) (id id' name name' : Text)
    → All IsPlain dir
    → IsPlain id
    → IsPlain id'
    → IsPlain name
    → IsPlain name'
    → rooted (below dir id name) ≡ rooted (below dir id' name')
    → id ≡ id'
rooted-below-distinct dir id id' name name' h h_id h_id' h_name h_name' same =
    let parts : (i n : Text)
        → IsPlain i
        → IsPlain n
        → split b'/' (rooted (below dir i n)) ≡ [] ∷ below dir i n =
      λ i n hi hn.
        split_parts (below dir i n)
          (All-Lacks (below dir i n) (All-append dir (i ∷ n ∷ []) h (hi, (hn, tt))))
          (below_nonempty dir i n) in
    below-injective ([] ∷ dir) id id' name name'
      (sym (parts id name h_id h_name) ∙ ap (split b'/') same ∙ parts id' name' h_id' h_name')
  where
    below_nonempty : (dir : List Text) (i n : Text) → below dir i n ≢ []
    below_nonempty [] i n e = cc
    below_nonempty (p ∷ dir) i n e = cc
