-- ===== src/Router/EscapeLaws.antt =====
-- The escaping of message texts (`escapeXML` of internal/router/router.go) against a single pass.
use kraclaw.Prelude.{
  ℕ, zero, suc, eqb, Text, codes, has_prefix, [], ◌∷◌, ◌++◌, if◌then◌else◌, ◌≡◌, refl, ap, ◌∙◌, ◌≢◌,
  All, All-append, arith,
}
use kraclaw.Router.Escape.{replace_all, escape_xml}

-- The reference: what stands for one character.
abbrev pub entity : ℕ → Text
entity c =
    if eqb c b'&'
    then codes "&amp;"
    else if eqb c b'<'
    then codes "&lt;"
    else if eqb c b'>'
    then codes "&gt;"
    else if eqb c b'"'
    then codes "&quot;"
    else c ∷ []

unfoldable pub encode : Text → Text
encode [] = []
encode (c ∷ s) = entity c ++ encode s

-- The reference decoder: the number counts the characters of an entity that are still to pass.
unfoldable pub decode : ℕ → Text → Text
decode n [] = []
decode zero (c ∷ s) =
    if eqb c b'&'
    then (if has_prefix s (codes "amp;")
        then b'&' ∷ decode 4 s
        else if has_prefix s (codes "lt;")
        then b'<' ∷ decode 3 s
        else if has_prefix s (codes "gt;")
        then b'>' ∷ decode 3 s
        else b'"' ∷ decode 5 s)
    else c ∷ decode zero s
decode (suc n) (c ∷ s) = decode n s

escape_xml-cons : (c : ℕ) (s : Text) → escape_xml (c ∷ s) ≡ entity c ++ escape_xml s
unfolding escape_xml replace_all
escape_xml-cons c s = ground arith

-- The four passes do what one pass does that replaces each character by its entity.
pub escape_xml-eq-encode : (s : Text) → escape_xml s ≡ encode s
unfolding encode
escape_xml-eq-encode [] = unfold escape_xml replace_all in refl
escape_xml-eq-encode (c ∷ s) =
    escape_xml-cons c s ∙ ap (λ r. entity c ++ r) (escape_xml-eq-encode s)

decode-entity : (c : ℕ) (s : Text) → decode 0 (entity c ++ s) ≡ c ∷ decode 0 s
unfolding decode has_prefix
decode-entity c s = ground arith

-- Escaping loses nothing: the reference decoder gives the text back.
pub decode-escape_xml : (s : Text) → decode 0 (escape_xml s) ≡ s
decode-escape_xml [] = unfold escape_xml replace_all decode in refl
decode-escape_xml (c ∷ s) =
    ap (decode 0) (escape_xml-cons c s)
    ∙ (decode-entity c (escape_xml s) ∙ ap (λ r. c ∷ r) (decode-escape_xml s))

-- No character that opens or closes a tag or an attribute.
abbrev pub IsInert : ℕ → Type 0
IsInert c = (c ≢ b'<') × (c ≢ b'>') × (c ≢ b'"')

entity-IsInert : (c : ℕ) → All IsInert (entity c)
entity-IsInert c = ground arith

-- An escaped text has no `<`, no `>` and no `"`.
pub escape_xml-IsInert : (s : Text) → All IsInert (escape_xml s)
escape_xml-IsInert [] = unfold escape_xml replace_all in tt
escape_xml-IsInert (c ∷ s) =
    rw (escape_xml-cons c s)
      (All-append IsInert (entity c) (escape_xml s) (entity-IsInert c) (escape_xml-IsInert s))
