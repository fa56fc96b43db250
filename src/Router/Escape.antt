-- ===== src/Router/Escape.antt =====
-- `escapeXML` of internal/router/router.go.
use kraclaw.Prelude.{ℕ, eqb, Text, codes, [], ◌∷◌, ◌++◌, if◌then◌else◌}

-- `strings.ReplaceAll(s, old, new)` for an `old` of one character.
unfoldable pub replace_all : Text → ℕ → Text → Text
replace_all [] old new = []
replace_all (c ∷ s) old new =
    let rest = replace_all s old new in if eqb c old then new ++ rest else c ∷ rest

unfoldable pub escape_xml : Text → Text
escape_xml s =
    let s1 = replace_all s b'&' (codes "&amp;") in
    let s2 = replace_all s1 b'<' (codes "&lt;") in
    let s3 = replace_all s2 b'>' (codes "&gt;") in replace_all s3 b'"' (codes "&quot;")
