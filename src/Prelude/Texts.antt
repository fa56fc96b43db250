-- ===== src/Prelude/Texts.antt =====
-- A Go string as the list of its code points, with what the source uses of the package `strings`.
use Prim.Native.Nat.{ℕ, zero, suc, ◌+◌}
use Prim.Native.Char.{code}
use Prim.Native.String.{String}
use mathlib.Core.Path.{◌≡◌, refl}
use mathlib.Core.Logic.{◌↔◌}
use mathlib.Core.Bool.{Bool, true, false, ◌&&◌, ◌||◌}
use mathlib.Core.List.{List, [], ◌∷◌}
use mathlib.Core.Option
use mathlib.Core.Option.{Option, none, some}
use native.Mathlib.Omega.{arith}
use kraclaw.Prelude.Tests.{ltb, leb, eqb, if◌then◌else◌}

abbrev pub Text : Type 0
Text = List ℕ

-- A literal of the source.
abbrev pub codes : String → Text
codes String.[] = []
codes (String.◌∷◌ c s) = code c ∷ codes s

-- `a == b` on strings.
infix 50 ◌==◌
unfoldable pub ◌==◌ : Text → Text → Bool
[] == [] = true
[] == (b ∷ bs) = false
(a ∷ as') == [] = false
(a ∷ as') == (b ∷ bs) = eqb a b && as' == bs

pub eq_of_== : (s t : Text) → (s == t) ≡ true → s ≡ t
unfolding ◌==◌
eq_of_== [] [] h = refl
eq_of_== [] (b ∷ t) h = ground arith
eq_of_== (a ∷ s) [] h = ground arith
eq_of_== (a ∷ s) (b ∷ t) h = ground (arith, eq_of_== s t)

pub ==_refl : (s : Text) → (s == s) ≡ true
unfolding ◌==◌
==_refl [] = refl
==_refl (a ∷ s) = ground (arith, ==_refl s)

pub ==_iff : (s t : Text) → ((s == t) ≡ true) ↔ (s ≡ t)
==_iff s t = (eq_of_== s t, λ e. ground (arith, ==_refl s))

-- `strings.HasPrefix(s, p)`.
unfoldable pub has_prefix : Text → Text → Bool
has_prefix s [] = true
has_prefix [] (p ∷ ps) = false
has_prefix (c ∷ s) (p ∷ ps) = eqb c p && has_prefix s ps

-- `strings.Index(s, sub)`, counted in code points; `none` is -1.
unfoldable pub index : Text → Text → Option ℕ
index [] sub = if has_prefix [] sub then some 0 else none
index (c ∷ s) sub = if has_prefix (c ∷ s) sub then some 0 else Option.map suc (index s sub)

-- `unicode.IsSpace(r)`: the code points with the property White_Space.
unfoldable pub is_space : ℕ → Bool
is_space c =
    leb 0x9 c && leb c 0xd
    || eqb c 0x20
    || eqb c 0x85
    || eqb c 0xa0
    || eqb c 0x1680
    || leb 0x2000 c && leb c 0x200a
    || eqb c 0x2028
    || eqb c 0x2029
    || eqb c 0x202f
    || eqb c 0x205f
    || eqb c 0x3000

unfoldable pub trim_left : Text → Text
trim_left [] = []
trim_left (c ∷ s) = if is_space c then trim_left s else c ∷ s

unfoldable pub trim_right : Text → Text
trim_right [] = []
trim_right (c ∷ s) =
    let rest = trim_right s in
    elim rest [ [] ↦ (if is_space c then [] else c ∷ []) | d ∷ r ↦ c ∷ d ∷ r ]

-- `strings.TrimSpace(s)`.
unfoldable pub trim_space : Text → Text
unfolding trim_left trim_right is_space
trim_space s = trim_right (trim_left s)

-- The rest of a word in front of the words behind it; an empty one is no word.
abbrev pub add_word : Text → List Text → List Text
add_word [] ws = ws
add_word (c ∷ w) ws = (c ∷ w) ∷ ws

-- The characters up to the first white space, and the words behind them.
unfoldable pub words : Text → Text × List Text
words [] = ([], [])
words (c ∷ s) = let (w, ws) = words s in if is_space c then ([], add_word w ws) else (c ∷ w, ws)

-- `strings.Fields(s)`.
unfoldable pub fields : Text → List Text
unfolding words is_space
fields s = let (w, ws) = words s in add_word w ws

-- `strings.TrimRight(s, cut)` for a single character.
unfoldable pub trim_right_of : ℕ → Text → Text
trim_right_of cut [] = []
trim_right_of cut (c ∷ s) =
    let rest = trim_right_of cut s in
    elim rest [ [] ↦ (if eqb c cut then [] else c ∷ []) | d ∷ r ↦ c ∷ d ∷ r ]

-- `strings.Split(s, sep)` for a single character: the first part and those behind it.
abbrev pub split_first : ℕ → Text → Text × List Text
split_first sep [] = ([], [])
split_first sep (c ∷ s) =
    let (p, ps) = split_first sep s in if eqb c sep then ([], p ∷ ps) else (c ∷ p, ps)

unfoldable pub split_on : ℕ → Text → List Text
split_on sep s = let (p, ps) = split_first sep s in p ∷ ps

-- `strings.Repeat(c, n)` for a single character.
abbrev pub replicate : ℕ → ℕ → Text
replicate zero c = []
replicate (suc n) c = c ∷ replicate n c

-- The number of bytes of a code point in UTF-8, and `len(s)`.
abbrev pub rune_len : ℕ → ℕ
rune_len c = if ltb c 0x80 then 1 else if ltb c 0x800 then 2 else if ltb c 0x10000 then 3 else 4

unfoldable pub byte_len : Text → ℕ
byte_len [] = 0
byte_len (c ∷ s) = rune_len c + byte_len s
