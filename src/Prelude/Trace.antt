-- ===== src/Prelude/Trace.antt =====
-- Code with effects: a state is passed along, and a call of another component is written into a
-- log, the newest first, from which that component's answer is computed. So the component is any
-- function of the calls made so far.
use mathlib.Core.List.{List, ◌∷◌}

-- A computation over a state.
abbrev pub Run : Type 0 → Type 0 → Type 0
Run S A = S → A × S

abbrev pub pure : {S A : Type 0} → A → Run S A
pure a s = (a, s)

infixl 5 ◌>>=◌ ◌>>◌
abbrev pub ◌>>=◌ : {S A B : Type 0} → Run S A → (A → Run S B) → Run S B
◌>>=◌ m k s = k (m s).0 (m s).1

abbrev pub ◌>>◌ : {S A B : Type 0} → Run S A → Run S B → Run S B
◌>>◌ m k s = k (m s).1

-- Make a call whose answer is a function of the log.
abbrev pub call : {C A : Type 0} → C → (List C → A) → Run (List C) A
call c answer log = (answer (c ∷ log), c ∷ log)
