-- ===== src/Server/Security/Samples.antt =====
-- A listener with three peers, for the example.
use kraclaw.Prelude.{ℕ, eqb, List, [], ◌∷◌, some}
use kraclaw.Server.Security.{Networks, Attempt, non_tcp, from, accept}
use kraclaw.Server.Security.Laws.{Listened, accept-Listened}

-- A network is a single address.
abbrev hosts : Networks
hosts = record { Network = ℕ; Ip = ℕ; contains = λ n i. eqb n i; parse_cidr = λ s. some 7 }

abbrev peers : List (Attempt hosts)
peers = non_tcp ∷ from 3 ∷ from 7 ∷ []

accept-Listened_example : Listened hosts (7 ∷ []) peers (accept hosts (7 ∷ []) peers)
accept-Listened_example = accept-Listened hosts (7 ∷ []) peers
