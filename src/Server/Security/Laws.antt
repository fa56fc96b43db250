-- ===== src/Server/Security/Laws.antt =====
-- Which connections the listener lets pass (internal/server/grpc_security.go).
use kraclaw.Prelude.{true, false, List, [], ◌∷◌, ◌++◌, All, ◌≡◌, refl, ap, if_cases}
use kraclaw.Server.Security.{
  Networks, ip_allowed, Attempt, failed, non_tcp, from, Accepted, accept_error, waiting, accepted,
  accept,
}

module _ (net : Networks) (allowed : List net.Network) where
  -- A peer without a TCP address, or with one that no network has.
  abbrev pub IsRejected : Attempt net → Type 0
  IsRejected (from ip) = ip_allowed net ip allowed ≡ false
  IsRejected non_tcp = Unit
  IsRejected failed = ⊥

  -- What follows the connections that were closed.
  abbrev pub IsEnd : Accepted net → List (Attempt net) → Type 0
  IsEnd waiting rest = rest ≡ []
  IsEnd accept_error rest = (after : List (Attempt net)) × (rest ≡ failed ∷ after)
  IsEnd (accepted ip) rest =
      (after : List (Attempt net)) × (rest ≡ from ip ∷ after) × (ip_allowed net ip allowed ≡ true)

  abbrev pub Listened : List (Attempt net) → Accepted net × List (Attempt net) → Type 0
  Listened peers r =
      (rest : List (Attempt net)) × (peers ≡ r.1 ++ rest) × All IsRejected r.1 × IsEnd r.0 rest

  closes :
      (a : Attempt net) (peers : List (Attempt net)) (r : Accepted net × List (Attempt net))
      → IsRejected a
      → Listened peers r
      → Listened (a ∷ peers) (r.0, a ∷ r.1)
  closes a peers r rejected (rest, e, all, end) = (rest, ap (λ ps. a ∷ ps) e, (rejected, all), end)

  -- `Accept` closes the connections of peers up to the first with an allowed address, each of which
  -- is rejected rightly: it has no TCP address, or one that is in no network. It returns that first
  -- one, whose address is in a network, or an error that comes before it.
  pub accept-Listened : (peers : List (Attempt net)) → Listened peers (accept net allowed peers)
  unfolding accept
  accept-Listened [] = ([], refl, tt, refl)
  accept-Listened (failed ∷ peers) = (failed ∷ peers, refl, tt, (peers, refl))
  accept-Listened (non_tcp ∷ peers) =
      closes non_tcp peers (accept net allowed peers) tt (accept-Listened peers)
  accept-Listened (from ip ∷ peers) =
      let r = accept net allowed peers in
      if_cases (Listened (from ip ∷ peers)) (ip_allowed net ip allowed) (accepted ip, [])
        (r.0, from ip ∷ r.1) (λ yes. (from ip ∷ peers, refl, tt, (peers, refl, yes)))
        (λ rejected. closes (from ip) peers r rejected (accept-Listened peers))
