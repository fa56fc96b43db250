-- ===== src/Server/Security.antt =====
-- Who may connect to the gRPC server (internal/server/grpc_security.go). Networks, addresses and
-- `net.ParseCIDR` are parameters; a listener is the list of what its `Accept` yields.
pub mod Laws
mod Samples
use kraclaw.Prelude.{
  Bool, true, false, ◌||◌, Text, ◌==◌, split_on, trim_space, any, List, [], ◌∷◌, Option, none, some,
  if◌then◌else◌,
}

-- `net.IPNet` and `net.IP`, with `Contains`.
pub record Networks : Type 1 where
  pub Network : Type 0
  pub Ip : Type 0
  pub contains : Network → Ip → Bool
  pub parse_cidr : Text → Option Network

module _ (net : Networks) where
  -- The loop of `parseAllowedCIDRs`.
  abbrev with_network : Option net.Network → Option (List net.Network) → Option (List net.Network)
  with_network none rest = none
  with_network (some n) none = none
  with_network (some n) (some ns) = some (n ∷ ns)

  unfoldable pub parse_parts : List Text → Option (List net.Network)
  parse_parts [] = some []
  parse_parts (part ∷ parts) =
      let rest = parse_parts parts in
      if trim_space part == [] then rest else with_network (net.parse_cidr (trim_space part)) rest

  -- No network is an error too.
  abbrev pub some_network : Option (List net.Network) → Option (List net.Network)
  some_network none = none
  some_network (some []) = none
  some_network (some (n ∷ ns)) = some (n ∷ ns)

  unfoldable pub parse_allowed_cidrs : Text → Option (List net.Network)
  unfolding parse_parts
  parse_allowed_cidrs raw = some_network (parse_parts (split_on b',' raw))

  unfoldable pub ip_allowed : net.Ip → List net.Network → Bool
  ip_allowed ip nets = any (λ n. net.contains n ip) nets

  -- What `Accept` of the listener yields: an error, a connection whose peer is no TCP address, or
  -- one from an address.
  pub data Attempt : Type 0 where
    failed non_tcp : Attempt
    from : net.Ip → Attempt

  -- What `Accept` returns: an error, a connection, or nothing as long as no more peers come.
  pub data Accepted : Type 0 where
    accept_error waiting : Accepted
    accepted : net.Ip → Accepted

  -- With the connections that are closed on the way, in their order.
  unfoldable pub accept : List net.Network → List Attempt → Accepted × List Attempt
  unfolding ip_allowed
  accept allowed [] = (waiting, [])
  accept allowed (failed ∷ rest) = (accept_error, [])
  accept allowed (non_tcp ∷ rest) = let (r, closed) = accept allowed rest in (r, non_tcp ∷ closed)
  accept allowed (from ip ∷ rest) =
      let (r, closed) = accept allowed rest in
      if ip_allowed ip allowed then (accepted ip, []) else (r, from ip ∷ closed)
