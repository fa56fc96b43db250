-- ===== src/Channels.antt =====
-- The registry of channels (internal/channel/registry.go). What a factory yields is a parameter, and
-- so are the errors of a connection; `sort.Strings` is an insertion sort by code points, which is
-- the order of the bytes.
pub mod Laws
mod Samples
use kraclaw.Prelude.{
  ℕ, eqb, ltb, Bool, true, false, Text, List, [], ◌∷◌, ◌++◌, map, Map, lookup, insert, Option, none,
  some, if◌then◌else◌,
}

-- `a < b` on strings.
unfoldable pub text_less : Text → Text → Bool
text_less a [] = false
text_less [] (b ∷ bs) = true
text_less (a ∷ as') (b ∷ bs) =
    let rest = text_less as' bs in if ltb a b then true else if eqb a b then rest else false

unfoldable pub insert_name : Text → List Text → List Text
insert_name n [] = n ∷ []
insert_name n (m ∷ ms) =
    let rest = insert_name n ms in if text_less m n then m ∷ rest else n ∷ m ∷ ms

unfoldable pub sort_strings : List Text → List Text
unfolding insert_name text_less
sort_strings [] = []
sort_strings (n ∷ ns) = insert_name n (sort_strings ns)

-- What a factory yields: an error, no channel, or a channel.
pub data Made (C : Type 0) : Type 0 where
  factory_failed not_configured : Made C
  made : C → Made C

-- What is done to the channels, the newest last.
pub data ChannelCall (C : Type 0) : Type 0 where
  connect disconnect : C → ChannelCall C

module _ {F : Type 0} where
  -- `Register` and `Get` are `insert` and `lookup`.
  abbrev pub register : Text → F → Map F → Map F
  register name factory r = insert name factory r

  unfoldable pub names : Map F → List Text
  unfolding sort_strings
  names r = sort_strings (map (λ (e : Text × F). e.0) r)

module _ {F C : Type 0} where
  -- A factory of the registry, on the configuration that it closes over, and whether `Connect`
  -- succeeds.
  module _ (build : F → Made C) (connects : C → Bool) where
    -- The channels to be disconnected on a failure.
    abbrev pub give_up : List C → Option (List C) × List (ChannelCall C)
    give_up channels = (none, map disconnect channels)

    abbrev pub build_named : Map F → Text → Made C
    build_named r name = elim (lookup name r) [ none ↦ factory_failed | some f ↦ build f ]

    -- The loop of `ConnectAll`, with the channels connected so far.
    unfoldable pub connect_loop :
        Map F → List C → List Text → Option (List C) × List (ChannelCall C)
    connect_loop r channels [] = (some channels, [])
    connect_loop r channels (name ∷ rest) = elim (build_named r name) [
      | factory_failed ↦ give_up channels
      | not_configured ↦ connect_loop r channels rest
      | made ch ↦
          let (result, calls) = connect_loop r (channels ++ (ch ∷ [])) rest in
          let (failure, undone) = give_up channels in
          if connects ch then (result, connect ch ∷ calls) else (failure, connect ch ∷ undone)
    ]

    unfoldable pub connect_all : Map F → Option (List C) × List (ChannelCall C)
    unfolding connect_loop
    connect_all r = connect_loop r [] (names r)
