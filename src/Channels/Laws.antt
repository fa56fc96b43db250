-- ===== src/Channels/Laws.antt =====
-- What is connected, and disconnected again (internal/channel/registry.go).
use kraclaw.Prelude.{
  Bool, true, false, Text, List, [], ◌∷◌, ◌++◌, append_assoc, append-nil, map, Map, Option, none,
  some, if◌then◌else◌, All, ◌≡◌, refl, sym, ◌∙◌, ap, ◌⊎◌, inl, inr, if_cases,
}
use kraclaw.Channels.{
  Made, factory_failed, not_configured, made, ChannelCall, connect, disconnect, names, build_named,
  give_up, connect_loop, connect_all,
}

module _ {F C : Type 0} (build : F → Made C) (connects : C → Bool) where
  abbrev connected : List C → List (ChannelCall C)
  connected cs = map connect cs

  -- A connection that fails, if that is what ends the loop.
  abbrev pub IsRefusal : List (ChannelCall C) → Type 0
  IsRefusal calls = (calls ≡ []) ⊎ ((ch : C) × (connects ch ≡ false) × (calls ≡ connect ch ∷ []))

  -- The calls behind a result, from the channels that are connected already on.
  abbrev pub Connected : List C → Option (List C) → List (ChannelCall C) → Type 0
  Connected before (some cs) calls =
      (new : List C) × (cs ≡ before ++ new)
      × All (λ c. connects c ≡ true) new
      × (calls ≡ map connect new)
  Connected before none calls =
      (new : List C) × (last : List (ChannelCall C)) × IsRefusal last
      × All (λ c. connects c ≡ true) new
      × (calls ≡ map connect new ++ (last ++ map disconnect (before ++ new)))

  -- One more channel in front.
  more :
      (ch : C) (before : List C) (r : Option (List C)) (calls : List (ChannelCall C))
      → connects ch ≡ true
      → Connected (before ++ (ch ∷ [])) r calls
      → Connected before r (connect ch ∷ calls)
  more ch before (some cs) calls ok (new, e, all, e') =
      (ch ∷ new, e ∙ append_assoc before (ch ∷ []) new, (ok, all), ap (λ cs'. connect ch ∷ cs') e')
  more ch before none calls ok (new, last, refusal, all, e) = (
    ch ∷ new,
    last,
    refusal,
    (ok, all),
    ap (λ cs. connect ch ∷ cs)
        (e
          ∙ ap (λ cs. map connect new ++ (last ++ map disconnect cs))
              (append_assoc before (ch ∷ []) new)),
  )

  connect_loop-Connected :
      (r : Map F) (before : List C) (ns : List Text)
      → let (result, calls) = connect_loop build connects r before ns in
        Connected before result calls
  unfolding connect_loop
  connect_loop-Connected r before [] = ([], sym (append-nil before), tt, refl)
  connect_loop-Connected r before (name ∷ rest) =
      split (λ b. connect_loop-Connected r b rest) (build_named build connects r name)
    where
      split :
          ((b : List C)
            → Connected b
                (connect_loop build connects r b rest).0
                (connect_loop build connects r b rest).1)
          → (m : Made C)
          → let (result, calls) = elim m as (λ _. Option (List C) × List (ChannelCall C)) [
            | factory_failed ↦ give_up build connects before
            | not_configured ↦ connect_loop build connects r before rest
            | made ch ↦
                let (result, calls) = connect_loop build connects r (before ++ (ch ∷ [])) rest in
                let (failure, undone) = give_up build connects before in
                if connects ch then (result, connect ch ∷ calls) else (failure, connect ch ∷ undone)
          ] in
            Connected before result calls
      split ih factory_failed =
          ([], [], inl refl, tt, ap (map disconnect) (sym (append-nil before)))
      split ih not_configured = ih before
      split ih (made ch) =
          if_cases (λ (x : Option (List C) × List (ChannelCall C)). Connected before x.0 x.1)
            (connects ch)
            (
              (connect_loop build connects r (before ++ (ch ∷ [])) rest).0,
              connect ch ∷ (connect_loop build connects r (before ++ (ch ∷ [])) rest).1,
            )
            ((give_up build connects before).0, connect ch ∷ (give_up build connects before).1)
            (λ ok. more ch before _ _ ok (ih (before ++ (ch ∷ []))))
            (λ refused. (
              [],
              connect ch ∷ [],
              inr (ch, refused, refl),
              tt,
              ap (λ cs. connect ch ∷ map disconnect cs) (sym (append-nil before)),
            ))

  -- If `ConnectAll` succeeds, it has connected exactly the channels that it returns, in their
  -- order, each with success. If it fails, then behind the successful connections of some channels
  -- and perhaps a connection that fails, it has disconnected exactly those channels, in the same
  -- order.
  pub connect_all-Connected :
      (r : Map F) → let (result, calls) = connect_all build connects r in Connected [] result calls
  unfolding connect_all
  connect_all-Connected r = connect_loop-Connected r [] (names r)
