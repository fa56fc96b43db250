-- ===== src/Channels/Samples.antt =====
-- A registry with a channel that does not connect, for the example.
use kraclaw.Prelude.{Bool, ◌==◌, Text, codes, [], ◌∷◌, Map}
use kraclaw.Channels.{Made, made, connect_all}
use kraclaw.Channels.Laws.{Connected, connect_all-Connected}

abbrev registry : Map Text
registry = (codes "tui", codes "t") ∷ (codes "discord", codes "d") ∷ []

abbrev build : Text → Made Text
build f = made f

abbrev connects : Text → Bool
connects c = c == codes "d"

connect_all-Connected_example :
    let (result, calls) = connect_all build connects registry in
    Connected build connects [] result calls
connect_all-Connected_example = connect_all-Connected build connects registry
