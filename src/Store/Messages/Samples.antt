-- ===== src/Store/Messages/Samples.antt =====
-- Two messages of a chat, for the example.
use kraclaw.Prelude.{true, false, ◌==◌, codes, [], ◌∷◌, Elem, refl, ◌⊎◌, inl}
use kraclaw.Store.Rows.{Message}
use kraclaw.Store.Messages.{get_messages_since}
use kraclaw.Store.Messages.Latest.{IsAnswer, IsLeftOut, is_wanted, get_messages_since-IsAnswer}

abbrev early : Message
early = record {
  id = codes "m1";
  chat_jid = codes "tg:1";
  sender = codes "ann";
  sender_name = codes "Ann";
  content = codes "hi";
  timestamp = 7;
  is_from_me = false;
  is_bot_message = false;
}

abbrev late : Message
late = record early { id = codes "m2"; timestamp = 9 }

get_messages_since-IsAnswer_example :
    IsAnswer (is_wanted (λ a b. a == b) (codes "tg:1") 5) 1 (late ∷ [])
    × (Elem early (late ∷ []) ⊎ IsLeftOut 1 early (late ∷ []))
unfolding get_messages_since ◌==◌
get_messages_since-IsAnswer_example =
    get_messages_since-IsAnswer (λ a b. a == b) true (codes "tg:1") 5 1 (early ∷ late ∷ [])
      (late ∷ []) early refl (inl refl) refl
