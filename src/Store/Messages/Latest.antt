-- ===== src/Store/Messages/Latest.antt =====
-- The query for the messages of a chat (internal/store/mysql.go).
use kraclaw.Prelude.{
  ℕ, zero, suc, ◌≤◌, Bool, true, false, ◌&&◌, Text, length, take, select, Elem, List, [], ◌∷◌, some,
  All, ◌≡◌, refl, sym, ◌∙◌, ap, subst, arith, ◌⊎◌, inl, inr, if_cases,
}
use mathlib.Core.Bool.{true≢false}
use kraclaw.Store.Rows.{Message}
use kraclaw.Store.Messages.{order_by, is_newer, is_older, is_visible, latest, get_messages_since}
use kraclaw.Store.Messages.Laws.{
  IsOrdered, Decides, order_by-All, order_by-IsOrdered, Elem-order_by, length-order_by,
}

abbrev pub NoLater : Message → Message → Type 0
NoLater a b = a.timestamp ≤ b.timestamp

abbrev NoSooner : Message → Message → Type 0
NoSooner a b = b.timestamp ≤ a.timestamp

older_decides : Decides is_older NoLater
older_decides = (λ a b h. ground (arith), λ a b h. ground (arith), λ a b c h k. omega (arith, h, k))

newer_decides : Decides is_newer NoSooner
newer_decides = (λ a b h. ground (arith), λ a b h. ground (arith), λ a b c h k. omega (arith, h, k))

select-All : (p : Message → Bool) (ms : List Message) → All (λ m. p m ≡ true) (select p ms)
select-All p [] = tt
select-All p (m ∷ ms) =
    if_cases (All (λ x. p x ≡ true)) (p m) (m ∷ select p ms) (select p ms)
      (λ h. (h, select-All p ms)) (λ _. select-All p ms)

Elem-select :
    (p : Message → Bool) (a : Message) (ms : List Message)
    → Elem a ms
    → p a ≡ true
    → Elem a (select p ms)
Elem-select p a [] k h = absurd k
Elem-select p a (m ∷ ms) (inl e) h =
    if_cases (Elem a) (p m) (m ∷ select p ms) (select p ms) (λ _. inl e)
      (λ rejected. absurd (true≢false (sym h ∙ (ap p (sym e) ∙ rejected))))
Elem-select p a (m ∷ ms) (inr k) h =
    if_cases (Elem a) (p m) (m ∷ select p ms) (select p ms) (λ _. inr (Elem-select p a ms k h))
      (λ _. Elem-select p a ms k h)

take-All : (P : Message → Type 0) (n : ℕ) (ms : List Message) → All P ms → All P (take n ms)
take-All P zero ms h = tt
take-All P (suc n) [] h = tt
take-All P (suc n) (m ∷ ms) (h, hs) = (h, take-All P n ms hs)

length-take_le : (n : ℕ) (ms : List Message) → length (take n ms) ≤ n
length-take_le zero ms = omega arith
length-take_le (suc n) [] = omega arith
length-take_le (suc n) (m ∷ ms) = omega (arith, length-take_le n ms)

-- A row that is not taken of rows with the newest first is no newer than those that are, which are
-- as many as asked for.
abbrev pub IsLeftOut : ℕ → Message → List Message → Type 0
IsLeftOut limit m ms = All (NoLater m) ms × (length ms ≡ limit)

NoSooner-NoLater :
    (m a : Message) (ms : List Message) → Elem a ms → All (NoSooner m) ms → NoLater a m
NoSooner-NoLater m a [] k h = absurd k
NoSooner-NoLater m a (x ∷ xs) (inl e) (h, hs) = subst (λ y. NoLater y m) e h
NoSooner-NoLater m a (x ∷ xs) (inr k) (h, hs) = NoSooner-NoLater m a xs k hs

take-IsLeftOut :
    (n : ℕ) (a : Message) (ms : List Message)
    → IsOrdered NoSooner ms
    → Elem a ms
    → Elem a (take n ms) ⊎ IsLeftOut n a (take n ms)
take-IsLeftOut zero a ms ordered h = inr (tt, refl)
take-IsLeftOut (suc n) a [] ordered h = absurd h
take-IsLeftOut (suc n) a (m ∷ ms) (first, rest) (inl e) = inl (inl e)
take-IsLeftOut (suc n) a (m ∷ ms) (first, rest) (inr k) = split (take-IsLeftOut n a ms rest k)
  where
    split :
        Elem a (take n ms) ⊎ IsLeftOut n a (take n ms)
        → ((m ≡ a) ⊎ Elem a (take n ms)) ⊎ IsLeftOut (suc n) a (m ∷ take n ms)
    split (inl h) = inl (inr h)
    split (inr (all, full)) = inr ((NoSooner-NoLater m a ms k first, all), ap suc full)

-- Rows that pass a test, in the order of their times, and no more than asked for.
abbrev pub IsAnswer : (Message → Bool) → ℕ → List Message → Type 0
IsAnswer p limit ms = All (λ m. p m ≡ true) ms × IsOrdered NoLater ms × (length ms ≤ limit)

latest-IsAnswer :
    (p : Message → Bool) (limit : ℕ) (table : List Message) (m : Message)
    → Elem m table
    → p m ≡ true
    → let ms = latest limit (select p table) in
      IsAnswer p limit ms × (Elem m ms ⊎ IsLeftOut limit m ms)
unfolding latest
latest-IsAnswer p limit table m stored fits = (
  (
    order_by-All (λ x. p x ≡ true) is_older taken
        (take-All (λ x. p x ≡ true) limit newest
          (order_by-All (λ x. p x ≡ true) is_newer (select p table) (select-All p table))),
    order_by-IsOrdered is_older NoLater older_decides taken,
    subst (λ n. n ≤ limit) (sym (length-order_by is_older taken)) (length-take_le limit newest),
  ),
  split (
      take-IsLeftOut limit m newest
        (order_by-IsOrdered is_newer NoSooner newer_decides (select p table))
        (Elem-order_by is_newer m (select p table) (Elem-select p m table stored fits))),
)
  where
    newest : List Message
    newest = order_by is_newer (select p table)

    taken : List Message
    taken = take limit newest

    split :
        Elem m taken ⊎ IsLeftOut limit m taken
        → Elem m (order_by is_older taken) ⊎ IsLeftOut limit m (order_by is_older taken)
    split (inl h) = inl (Elem-order_by is_older m taken h)
    split (inr (all, full)) =
        inr (order_by-All (NoLater m) is_older taken all, length-order_by is_older taken ∙ full)

module _ (equal : Text → Text → Bool) where
  -- What the query asks of a row.
  abbrev pub is_wanted : Text → ℕ → Message → Bool
  is_wanted chat_jid since m = equal m.chat_jid chat_jid && is_visible equal since m

  -- Where the query succeeds and the table has a message of the chat that is later than the given
  -- time, not empty and not from the bot, by the tables' comparison of texts: the answer has only
  -- such messages, in the order of their times, and at most as many as asked for; and that message
  -- is in the answer, or the answer has as many messages as asked for, none of which is earlier than
  -- it.
  pub get_messages_since-IsAnswer :
      (works : Bool) (chat_jid : Text) (since limit : ℕ) (table ms : List Message) (m : Message)
      → get_messages_since equal works chat_jid since limit table ≡ some ms
      → Elem m table
      → is_wanted chat_jid since m ≡ true
      → IsAnswer (is_wanted chat_jid since) limit ms × (Elem m ms ⊎ IsLeftOut limit m ms)
  unfolding get_messages_since
  get_messages_since-IsAnswer true chat_jid since limit table ms m e stored fits =
      subst
        (λ (xs : List Message).
          IsAnswer (is_wanted chat_jid since) limit xs × (Elem m xs ⊎ IsLeftOut limit m xs))
        (inner e) (latest-IsAnswer (is_wanted chat_jid since) limit table m stored fits)
    where
      inner : {x y : List Message} → some x ≡ some y → x ≡ y
      inner h = cc
  get_messages_since-IsAnswer false chat_jid since limit table ms m e stored fits = cc
