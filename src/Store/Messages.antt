-- ===== src/Store/Messages.antt =====
-- The messages in the MySQL store (internal/store/mysql.go). A statement of SQL reads or writes the
-- list of the rows, whose key is the pair of id and chat; whether it succeeds is a parameter. The
-- order of rows with equal times, which SQL leaves open, is that of an insertion sort.
pub mod Laws
pub mod Latest
mod Samples
use kraclaw.Prelude.{
  ℕ, ltb, leb, Bool, true, false, not, ◌||◌, ◌&&◌, Text, take, any, select, List, [], ◌∷◌, ◌++◌,
  Option, none, some, if◌then◌else◌,
}
use kraclaw.Store.Rows.{Message}

-- `ORDER BY`, with the rows that stand in front of a row.
unfoldable pub insert_by : (Message → Message → Bool) → Message → List Message → List Message
insert_by before m [] = m ∷ []
insert_by before m (x ∷ xs) =
    let rest = insert_by before m xs in if before x m then x ∷ rest else m ∷ x ∷ xs

unfoldable pub order_by : (Message → Message → Bool) → List Message → List Message
unfolding insert_by
order_by before [] = []
order_by before (m ∷ ms) = insert_by before m (order_by before ms)

abbrev pub is_newer : Message → Message → Bool
is_newer a b = leb b.timestamp a.timestamp

abbrev pub is_older : Message → Message → Bool
is_older a b = leb a.timestamp b.timestamp

-- The subquery and the order around it.
unfoldable pub latest : ℕ → List Message → List Message
unfolding order_by
latest limit rows = order_by is_older (take limit (order_by is_newer rows))

-- `equal` is the comparison of texts by `=`, which goes by the collation of the tables.
module _ (equal : Text → Text → Bool) where
  -- The conditions of both queries but the one on the chat.
  abbrev pub is_visible : ℕ → Message → Bool
  is_visible since m = ltb since m.timestamp && not m.is_bot_message && not (equal m.content [])

  unfoldable pub get_messages_since : Bool → Text → ℕ → ℕ → List Message → Option (List Message)
  unfolding latest
  get_messages_since works chat_jid since limit table =
      if works
      then some (latest limit (select (λ m. equal m.chat_jid chat_jid && is_visible since m) table))
      else none

  -- Without a chat there is no query.
  unfoldable pub get_new_messages : Bool → List Text → ℕ → ℕ → List Message → Option (List Message)
  unfolding latest
  get_new_messages works [] since limit table = some []
  get_new_messages works (jid ∷ jids) since limit table =
      if works
      then some (
          latest limit
            (select (λ m. any (λ j. equal m.chat_jid j) (jid ∷ jids) && is_visible since m) table))
      else none

  abbrev pub has_key : Text → Text → Message → Bool
  has_key id chat_jid m = equal m.id id && equal m.chat_jid chat_jid

  -- `REPLACE INTO messages`.
  unfoldable pub replace_message : Message → List Message → List Message
  replace_message m table = select (λ x. not (has_key m.id m.chat_jid x)) table ++ (m ∷ [])

  -- The result of a write says whether there was no error.
  abbrev pub store_message : Bool → Message → List Message → Bool × List Message
  store_message works m table = if works then (true, replace_message m table) else (false, table)

  -- The statements of a batch, with what each of them does in its transaction.
  unfoldable pub batch_rows : (Message → Bool) → List Message → List Message → Option (List Message)
  batch_rows works [] rows = some rows
  batch_rows works (m ∷ ms) rows =
      let rest = batch_rows works ms (replace_message m rows) in if works m then rest else none

  -- `StoreBatch`: whether the transaction begins with its statement, whether each insertion and
  -- whether the commit succeeds.
  unfoldable pub store_batch :
      Bool → (Message → Bool) → Bool → List Message → List Message → Bool × List Message
  unfolding batch_rows
  store_batch begins works commits [] table = (true, table)
  store_batch begins works commits (m ∷ ms) table =
      if begins
      then elim (batch_rows works (m ∷ ms) table) [
        | none ↦ (false, table)
        | some rows ↦ if commits then (true, rows) else (false, table)
      ]
      else (false, table)

  abbrev pub delete_message : Bool → Text → Text → List Message → Bool × List Message
  delete_message works id chat_jid table =
      if works then (true, select (λ x. not (has_key id chat_jid x)) table) else (false, table)
