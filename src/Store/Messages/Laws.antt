-- ===== src/Store/Messages/Laws.antt =====
-- Which messages the queries return (internal/store/mysql.go).
use kraclaw.Prelude.{
  suc, Bool, true, false, length, Elem, List, [], ◌∷◌, All, ◌≡◌, refl, ◌∙◌, ap, ◌⊎◌, inl, inr,
  if_cases,
}
use kraclaw.Store.Rows.{Message}
use kraclaw.Store.Messages.{insert_by, order_by}

insert_by-All :
    (P : Message → Type 0) (before : Message → Message → Bool) (m : Message) (ms : List Message)
    → P m
    → All P ms
    → All P (insert_by before m ms)
unfolding insert_by
insert_by-All P before m [] h hs = (h, tt)
insert_by-All P before m (x ∷ xs) h (hx, hs) =
    if_cases (All P) (before x m) (x ∷ insert_by before m xs) (m ∷ x ∷ xs)
      (λ _. (hx, insert_by-All P before m xs h hs)) (λ _. (h, (hx, hs)))

pub order_by-All :
    (P : Message → Type 0) (before : Message → Message → Bool) (ms : List Message)
    → All P ms
    → All P (order_by before ms)
unfolding order_by
order_by-All P before [] h = tt
order_by-All P before (m ∷ ms) (h, hs) =
    insert_by-All P before m (order_by before ms) h (order_by-All P before ms hs)

-- Every row stands in front of the later ones.
abbrev pub IsOrdered : (Message → Message → Type 0) → List Message → Type 0
IsOrdered R [] = Unit
IsOrdered R (m ∷ ms) = All (R m) ms × IsOrdered R ms

-- The test of the sort decides the relation, which is transitive.
abbrev pub Decides : (Message → Message → Bool) → (Message → Message → Type 0) → Type 0
Decides before R =
    ((a b : Message) → before a b ≡ true → R a b)
    × ((a b : Message) → before a b ≡ false → R b a)
    × ((a b c : Message) → R a b → R b c → R a c)

module _ (before : Message → Message → Bool) (R : Message → Message → Type 0)
    (dec : Decides before R) where
  weaken-All : (a b : Message) (ms : List Message) → R a b → All (R b) ms → All (R a) ms
  weaken-All a b [] h hs = tt
  weaken-All a b (m ∷ ms) h (k, ks) = (dec.2 a b m h k, weaken-All a b ms h ks)

  insert_by-IsOrdered :
      (m : Message) (ms : List Message) → IsOrdered R ms → IsOrdered R (insert_by before m ms)
  unfolding insert_by
  insert_by-IsOrdered m [] h = (tt, tt)
  insert_by-IsOrdered m (x ∷ xs) (first, rest) =
      if_cases (IsOrdered R) (before x m) (x ∷ insert_by before m xs) (m ∷ x ∷ xs)
        (λ yes'.
          (insert_by-All (R x) before m xs (dec.0 x m yes') first, insert_by-IsOrdered m xs rest))
        (λ no'. ((dec.1 x m no', weaken-All m x xs (dec.1 x m no') first), (first, rest)))

  pub order_by-IsOrdered : (ms : List Message) → IsOrdered R (order_by before ms)
  unfolding order_by
  order_by-IsOrdered [] = tt
  order_by-IsOrdered (m ∷ ms) = insert_by-IsOrdered m (order_by before ms) (order_by-IsOrdered ms)

module _ (before : Message → Message → Bool) where
  Elem-insert_by :
      (a m : Message) (ms : List Message) → (m ≡ a) ⊎ Elem a ms → Elem a (insert_by before m ms)
  unfolding insert_by
  Elem-insert_by a m [] h = h
  Elem-insert_by a m (x ∷ xs) h =
      if_cases (Elem a) (before x m) (x ∷ insert_by before m xs) (m ∷ x ∷ xs)
        (λ _. behind (Elem-insert_by a m xs) h) (λ _. h)
    where
      behind :
          ((m ≡ a) ⊎ Elem a xs → Elem a (insert_by before m xs))
          → (m ≡ a) ⊎ ((x ≡ a) ⊎ Elem a xs)
          → (x ≡ a) ⊎ Elem a (insert_by before m xs)
      behind inner (inl e) = inr (inner (inl e))
      behind inner (inr (inl e)) = inl e
      behind inner (inr (inr k)) = inr (inner (inr k))

  pub Elem-order_by : (a : Message) (ms : List Message) → Elem a ms → Elem a (order_by before ms)
  unfolding order_by
  Elem-order_by a [] h = h
  Elem-order_by a (m ∷ ms) (inl e) = Elem-insert_by a m (order_by before ms) (inl e)
  Elem-order_by a (m ∷ ms) (inr h) =
      Elem-insert_by a m (order_by before ms) (inr (Elem-order_by a ms h))

  length-insert_by :
      (m : Message) (ms : List Message) → length (insert_by before m ms) ≡ suc (length ms)
  unfolding insert_by
  length-insert_by m [] = refl
  length-insert_by m (x ∷ xs) =
      if_cases (λ (l : List Message). length l ≡ suc (suc (length xs))) (before x m)
        (x ∷ insert_by before m xs) (m ∷ x ∷ xs) (λ _. ap suc (length-insert_by m xs)) (λ _. refl)

  pub length-order_by : (ms : List Message) → length (order_by before ms) ≡ length ms
  unfolding order_by
  length-order_by [] = refl
  length-order_by (m ∷ ms) = length-insert_by m (order_by before ms) ∙ ap suc (length-order_by ms)
