-- ===== src/Server/EventHub/Laws.antt =====
-- What the hub keeps and passes on (internal/server/event_hub.go).
use kraclaw.Prelude.{
  ℕ, suc, ◌+◌, ◌%◌, ◌^◌, ◌<◌, ap, ◌≤◌, eqb, eqb_iff, ltb, length, length-append, List, [], ◌∷◌,
  ◌++◌, map, All, ◌≡◌, ◌≢◌, refl, sym, ◌∙◌, subst, arith, if_cases,
}
use kraclaw.Server.EventHub.{
  Subscriber, EventHub, capacity, deliver, publish, put, subscribe, delete, unsubscribe, take_event,
  Step, publishes, unsubscribes, receives, Reachable, at_start, then_subscribe, then_step,
}

module _ {A : Type 0} where
  -- No channel holds more than its capacity, and no two have the same id.
  abbrev pub AreFine : List (Subscriber A) → Type 0
  AreFine [] = Unit
  AreFine (s ∷ ss) =
      (length s.buffer ≤ capacity) × All (λ (t : Subscriber A). t.id ≢ s.id) ss × AreFine ss

  -- A change of single channels.
  abbrev IsLocal : (Subscriber A → Subscriber A) → Type 0
  IsLocal f =
      (s : Subscriber A)
      → ((f s).id ≡ s.id) × (length s.buffer ≤ capacity → length (f s).buffer ≤ capacity)

  deliver-IsLocal : (evt : A) → IsLocal (deliver evt)
  deliver-IsLocal evt s =
      if_cases
        (λ (t : Subscriber A).
          (t.id ≡ s.id) × (length s.buffer ≤ capacity → length t.buffer ≤ capacity))
        (ltb (length s.buffer) capacity) (record s { buffer = s.buffer ++ (evt ∷ []) }) s
        (λ room. (refl, λ _. ground (arith, length-append s.buffer (evt ∷ []))))
        (λ _. (refl, λ h. h))

  tail_le :
      (es : List A)
      → length es ≤ capacity
      → length (elim es as (λ _. List A) [ [] ↦ [] | e ∷ rest ↦ rest ]) ≤ capacity
  tail_le [] h = h
  tail_le (e ∷ es) h = omega arith

  take_event-IsLocal : (i : ℕ) → IsLocal (take_event i)
  take_event-IsLocal i s =
      if_cases
        (λ (t : Subscriber A).
          (t.id ≡ s.id) × (length s.buffer ≤ capacity → length t.buffer ≤ capacity))
        (eqb s.id i) _ s (λ _. (refl, tail_le s.buffer)) (λ _. (refl, λ h. h))

  map-others :
      (f : Subscriber A → Subscriber A) (i : ℕ) (ss : List (Subscriber A))
      → IsLocal f
      → All (λ (t : Subscriber A). t.id ≢ i) ss
      → All (λ (t : Subscriber A). t.id ≢ i) (map f ss)
  map-others f i [] loc h = tt
  map-others f i (s ∷ ss) loc (h, hs) = (λ e. h (sym (loc s).0 ∙ e), map-others f i ss loc hs)

  map-AreFine :
      (f : Subscriber A → Subscriber A) (ss : List (Subscriber A))
      → IsLocal f
      → AreFine ss
      → AreFine (map f ss)
  map-AreFine f [] loc h = tt
  map-AreFine f (s ∷ ss) loc (small, others, fine) = (
    (loc s).1 small,
    subst (λ (i : ℕ). All (λ (t : Subscriber A). t.id ≢ i) (map f ss)) (sym (loc s).0)
        (map-others f s.id ss loc others),
    map-AreFine f ss loc fine,
  )

  delete-others :
      (j i : ℕ) (ss : List (Subscriber A))
      → All (λ (t : Subscriber A). t.id ≢ i) ss
      → All (λ (t : Subscriber A). t.id ≢ i) (delete j ss)
  delete-others j i [] h = tt
  delete-others j i (t ∷ ts) (h, hs) =
      if_cases (All (λ (u : Subscriber A). u.id ≢ i)) (eqb t.id j) (delete j ts) (t ∷ delete j ts)
        (λ _. delete-others j i ts hs) (λ _. (h, delete-others j i ts hs))

  delete-AreFine : (j : ℕ) (ss : List (Subscriber A)) → AreFine ss → AreFine (delete j ss)
  delete-AreFine j [] h = tt
  delete-AreFine j (t ∷ ts) (small, others, fine) =
      if_cases AreFine (eqb t.id j) (delete j ts) (t ∷ delete j ts) (λ _. delete-AreFine j ts fine)
        (λ _. (small, delete-others j t.id ts others, delete-AreFine j ts fine))

  -- All ids have been given out.
  abbrev pub AreOld : ℕ → List (Subscriber A) → Type 0
  AreOld n = All (λ (s : Subscriber A). s.id < n)

  map-AreOld :
      (f : Subscriber A → Subscriber A) (n : ℕ) (ss : List (Subscriber A))
      → IsLocal f
      → AreOld n ss
      → AreOld n (map f ss)
  map-AreOld f n [] loc h = tt
  map-AreOld f n (s ∷ ss) loc (h, hs) =
      (subst (λ i. i < n) (sym (loc s).0) h, map-AreOld f n ss loc hs)

  delete-AreOld : (j n : ℕ) (ss : List (Subscriber A)) → AreOld n ss → AreOld n (delete j ss)
  delete-AreOld j n [] h = tt
  delete-AreOld j n (s ∷ ss) (h, hs) =
      if_cases (AreOld n) (eqb s.id j) (delete j ss) (s ∷ delete j ss)
        (λ _. delete-AreOld j n ss hs) (λ _. (h, delete-AreOld j n ss hs))

  -- A new channel stands behind those that are there, which are as they were.
  put_new :
      (s : Subscriber A) (ss : List (Subscriber A)) → AreOld s.id ss → put s ss ≡ ss ++ (s ∷ [])
  put_new s [] h = refl
  put_new s (t ∷ ts) (h, hs) =
      if_cases (λ us. us ≡ t ∷ (ts ++ (s ∷ []))) (eqb t.id s.id) (s ∷ ts) (t ∷ put s ts)
        (λ same. ground (arith, h, eqb_iff t.id s.id)) (λ _. ap (λ us. t ∷ us) (put_new s ts hs))

  others-append :
      (s : Subscriber A) (i : ℕ) (ss : List (Subscriber A))
      → s.id ≢ i
      → All (λ (t : Subscriber A). t.id ≢ i) ss
      → All (λ (t : Subscriber A). t.id ≢ i) (ss ++ (s ∷ []))
  others-append s i [] new h = (new, tt)
  others-append s i (t ∷ ts) new (h, hs) = (h, others-append s i ts new hs)

  AreFine-append :
      (s : Subscriber A) (ss : List (Subscriber A))
      → length s.buffer ≤ capacity
      → AreOld s.id ss
      → AreFine ss
      → AreFine (ss ++ (s ∷ []))
  AreFine-append s [] small old fine = (small, tt, tt)
  AreFine-append s (t ∷ ts) small (h, hs) (small', others, fine) =
      (small', others-append s t.id ts (omega (arith, h)) others, AreFine-append s ts small hs fine)

  AreOld-append :
      (s : Subscriber A) (n : ℕ) (ss : List (Subscriber A))
      → s.id ≡ n
      → AreOld n ss
      → AreOld (suc n) (ss ++ (s ∷ []))
  AreOld-append s n [] e h = (omega (arith, e), tt)
  AreOld-append s n (t ∷ ts) e (h, hs) = (omega (arith, h), AreOld-append s n ts e hs)

  -- A hub behind n subscriptions: the counter stands at n, all ids lie below, no two are the same,
  -- and no channel holds more than its capacity.
  abbrev pub IsSound : ℕ → EventHub A → Type 0
  IsSound n h = (h.next_id ≡ n) × AreOld n h.subs × AreFine h.subs

  abbrev fresh : ℕ → Subscriber A
  fresh n = record { id = n; buffer = [] }

  -- A subscription gets the id n, and its channel is a new one behind the others.
  abbrev pub IsFresh : ℕ → EventHub A → Type 0
  IsFresh n h =
      ((subscribe h).0 ≡ n)
      × ((subscribe h).1.subs ≡ h.subs ++ (record { id = n; buffer = [] } ∷ []))

  subscribe-IsFresh : (n : ℕ) (h : EventHub A) → IsSound n h → IsFresh n h
  unfolding subscribe
  subscribe-IsFresh n h (e, old, fine) = (
    e,
    subst (λ i. put (fresh i) h.subs ≡ h.subs ++ (fresh n ∷ [])) (sym e)
        (put_new (fresh n) h.subs old),
  )

  subscribe-IsSound :
      (n : ℕ) (h : EventHub A) → suc n < 2 ^ 64 → IsSound n h → IsSound (suc n) (subscribe h).1
  unfolding subscribe
  subscribe-IsSound n h small (e, old, fine) =
      let new = (subscribe-IsFresh n h (e, old, fine)).1 in
      (
        next,
        subst (AreOld (suc n)) (sym new) (AreOld-append (fresh n) n h.subs refl old),
        subst AreFine (sym new) (AreFine-append (fresh n) h.subs (omega arith) old fine),
      )
    where
      next : (h.next_id + 1) % 2 ^ 64 ≡ suc n
      next = rw e (omega (arith, small))

  Step-IsSound : {h h' : EventHub A} (n : ℕ) → Step h h' → IsSound n h → IsSound n h'
  unfolding publish unsubscribe
  Step-IsSound n (publishes evt h) (e, old, fine) = (
    e,
    map-AreOld (deliver evt) n h.subs (deliver-IsLocal evt) old,
    map-AreFine (deliver evt) h.subs (deliver-IsLocal evt) fine,
  )
  Step-IsSound n (unsubscribes i h) (e, old, fine) =
      (e, delete-AreOld i n h.subs old, delete-AreFine i h.subs fine)
  Step-IsSound n (receives i h) (e, old, fine) = (
    e,
    map-AreOld (take_event i) n h.subs (take_event-IsLocal i) old,
    map-AreFine (take_event i) h.subs (take_event-IsLocal i) fine,
  )

  Reachable-IsSound : (n : ℕ) (h : EventHub A) → Reachable n h → n < 2 ^ 64 → IsSound n h
  Reachable-IsSound n h at_start small = (refl, tt, tt)
  Reachable-IsSound n h (then_subscribe m g r) small =
      subscribe-IsSound m g small (Reachable-IsSound m g r (omega (arith, small)))
  Reachable-IsSound n h (then_step m g g' r s) small =
      Step-IsSound m s (Reachable-IsSound m g r small)

  -- In every state that a new hub reaches with n subscriptions, fewer than 2^64, and any
  -- publications, ends of subscriptions and receptions: no channel holds more than 64 events, no
  -- two have the same id, and the next subscription gets the id n, with an empty channel of its
  -- own next to those that are there.
  pub Reachable-AreFine :
      (n : ℕ) (h : EventHub A) → Reachable n h → n < 2 ^ 64 → AreFine h.subs × IsFresh n h
  Reachable-AreFine n h r small =
      let (e, old, fine) = Reachable-IsSound n h r small in
      (fine, subscribe-IsFresh n h (e, old, fine))
