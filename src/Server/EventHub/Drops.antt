-- ===== src/Server/EventHub/Drops.antt =====
-- Which events a slow subscriber misses (internal/server/event_hub.go).
use kraclaw.Prelude.{
  ℕ, zero, suc, ◌-◌, ◌≤◌, ◌<◌, ltb, ltb→lt, length, length-append, take, List, [], ◌∷◌, ◌++◌,
  append_assoc, append-nil, map, All, ◌≡◌, refl, sym, ◌∙◌, ap, ap₂, arith, if_cases,
}
use kraclaw.Server.EventHub.{Subscriber, EventHub, capacity, deliver, publish}

module _ {A : Type 0} where
  -- A series of publications.
  abbrev pub publish_all : List A → EventHub A → EventHub A
  publish_all [] h = h
  publish_all (e ∷ es) h = publish_all es (publish e h)

  -- A channel behind events of which it takes as many as it has room for.
  abbrev pub filled : List A → Subscriber A → Subscriber A
  filled es s = record s { buffer = s.buffer ++ take (capacity - length s.buffer) es }

  deliver-filled :
      (e : A) (es : List A) (s : Subscriber A)
      → length s.buffer ≤ capacity
      → filled es (deliver e s) ≡ filled (e ∷ es) s
  deliver-filled e es s small =
      if_cases (λ (t : Subscriber A). filled es t ≡ filled (e ∷ es) s)
        (ltb (length s.buffer) capacity) (record s { buffer = s.buffer ++ (e ∷ []) }) s
        (λ room. ap (λ b. record s { buffer = b }) (fits (ltb→lt _ _ room)))
        (λ full. ap (λ b. record s { buffer = b }) (misses (ground (arith))))
    where
      fits :
          length s.buffer < capacity
          → (s.buffer ++ (e ∷ [])) ++ take (capacity - length (s.buffer ++ (e ∷ []))) es
            ≡ s.buffer ++ take (capacity - length s.buffer) (e ∷ es)
      fits room =
          append_assoc s.buffer (e ∷ []) (take (capacity - length (s.buffer ++ (e ∷ []))) es)
          ∙ ap (λ n. s.buffer ++ (e ∷ take n es)) one_less
          ∙ ap (λ n. s.buffer ++ take n (e ∷ es)) (sym one_more)
        where
          one_less : capacity - length (s.buffer ++ (e ∷ [])) ≡ capacity - suc (length s.buffer)
          one_less = omega (arith, length-append s.buffer (e ∷ []))

          one_more : capacity - length s.buffer ≡ suc (capacity - suc (length s.buffer))
          one_more = omega (arith, room)

      misses :
          capacity ≤ length s.buffer
          → s.buffer ++ take (capacity - length s.buffer) es
            ≡ s.buffer ++ take (capacity - length s.buffer) (e ∷ es)
      misses full =
          ap (λ n. s.buffer ++ take n es) none_left
          ∙ ap (λ n. s.buffer ++ take n (e ∷ es)) (sym none_left)
        where
          none_left : capacity - length s.buffer ≡ 0
          none_left = omega (arith, full)

  deliver-small :
      (e : A) (s : Subscriber A)
      → length s.buffer ≤ capacity
      → length (deliver e s).buffer ≤ capacity
  deliver-small e s small =
      if_cases (λ (t : Subscriber A). length t.buffer ≤ capacity) (ltb (length s.buffer) capacity)
        (record s { buffer = s.buffer ++ (e ∷ []) }) s
        (λ room. ground (arith, length-append s.buffer (e ∷ []))) (λ _. small)

  map-small :
      (e : A) (ss : List (Subscriber A))
      → All (λ (s : Subscriber A). length s.buffer ≤ capacity) ss
      → All (λ (s : Subscriber A). length s.buffer ≤ capacity) (map (deliver e) ss)
  map-small e [] h = tt
  map-small e (s ∷ ss) (h, hs) = (deliver-small e s h, map-small e ss hs)

  map-filled :
      (e : A) (es : List A) (ss : List (Subscriber A))
      → All (λ (s : Subscriber A). length s.buffer ≤ capacity) ss
      → map (filled es) (map (deliver e) ss) ≡ map (filled (e ∷ es)) ss
  map-filled e es [] h = refl
  map-filled e es (s ∷ ss) (h, hs) = ap₂ ◌∷◌ (deliver-filled e es s h) (map-filled e es ss hs)

  take_none : (n : ℕ) → take {A = A} n [] ≡ []
  take_none zero = refl
  take_none (suc n) = refl

  map-filled_none : (ss : List (Subscriber A)) → map (filled []) ss ≡ ss
  map-filled_none [] = refl
  map-filled_none (s ∷ ss) =
      ap₂ ◌∷◌
        (ap (λ es. record s { buffer = es })
          (ap (λ es. s.buffer ++ es) (take_none (capacity - length s.buffer))
            ∙ append-nil s.buffer))
        (map-filled_none ss)

  -- Where no channel holds more than its capacity and none is read in between, a series of
  -- publications puts behind each channel the first events of the series, in their order, as many
  -- as the channel has room for, whatever the other channels hold.
  pub publish_all-filled :
      (es : List A) (h : EventHub A)
      → All (λ (s : Subscriber A). length s.buffer ≤ capacity) h.subs
      → publish_all es h ≡ record h { subs = map (filled es) h.subs }
  unfolding publish
  publish_all-filled [] h small = ap (λ ss. record h { subs = ss }) (sym (map-filled_none h.subs))
  publish_all-filled (e ∷ es) h small =
      publish_all-filled es (publish e h) (map-small e h.subs small)
      ∙ ap (λ ss. record h { subs = ss }) (map-filled e es h.subs small)
