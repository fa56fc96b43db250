-- ===== src/Router/StripLaws.antt =====
-- What `stripInternalTags` (internal/router/router.go) removes.
pub mod Endless
use kraclaw.Prelude.{
  ℕ, zero, suc, ◌+◌, ◌<◌, Text, codes, has_prefix, index, trim_space, take, drop, length, none,
  some, List, [], ◌∷◌, ◌++◌, append_assoc, ◌≡◌, refl, ap, sym, ◌∙◌, ◌≢◌, All, All-append,
  append-nil, ap₂, arith, length-append, take-length-append, drop-length-append,
}
use kraclaw.Router.Strip.{open_tag, close_tag, strip_round, strip_loop}

-- A text with no `<`.
abbrev pub NoTag : Text → Type 0
NoTag s = All (λ c. c ≢ b'<') s

-- A tag cannot begin in a part without `<`.
index-append :
    (p x tag : Text) (i : ℕ)
    → NoTag p
    → index x (b'<' ∷ tag) ≡ some i
    → index (p ++ x) (b'<' ∷ tag) ≡ some (length p + i)
unfolding index has_prefix
index-append [] x tag i h e = ground arith
index-append (c ∷ p) x tag i h e = ground (arith, index-append p x tag i h.1 e)

index-append_none :
    (p x tag : Text) → NoTag p → index x (b'<' ∷ tag) ≡ none → index (p ++ x) (b'<' ∷ tag) ≡ none
unfolding index has_prefix
index-append_none [] x tag h e = e
index-append_none (c ∷ p) x tag h e = ground (arith, index-append_none p x tag h.1 e)

-- A text in which every opening tag is closed before the next one opens: the visible parts, each
-- with the hidden part behind it, and the visible end.
pub data Tagged : Type 0 where
  end : Text → Tagged
  hide : Text → Text → Tagged → Tagged

abbrev pub IsTagFree : Tagged → Type 0
IsTagFree (end s) = NoTag s
IsTagFree (hide s hidden rest) = NoTag s × NoTag hidden × IsTagFree rest

abbrev pub render : Tagged → Text
render (end s) = s
render (hide s hidden rest) = s ++ (open_tag ++ (hidden ++ (close_tag ++ render rest)))

abbrev pub visible : Tagged → Text
visible (end s) = s
visible (hide s hidden rest) = s ++ visible rest

abbrev pub rounds : Tagged → ℕ
rounds (end s) = 0
rounds (hide s hidden rest) = suc (rounds rest)

index_open : (p x : Text) → NoTag p → index (p ++ (open_tag ++ x)) open_tag ≡ some (length p)
index_open p x h =
    index-append p (open_tag ++ x) (codes "internal>") 0 h (unfold index has_prefix in refl)
    ∙ ap some (omega arith)

index_close_from :
    (x : Text) (i : ℕ)
    → index x close_tag ≡ some i
    → index (open_tag ++ x) close_tag ≡ some (10 + i)
unfolding index has_prefix
index_close_from x i e = rw e (ap some (omega arith))

index_close :
    (p h r : Text)
    → NoTag p
    → NoTag h
    → index (p ++ (open_tag ++ (h ++ (close_tag ++ r)))) close_tag
      ≡ some (length p + (10 + (length h + 0)))
index_close p h r np nh = index-append p _ (codes "/internal>") _ np (
    index_close_from _ _
      (index-append h (close_tag ++ r) (codes "/internal>") 0 nh (unfold index has_prefix in refl)))

drop_exact : {A : Type 0} (n : ℕ) (xs ys : List A) → n ≡ length xs → drop n (xs ++ ys) ≡ ys
drop_exact n xs ys e = rw e (drop-length-append xs ys)

strip_round_at :
    (t : Text) (i j : ℕ)
    → index t open_tag ≡ some i
    → index t close_tag ≡ some j
    → strip_round t ≡ some (take i t ++ drop (j + 11) t)
unfolding strip_round
strip_round_at t i j e f = rw (e, strip_round) (rw (f, strip_round))

strip_round-none : (t : Text) → index t open_tag ≡ none → strip_round t ≡ none
unfolding strip_round
strip_round-none t e = rw (e, strip_round)

strip_loop_step :
    (fuel : ℕ) (t t' : Text)
    → strip_round t ≡ some t'
    → strip_loop (suc fuel) t ≡ strip_loop fuel t'
unfolding strip_loop
strip_loop_step fuel t t' e = rw (e, strip_loop)

strip_loop_end :
    (fuel : ℕ) (t : Text) → strip_round t ≡ none → strip_loop (suc fuel) t ≡ some (trim_space t)
unfolding strip_loop
strip_loop_end fuel t e = rw (e, strip_loop)

-- One round removes the first opening tag, what it hides, and its closing tag.
strip_round_hide :
    (p h r : Text)
    → NoTag p
    → NoTag h
    → strip_round (p ++ (open_tag ++ (h ++ (close_tag ++ r)))) ≡ some (p ++ r)
strip_round_hide p h r np nh =
    strip_round_at _ _ _ (index_open p (h ++ (close_tag ++ r)) np) (index_close p h r np nh)
    ∙ (ap some (
        ap₂ ◌++◌ (take-length-append p _) (
          ap (drop (length p + (10 + (length h + 0)) + 11)) regroup
          ∙ drop_exact _ (p ++ (open_tag ++ (h ++ close_tag))) r (
              omega (
                arith,
                length-append {0} p (open_tag ++ (h ++ close_tag)),
                length-append {0} h close_tag,
              )))))
  where
    regroup :
        p ++ (open_tag ++ (h ++ (close_tag ++ r))) ≡ (p ++ (open_tag ++ (h ++ close_tag))) ++ r
    regroup = simp append_assoc

strip_round_plain : (p : Text) → NoTag p → strip_round p ≡ none
strip_round_plain p np = strip_round-none p no_open
  where
    no_open : index p open_tag ≡ none
    no_open =
        ap (λ t. index t open_tag) (sym (append-nil p))
        ∙ index-append_none p [] (codes "internal>") np (unfold index has_prefix in refl)

NoTag-append : (p s : Text) → NoTag p → NoTag s → NoTag (p ++ s)
NoTag-append p s h k = All-append (λ c. c ≢ b'<') p s h k

strip_loop_from :
    (fuel : ℕ) (p : Text) (d : Tagged)
    → NoTag p
    → IsTagFree d
    → rounds d < fuel
    → strip_loop fuel (p ++ render d) ≡ some (trim_space (p ++ visible d))
strip_loop_from zero p d np h lt = elim lt [ ]
strip_loop_from (suc fuel) p (end s) np h lt =
    strip_loop_end fuel _ (strip_round_plain (p ++ s) (NoTag-append p s np h))
strip_loop_from (suc fuel) p (hide s hidden rest) np (ns, nh, h) lt =
    rw (← append_assoc p s (open_tag ++ (hidden ++ (close_tag ++ render rest)))) (
      strip_loop_step fuel _ _
        (strip_round_hide (p ++ s) hidden (render rest) (NoTag-append p s np ns) nh)
      ∙ (strip_loop_from fuel (p ++ s) rest (NoTag-append p s np ns) h (omega arith)
          ∙ ap (λ t. some (trim_space t)) (append_assoc p s (visible rest))))

-- Where every opening tag is closed before the next one opens and there is no other `<`, the loop
-- ends within one round more than there are tagged parts, and what is left is the visible text
-- without the white space around it.
pub strip_loop-render :
    (d : Tagged) (fuel : ℕ)
    → IsTagFree d
    → rounds d < fuel
    → strip_loop fuel (render d) ≡ some (trim_space (visible d))
strip_loop-render d fuel h lt = strip_loop_from fuel [] d tt h lt
