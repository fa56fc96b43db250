-- ===== src/Router/StripLaws/Endless.antt =====
-- When the loop of `stripInternalTags` (internal/router/router.go) does not end.
use kraclaw.Prelude.{
  ℕ, zero, suc, ◌+◌, Text, codes, has_prefix, index, take, drop, length, none, some, List, ◌++◌,
  append_assoc, ◌≡◌, refl, ap, ◌∙◌, ap₂, arith, length-append, take-length-append,
}
use kraclaw.Router.Strip.{open_tag, close_tag, strip_round, strip_loop}
use kraclaw.Router.StripLaws.{
  NoTag, NoTag-append, index-append, strip_round_at, strip_loop_step, drop_exact,
}

index_open_late :
    (p q r : Text)
    → NoTag p
    → NoTag q
    → index (p ++ (close_tag ++ (q ++ (open_tag ++ r)))) open_tag
      ≡ some (length p + (11 + (length q + 0)))
index_open_late p q r np nq = index-append p _ (codes "internal>") _ np (
    index_open_from _ _
      (index-append q (open_tag ++ r) (codes "internal>") 0 nq (unfold index has_prefix in refl)))
  where
    index_open_from :
        (x : Text) (i : ℕ)
        → index x open_tag ≡ some i
        → index (close_tag ++ x) open_tag ≡ some (11 + i)
    index_open_from x i e = unfold index has_prefix in rw e (ap some (omega arith))

index_close_early :
    (p x : Text) → NoTag p → index (p ++ (close_tag ++ x)) close_tag ≡ some (length p + 0)
index_close_early p x np =
    index-append p (close_tag ++ x) (codes "/internal>") 0 np (unfold index has_prefix in refl)

take_exact : {A : Type 0} (n : ℕ) (xs ys : List A) → n ≡ length xs → take n (xs ++ ys) ≡ xs
take_exact n xs ys e = rw e (take-length-append xs ys)

-- A round on a closing tag in front of the opening one repeats the text between the two.
strip_round_reversed :
    (p q r : Text)
    → NoTag p
    → NoTag q
    → strip_round (p ++ (close_tag ++ (q ++ (open_tag ++ r))))
      ≡ some (p ++ (close_tag ++ ((q ++ q) ++ (open_tag ++ r))))
strip_round_reversed p q r np nq =
    strip_round_at _ _ _ (index_open_late p q r np nq) (index_close_early p _ np)
    ∙ ap some (ap₂ ◌++◌ kept repeated ∙ simp append_assoc)
  where
    kept :
        take (length p + (11 + (length q + 0))) (p ++ (close_tag ++ (q ++ (open_tag ++ r))))
        ≡ p ++ (close_tag ++ q)
    kept =
        ap (take (length p + (11 + (length q + 0)))) (simp append_assoc)
        ∙ take_exact _ (p ++ (close_tag ++ q)) (open_tag ++ r)
            (omega (arith, length-append {0} p (close_tag ++ q), length-append {0} close_tag q))

    repeated :
        drop (length p + 0 + 11) (p ++ (close_tag ++ (q ++ (open_tag ++ r)))) ≡ q ++ (open_tag ++ r)
    repeated =
        ap (drop (length p + 0 + 11)) (simp append_assoc)
        ∙ drop_exact _ (p ++ close_tag) (q ++ (open_tag ++ r))
            (omega (arith, length-append {0} p close_tag))

-- On a text whose first `<` begins a closing tag and whose second `<` begins an opening tag, the
-- loop is still running after any number of rounds.
pub strip_loop_diverges :
    (fuel : ℕ) (p q r : Text)
    → NoTag p
    → NoTag q
    → strip_loop fuel (p ++ (close_tag ++ (q ++ (open_tag ++ r)))) ≡ none
strip_loop_diverges zero p q r np nq = unfold strip_loop in refl
strip_loop_diverges (suc fuel) p q r np nq =
    strip_loop_step fuel _ _ (strip_round_reversed p q r np nq)
    ∙ strip_loop_diverges fuel p (q ++ q) r np (NoTag-append q q nq nq)
