-- ===== src/Auth/Laws.antt =====
-- Which senders an allowlist admits (internal/auth/auth.go).
use kraclaw.Prelude.{
  true, false, Text, List, [], ◌∷◌, ◌++◌, some, ◌≡◌, refl, ap, ◌∙◌, ◌↔◌, ◌⊎◌, inl, inr, All, arith,
  Bool-cases,
}
use kraclaw.Store.{SenderAllowlistEntry, AllowlistMode, trigger}
use kraclaw.Auth.{is_trigger, applies, first_mode, is_allowed}

-- The first entry that applies to the sender is a trigger entry.
pub record IsAdmitted (sender : Text) (es : List SenderAllowlistEntry) : Type 0 where
  pub before : List SenderAllowlistEntry
  pub entry : SenderAllowlistEntry
  pub after : List SenderAllowlistEntry
  pub split : es ≡ before ++ entry ∷ after
  pub passed : All (λ e. applies sender e ≡ false) before
  pub matched : applies sender entry ≡ true
  pub admits : entry.mode ≡ trigger

is_trigger_iff : (m : AllowlistMode) → (is_trigger m ≡ true) ↔ (m ≡ trigger)
is_trigger_iff m = ground arith

first_mode_sound :
    (es : List SenderAllowlistEntry) (sender : Text)
    → first_mode es sender ≡ true
    → IsAdmitted sender es
unfolding first_mode
first_mode_sound [] sender h = cc
first_mode_sound (e ∷ es) sender h = elim (Bool-cases (applies sender e)) [
  | inl hit ↦ record {
    before = [];
    entry = e;
    after = es;
    split = refl;
    passed = tt;
    matched = hit;
    admits = (is_trigger_iff e.mode).0 (rw (hit, first_mode) at h);
  }
  | inr miss ↦
      let rest = first_mode_sound es sender (rw (miss, first_mode) at h) in
      record {
        before = e ∷ rest.before;
        entry = rest.entry;
        after = rest.after;
        split = ap (λ l. e ∷ l) rest.split;
        passed = (miss, rest.passed);
        matched = rest.matched;
        admits = rest.admits;
      }
]

first_mode_complete :
    (before after : List SenderAllowlistEntry) (e : SenderAllowlistEntry) (sender : Text)
    → All (λ x. applies sender x ≡ false) before
    → applies sender e ≡ true
    → e.mode ≡ trigger
    → first_mode (before ++ e ∷ after) sender ≡ true
unfolding first_mode
first_mode_complete [] after e sender h hit m = rw (hit, first_mode) (rw m)
first_mode_complete (x ∷ before) after e sender (miss, h) hit m =
    rw (miss, first_mode) (first_mode_complete before after e sender h hit m)

-- A sender is allowed exactly when the chat has no entries, or the first entry that applies to the
-- sender is a trigger entry; so a list without such an entry denies.
pub is_allowed_iff :
    (es : List SenderAllowlistEntry) (sender : Text)
    → (is_allowed (some es) sender ≡ some true) ↔ ((es ≡ []) ⊎ IsAdmitted sender es)
unfolding is_allowed
is_allowed_iff [] sender = (λ _. inl refl, λ _. refl)
is_allowed_iff (e ∷ es) sender = (
  λ h. inr (first_mode_sound (e ∷ es) sender (ground arith)),
  λ h. elim h [
    | inl empty ↦ cc
    | inr a ↦ ap some (
        ap (λ l. first_mode l sender) a.split
        ∙ first_mode_complete a.before a.after a.entry sender a.passed a.matched a.admits)
  ],
)
