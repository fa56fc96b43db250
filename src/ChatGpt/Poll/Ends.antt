-- ===== src/ChatGpt/Poll/Ends.antt =====
-- The end of the polling (internal/auth/chatgpt/device_flow.go).
use kraclaw.Prelude.{
  ℕ, zero, suc, ◌+◌, ◌*◌, ◌^◌, ◌<◌, ◌≤◌, true, false, Text, ◌==◌, ◌||◌, ◌++◌, codes, List, [], ◌∷◌,
  Option, none, some, ◌≡◌, ◌≢◌, refl, sym, ◌∙◌, subst, arith, if_cases, option_cases,
}
use mathlib.Core.Bool.{true≢false}
use native.Mathlib.Nat.{mul-le-mul_right}
use kraclaw.ChatGpt.{
  ChatGptError, slow_down, Outcome, ok, err, Codec, Client, Call, post, wait, Wake, caller_done,
  deadline_passed, timer_fired, Answers, M, Fetched, no_request, received,
}
use kraclaw.ChatGpt.Device.{DeviceCode, AuthorizationCode, on_poll, poll_once}
use kraclaw.ChatGpt.Poll.{
  slow_down_backoff, first_interval, next_interval, is_pending, on_wake, on_result, final_error,
  poll_loop, poll_until_code,
}

-- What is known of time: a request and a timer that fires take no negative time, the timer at
-- least its interval, and a request behind the deadline fails since its context is done.
abbrev pub KeepsTime : Answers → (List Call → ℕ) → ℕ → Type 0
KeepsTime env clock deadline =
    ((url body : Text) (log : List Call) → clock log ≤ clock (post url body ∷ log))
    × ((i : ℕ) (log : List Call)
        → i < 2 ^ 63
        → env.wake (wait i ∷ log) ≡ timer_fired
        → clock log + i ≤ clock (wait i ∷ log))
    × ((url body : Text) (log : List Call)
        → deadline ≤ clock log
        → env.response (post url body ∷ log) ≡ none)

module _ (codec : Codec) (client : Client) (env : Answers) (dc : DeviceCode) (clock : List Call → ℕ)
    (deadline : ℕ) (time : KeepsTime env clock deadline) where
  abbrev HasEnded : Outcome AuthorizationCode → Type 0
  HasEnded (ok code) = Unit
  HasEnded (err e) = is_pending e ≡ false

  -- A poll takes no negative time, and behind the deadline it fails for good.
  abbrev IsTimely : List Call → Outcome AuthorizationCode × List Call → Type 0
  IsTimely log r = (clock log ≤ clock r.1) × (deadline ≤ clock log → HasEnded r.0)

  poll_once-IsTimely : (log : List Call) → IsTimely log (poll_once codec client env dc log)
  unfolding poll_once on_poll
  poll_once-IsTimely log =
      if_cases (λ (c : M (Outcome AuthorizationCode)). IsTimely log (c log))
        (dc.device_auth_id == [] || dc.user_code == []) _ _ (λ _. (omega arith, λ _. refl))
        (λ _.
          option_cases (λ (c : M (Outcome AuthorizationCode)). IsTimely log (c log))
            (codec.poll_body dc.device_auth_id dc.user_code) _ _ (λ _. (omega arith, λ _. refl))
            (λ body _.
              if_cases (λ (r : Fetched × List Call). IsTimely log (on_poll codec client r.0, r.1))
                (codec.is_url url)
                (received (env.response (post url body ∷ log)), post url body ∷ log)
                (no_request, log) (λ _. (time.0 url body log, late body))
                (λ _. (omega arith, λ _. unfold on_poll in refl))))
    where
      url : Text
      url = client.issuer ++ codes "/api/accounts/deviceauth/token"

      late :
          (body : Text)
          → deadline ≤ clock log
          → HasEnded (on_poll codec client (received (env.response (post url body ∷ log))))
      late body h = unfold on_poll in rw (time.2 url body log h) refl

  abbrev Rounds : Type 0
  Rounds = ℕ → M (Option (Outcome AuthorizationCode))

  on_wake_returns :
      (w : Wake) (log : List Call) (again : Option (Outcome AuthorizationCode) × List Call)
      → (w ≡ timer_fired → again.0 ≢ none)
      → (on_wake codec client env dc w log again).0 ≢ none
  on_wake_returns caller_done log again h = λ e. cc
  on_wake_returns deadline_passed log again h = λ e. cc
  on_wake_returns timer_fired log again h = h refl

  on_result_returns :
      (r : Outcome AuthorizationCode) (interval : ℕ) (log : List Call) (again : Rounds)
      → ((e : ChatGptError)
          → r ≡ err e
          → is_pending e ≡ true
          → let next = next_interval e interval in
            env.wake (wait next ∷ log) ≡ timer_fired → (again next (wait next ∷ log)).0 ≢ none)
      → (on_result codec client env dc r interval log again).0 ≢ none
  on_result_returns (ok code) interval log again h = λ e. cc
  on_result_returns (err e) interval log again h =
      let next = next_interval e interval in
      if_cases (λ (x : Option (Outcome AuthorizationCode) × List Call). x.0 ≢ none) (is_pending e)
        (on_wake codec client env dc (env.wake (wait next ∷ log)) (wait next ∷ log)
          (again next (wait next ∷ log)))
        (some (err (final_error codec client env dc e log)), log)
        (λ pending.
          on_wake_returns (env.wake (wait next ∷ log)) (wait next ∷ log)
            (again next (wait next ∷ log)) (h e refl pending))
        (λ _ e'. cc)

  -- The next interval is not shorter, where nothing wraps around.
  next_interval_bounds :
      (e : ChatGptError) (interval fuel : ℕ)
      → interval + slow_down_backoff * suc fuel < 2 ^ 63
      → (interval ≤ next_interval e interval)
        × (next_interval e interval + slow_down_backoff * fuel < 2 ^ 63)
  next_interval_bounds slow_down interval fuel h = (omega arith, omega arith)
  next_interval_bounds e interval fuel h = (omega arith, omega arith)

  poll_loop_returns :
      (fuel interval : ℕ) (log : List Call)
      → interval + slow_down_backoff * fuel < 2 ^ 63
      → deadline ≤ clock log + interval * fuel
      → (poll_loop codec client env dc (suc fuel) interval log).0 ≢ none
  unfolding poll_loop
  poll_loop_returns zero interval log small close =
      let r = poll_once codec client env dc log in
      on_result_returns r.0 interval r.1 (poll_loop codec client env dc zero) (λ e h pending.
        absurd
          (true≢false (sym pending ∙ subst HasEnded h ((poll_once-IsTimely log).1 (omega arith)))))
  poll_loop_returns (suc fuel) interval log small close =
      let r = poll_once codec client env dc log in
      on_result_returns r.0 interval r.1 (poll_loop codec client env dc (suc fuel))
        (λ e h pending fired.
          let next = next_interval e interval in
          let (longer, fits) = next_interval_bounds e interval fuel small in
          let waited = time.1 next r.1 (omega arith) fired in
          poll_loop_returns fuel next (wait next ∷ r.1) fits
            (omega (arith, waited, (poll_once-IsTimely log).0, mul-le-mul_right fuel longer)))

-- Where time passes as `KeepsTime` states, the first interval is i, and the deadline is at most
-- i * n nanoseconds after the first poll: the polling returns within n + 1 rounds. The number of
-- rounds must be one for which no interval reaches 2^63.
pub poll_until_code_returns :
    (codec : Codec) (client : Client) (env : Answers) (dc : DeviceCode) (clock : List Call → ℕ)
    (deadline n : ℕ)
    → KeepsTime env clock deadline
    → first_interval client dc + slow_down_backoff * n < 2 ^ 63
    → deadline ≤ clock [] + first_interval client dc * n
    → (poll_until_code codec client env dc (suc n) []).0 ≢ none
unfolding poll_until_code
poll_until_code_returns codec client env dc clock deadline n time small close =
    poll_loop_returns codec client env dc clock deadline time n (first_interval client dc) [] small
      close
