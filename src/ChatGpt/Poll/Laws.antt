-- ===== src/ChatGpt/Poll/Laws.antt =====
-- The pace of the polling (internal/auth/chatgpt/device_flow.go).
use kraclaw.Prelude.{
  ◌==◌, ◌||◌, codes, option_cases, ℕ, zero, suc, ◌+◌, ◌*◌, ◌%◌, ◌^◌, ◌<◌, Text, List, [], ◌∷◌, ◌++◌,
  Option, some, ◌≡◌, refl, sym, ◌∙◌, ap, subst, arith, if_cases,
}
use kraclaw.ChatGpt.{
  ChatGptError, slow_down, Outcome, ok, err, Codec, Client, Call, post, wait, Wake, caller_done,
  deadline_passed, timer_fired, Answers, M, received, fetch, no_request, Fetched,
}
use kraclaw.ChatGpt.Device.{DeviceCode, AuthorizationCode, on_poll, poll_once}
use kraclaw.ChatGpt.Poll.{
  slow_down_backoff, first_interval, next_interval, slower, is_pending, on_wake, on_result,
  final_error, poll_loop, poll_until_code,
}

-- Whether a poll was answered with the demand to slow down.
abbrev pub count_slow : Outcome AuthorizationCode → ℕ → ℕ
count_slow (err slow_down) n = suc n
count_slow r n = n

module _ (codec : Codec) (client : Client) (env : Answers) (dc : DeviceCode) (base : ℕ) where
  -- How many of the polls in the log were.
  abbrev pub slow_downs : List Call → ℕ
  slow_downs [] = 0
  slow_downs (wait i ∷ log) = slow_downs log
  slow_downs (post url body ∷ log) =
      count_slow (on_poll codec client (received (env.response (post url body ∷ log))))
        (slow_downs log)

  -- Every wait is as long as the first interval with five seconds for every such demand before it.
  abbrev pub IsPaced : List Call → Type 0
  IsPaced [] = Unit
  IsPaced (wait i ∷ log) = (i ≡ (base + slow_down_backoff * slow_downs log) % 2 ^ 64) × IsPaced log
  IsPaced (post url body ∷ log) = IsPaced log

  -- A poll, with its result counted.
  abbrev IsPolled : List Call → Outcome AuthorizationCode × List Call → Type 0
  IsPolled log r = (slow_downs r.1 ≡ count_slow r.0 (slow_downs log)) × (IsPaced log → IsPaced r.1)

  poll_once-IsPolled : (log : List Call) → IsPolled log (poll_once codec client env dc log)
  unfolding poll_once on_poll
  poll_once-IsPolled log =
      if_cases (λ (c : M (Outcome AuthorizationCode)). IsPolled log (c log))
        (dc.device_auth_id == [] || dc.user_code == []) _ _ (λ _. (refl, λ h. h))
        (λ _.
          option_cases (λ (c : M (Outcome AuthorizationCode)). IsPolled log (c log))
            (codec.poll_body dc.device_auth_id dc.user_code) _ _ (λ _. (refl, λ h. h))
            (λ body _. posted body))
    where
      request : Text → Call
      request body = post (client.issuer ++ codes "/api/accounts/deviceauth/token") body

      posted :
          (body : Text)
          → let r =
              fetch codec env (client.issuer ++ codes "/api/accounts/deviceauth/token") body log in
            IsPolled log (on_poll codec client r.0, r.1)
      posted body =
          unfold on_poll in
          if_cases (λ (r : Fetched × List Call). IsPolled log (on_poll codec client r.0, r.1))
            (codec.is_url (client.issuer ++ codes "/api/accounts/deviceauth/token"))
            (received (env.response (request body ∷ log)), request body ∷ log) (no_request, log)
            (λ _. (refl, λ h. h)) (λ _. (refl, λ h. h))

  slower-mod :
      (s interval : ℕ)
      → interval ≡ (base + slow_down_backoff * s) % 2 ^ 64
      → slower interval ≡ (base + slow_down_backoff * suc s) % 2 ^ 64
  slower-mod s interval h = omega arith

  next_interval-mod :
      (e : ChatGptError) (s interval : ℕ)
      → interval ≡ (base + slow_down_backoff * s) % 2 ^ 64
      → next_interval e interval ≡ (base + slow_down_backoff * count_slow (err e) s) % 2 ^ 64
  next_interval-mod slow_down s interval h = slower-mod s interval h
  next_interval-mod e s interval h = h

  abbrev Fits : ℕ → List Call → Type 0
  Fits interval log = interval ≡ (base + slow_down_backoff * slow_downs log) % 2 ^ 64

  abbrev Rounds : Type 0
  Rounds = ℕ → M (Option (Outcome AuthorizationCode))

  abbrev KeepsPace : Rounds → Type 0
  KeepsPace again =
      (interval : ℕ) (log : List Call)
      → Fits interval log
      → IsPaced log
      → IsPaced (again interval log).1

  on_wake-IsPaced :
      (w : Wake) (log : List Call) (again : Option (Outcome AuthorizationCode) × List Call)
      → IsPaced log
      → IsPaced again.1
      → IsPaced (on_wake codec client env dc w log again).1
  on_wake-IsPaced caller_done log again h k = h
  on_wake-IsPaced deadline_passed log again h k = h
  on_wake-IsPaced timer_fired log again h k = k

  on_result-IsPaced :
      (r : Outcome AuthorizationCode) (interval : ℕ) (log : List Call) (again : Rounds)
      → KeepsPace again
      → ((e : ChatGptError) → r ≡ err e → Fits (next_interval e interval) log)
      → IsPaced log
      → IsPaced (on_result codec client env dc r interval log again).1
  on_result-IsPaced (ok code) interval log again keeps fits paced = paced
  on_result-IsPaced (err e) interval log again keeps fits paced =
      let next = next_interval e interval in
      if_cases (λ (x : Option (Outcome AuthorizationCode) × List Call). IsPaced x.1) (is_pending e)
        _ (some (err (final_error codec client env dc e log)), log)
        (λ _.
          on_wake-IsPaced (env.wake (wait next ∷ log)) (wait next ∷ log)
            (again next (wait next ∷ log)) (fits e refl, paced)
            (keeps next (wait next ∷ log) (fits e refl) (fits e refl, paced)))
        (λ _. paced)

  poll_loop-IsPaced : (fuel : ℕ) → KeepsPace (poll_loop codec client env dc fuel)
  unfolding poll_loop
  poll_loop-IsPaced zero interval log fits paced = paced
  poll_loop-IsPaced (suc fuel) interval log fits paced =
      let r = poll_once codec client env dc log in
      let polled = poll_once-IsPolled log in
      on_result-IsPaced r.0 interval r.1 (poll_loop codec client env dc fuel)
        (poll_loop-IsPaced fuel)
        (λ e h.
          subst (λ (n : ℕ). next_interval e interval ≡ (base + slow_down_backoff * n) % 2 ^ 64)
            (ap (λ x. count_slow x (slow_downs log)) (sym h) ∙ sym polled.0)
            (next_interval-mod e (slow_downs log) interval fits))
        (polled.1 paced)

-- The polling, for any number of rounds, on a first interval that fits 64 bits: every wait is as
-- long as the first interval with five seconds added for each poll before it that was answered
-- with `slow_down`, modulo 2^64.
pub poll_until_code-IsPaced :
    (codec : Codec) (client : Client) (env : Answers) (dc : DeviceCode) (fuel : ℕ)
    → first_interval client dc < 2 ^ 64
    → IsPaced codec client env dc
        (first_interval client dc)
        (poll_until_code codec client env dc fuel []).1
unfolding poll_until_code
poll_until_code-IsPaced codec client env dc fuel fits =
    poll_loop-IsPaced codec client env dc (first_interval client dc) fuel (first_interval client dc)
      [] (omega arith) tt
