-- ===== src/ChatGpt/Poll.antt =====
-- The polling for the approval of a device code (`PollUntilCode` of
-- internal/auth/chatgpt/device_flow.go), on fuel: `none` means that it was still polling when the
-- rounds ran out. An interval is the 64 bits of a signed number.
pub mod Laws
pub mod Ends
use kraclaw.Prelude.{
  ℕ, zero, suc, ◌+◌, ◌%◌, ◌^◌, Bool, true, false, Text, List, ◌∷◌, Option, none, some,
  if◌then◌else◌,
}
use kraclaw.Prelude.Int.{ℤ, pos, negsuc, ltb_ℤ}
use kraclaw.Prelude.Trace.{pure, ◌>>=◌}
use kraclaw.ChatGpt.{
  ChatGptError, authorization_pending, slow_down, device_auth_timeout, context_done, Outcome, ok,
  err, Codec, Client, Call, wait, Wake, caller_done, deadline_passed, timer_fired, Answers, M,
}
use kraclaw.ChatGpt.Device.{DeviceCode, AuthorizationCode, default_poll_interval, poll_once}

abbrev pub slow_down_backoff : ℕ
slow_down_backoff = 5000000000

abbrev pub or_else : ℤ → ℤ → ℤ
or_else d i = if ltb_ℤ (pos 0) i then i else d

abbrev pub magnitude : ℤ → ℕ
magnitude (pos n) = n
magnitude (negsuc n) = 0

-- The interval of the first wait, which is positive.
abbrev pub first_interval : Client → DeviceCode → ℕ
first_interval client dc =
    magnitude (or_else default_poll_interval (or_else dc.interval client.poll_override))

-- `interval += slowDownBackoff`, which wraps around.
abbrev pub slower : ℕ → ℕ
slower interval = (interval + slow_down_backoff) % 2 ^ 64

abbrev pub next_interval : ChatGptError → ℕ → ℕ
next_interval slow_down interval = slower interval
next_interval e interval = interval

-- The errors of a poll after which it goes on: `errors.Is(err, ErrAuthorizationPending)`.
abbrev pub is_pending : ChatGptError → Bool
is_pending authorization_pending = true
is_pending slow_down = true
is_pending e = false

module _ (codec : Codec) (client : Client) (env : Answers) (dc : DeviceCode) where
  -- The error of a poll that ends the polling.
  abbrev pub final_error : ChatGptError → List Call → ChatGptError
  final_error e log =
      if env.is_cancelled log
      then context_done
      else if env.is_late log
      then device_auth_timeout
      else e

  -- What follows a wait, where `again` is the next round.
  abbrev pub on_wake :
      Wake
      → List Call
      → Option (Outcome AuthorizationCode) × List Call
      → Option (Outcome AuthorizationCode) × List Call
  on_wake caller_done log again = (some (err context_done), log)
  on_wake deadline_passed log again =
      (some (err (if env.is_cancelled log then context_done else device_auth_timeout)), log)
  on_wake timer_fired log again = again

  -- What follows a poll, where `again` is the next round on an interval.
  abbrev pub on_result :
      Outcome AuthorizationCode
      → ℕ
      → List Call
      → (ℕ → M (Option (Outcome AuthorizationCode)))
      → Option (Outcome AuthorizationCode) × List Call
  on_result (ok code) interval log again = (some (ok code), log)
  on_result (err e) interval log again =
      let pause = wait (next_interval e interval) ∷ log in
      if is_pending e
      then on_wake (env.wake pause) pause (again (next_interval e interval) pause)
      else (some (err (final_error e log)), log)

  unfoldable pub poll_loop : ℕ → ℕ → M (Option (Outcome AuthorizationCode))
  poll_loop zero interval log = (none, log)
  poll_loop (suc fuel) interval log =
      let r = poll_once codec client env dc log in on_result r.0 interval r.1 (poll_loop fuel)

  unfoldable pub poll_until_code : ℕ → M (Option (Outcome AuthorizationCode))
  unfolding poll_loop
  poll_until_code fuel = poll_loop fuel (first_interval client dc)
