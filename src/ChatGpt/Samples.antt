-- ===== src/ChatGpt/Samples.antt =====
-- An issuer that never approves, and tokens, for the examples.
use kraclaw.Prelude.{
  ℕ, ◌+◌, leb, true, false, ◌==◌, codes, List, [], ◌∷◌, Option, none, some, if◌then◌else◌, ◌≡◌, ◌≢◌,
  ◌↔◌, arith,
}
use kraclaw.Prelude.Int.{pos}
use kraclaw.ChatGpt.{
  fetched, Codec, Client, Call, post, wait, timer_fired, Answers, Response, RawClaims,
}
use kraclaw.ChatGpt.Jwt.{parse_id_token, claims_of}
use kraclaw.ChatGpt.Jwt.Laws.{IsToken, parse_id_token_iff}
use kraclaw.ChatGpt.Device.{DeviceCode}
use kraclaw.ChatGpt.Poll.{first_interval, poll_until_code}
use kraclaw.ChatGpt.Poll.Laws.{IsPaced, poll_until_code-IsPaced}
use kraclaw.ChatGpt.Poll.Ends.{KeepsTime, poll_until_code_returns}
use kraclaw.ChatGpt.Refresh.{on_refresh}
use kraclaw.ChatGpt.Refresh.Laws.{IsPermanent, IsRefusedFor, on_refresh-IsPermanent_iff}

abbrev ann_claims : RawClaims
ann_claims = record { email = codes "ann"; exp = pos 7; profile = none; auth = none }

abbrev codec : Codec
codec = record {
  raw_claims = λ s. some ann_claims;
  user_code_response = λ s. none;
  code_success_response = λ s. none;
  token_response = λ s.
      some (record { id_token = []; access_token = s; refresh_token = []; expires_in = pos 60 });
  poll_error_body = λ s. some (record { error = []; code = s; error_code = [] });
  string = λ s. none;
  nested_codes = λ s. none;
  refresh_error_body = λ s. some (record { error = s; error_code = []; error_description = [] });
  text_nanos = λ s. none;
  number_nanos = λ s. none;
  url_base64 = λ s. some s;
  std_base64 = λ s. none;
  to_lower_rune = λ c. c;
  equal_fold = λ s t. s == t;
  client_body = λ s. some s;
  poll_body = λ s t. some s;
  refresh_body = λ s t. some t;
  form = λ s. [];
  is_url = λ s. true;
}

abbrev client : Client
client = record {
  issuer = codes "https://auth.openai.com";
  client_id = codes "app";
  poll_timeout = pos 900000000000;
  poll_override = pos 0;
}

abbrev approval : DeviceCode
approval = record {
  user_code = codes "ABCD";
  verification_url = codes "https://auth.openai.com/codex/device";
  interval = pos 5000000000;
  device_auth_id = codes "d1";
}

-- Only the waits take time.
abbrev clock : List Call → ℕ
clock [] = 0
clock (post url body ∷ log) = clock log
clock (wait i ∷ log) = clock log + i

abbrev asked_to_slow_down : List Call → Option Response
asked_to_slow_down log =
    if leb 900000000000 (clock log)
    then none
    else some (record { status = 400; body = record { bytes = codes "slow_down"; breaks = false } })

abbrev never : Answers
never = record {
  response = asked_to_slow_down;
  wake = λ log. timer_fired;
  is_cancelled = λ log. false;
  is_late = λ log. leb 900000000000 (clock log);
  now = λ log. pos (clock log);
}

never-KeepsTime : KeepsTime never clock 900000000000
never-KeepsTime = (
  λ url body log. omega arith,
  λ i log small fired. omega arith,
  λ url body log late. ground arith,
)

poll_until_code-IsPaced_example :
    IsPaced codec client never approval
      (first_interval client approval)
      (poll_until_code codec client never approval 4 []).1
poll_until_code-IsPaced_example =
    poll_until_code-IsPaced codec client never approval 4 (omega arith)

poll_until_code_returns_example : (poll_until_code codec client never approval 181 []).0 ≢ none
poll_until_code_returns_example =
    poll_until_code_returns codec client never approval clock 900000000000 180 never-KeepsTime
      (omega arith) (omega arith)

parse_id_token_iff_example :
    (parse_id_token codec (codes "h.p.s") ≡ some (claims_of ann_claims))
    ↔ IsToken codec (codes "h.p.s") (claims_of ann_claims)
parse_id_token_iff_example = parse_id_token_iff codec (codes "h.p.s") (claims_of ann_claims)

abbrev granting : Answers
granting = record never {
  response =
      λ log. some (record { status = 200; body = record { bytes = codes "a"; breaks = false } });
}

on_refresh-IsPermanent_iff_example :
    IsPermanent codec client (on_refresh codec client (pos 0) (codes "r") (fetched 400 (codes "x")))
    ↔ IsRefusedFor codec client (fetched 400 (codes "x"))
on_refresh-IsPermanent_iff_example =
    on_refresh-IsPermanent_iff codec client (pos 0) (codes "r") (fetched 400 (codes "x"))
