-- ===== src/RateLimit.antt =====
-- backend/app/middleware/rate_limit.py: the counters of failed logins, the single use of TOTP codes
-- and the daily token budget. Each call is a function of the store and of the time.
pub mod Lockout
pub mod SingleUse
pub mod Budget
use pipe_line_gpt_backend.Prelude.{
  ℕ, ◌+◌, ◌-◌, ◌*◌, ◌/◌, max, String, Bool, true, false, Option, none, some, List, [], ◌∷◌, leb,
  str_eq, if◌then◌else◌,
}
use pipe_line_gpt_backend.Exec.{Outcome, ok, err, HttpError}
use pipe_line_gpt_backend.Config.{Settings}
use pipe_line_gpt_backend.Redis.{Redis, Entry, Key, login_email, login_ip, totp_used, token_budget}

module _ (s : Settings) (r : Redis) where
  open r use {Store, entry, incrby, expire, delete, set_nx}

  -- the day of `time.gmtime()`
  abbrev pub day_of : ℕ → ℕ
  day_of now = now / 86400

  -- `record_token_usage`
  unfoldable pub record_token_usage : (now user_id tokens_used : ℕ) → Store → Store
  record_token_usage now user_id tokens_used st =
      let key = token_budget user_id (day_of now) in
      if leb tokens_used 0 then st else expire (incrby st now key tokens_used) now key 86400 false

  abbrev pub value_of : Option Entry → ℕ
  value_of none = 0
  value_of (some e) = e.value

  -- `token_budget_dependency`
  unfoldable pub token_budget_dependency : (now user_id : ℕ) → Store → Outcome HttpError (Unit {0})
  token_budget_dependency now user_id st =
      if leb s.max_tokens_per_day (value_of (entry st now (token_budget user_id (day_of now))))
      then err (record {
        code = 429;
        detail = "Daily token budget exhausted. Try again tomorrow.";
        retry_after = none;
      })
      else ok tt

  abbrev pub ip_keys : Option String → List (Key × ℕ)
  ip_keys none = []
  ip_keys (some ip) = if str_eq ip "" then [] else (login_ip ip, s.login_max_failures * 4) ∷ []

  -- `_login_keys`; `lower` is str.lower
  abbrev pub login_keys : (String → String) → String → Option String → List (Key × ℕ)
  login_keys lower email ip = (login_email (lower email), s.login_max_failures) ∷ ip_keys ip

  -- `ttl`: the seconds left, or -1, which `max(ttl, 1)` makes 1
  abbrev pub retry_after : ℕ → Entry → ℕ
  retry_after now e = elim e.deadline [ none ↦ 1 | some d ↦ max (d - now) 1 ]

  abbrev pub too_many : ℕ → Entry → HttpError
  too_many now e = record {
    code = 429;
    detail = "Too many failed sign-in attempts. Try again later.";
    retry_after = some (retry_after now e);
  }

  abbrev locked : ℕ → ℕ → Option Entry → Option HttpError
  locked now limit none = none
  locked now limit (some e) = if leb limit e.value then some (too_many now e) else none

  -- the loop of `ensure_login_allowed`
  unfoldable pub first_locked : ℕ → Store → List (Key × ℕ) → Option HttpError
  first_locked now st [] = none
  first_locked now st ((key, limit) ∷ rest) =
      let later = first_locked now st rest in
      elim (locked now limit (entry st now key)) [ none ↦ later | some e ↦ some e ]

  unfoldable pub ensure_login_allowed :
      (String → String) → ℕ → String → Option String → Store → Outcome HttpError (Unit {0})
  unfolding first_locked
  ensure_login_allowed lower now email ip st =
      elim (first_locked now st (login_keys lower email ip)) [ none ↦ ok tt | some e ↦ err e ]

  -- the loop of `record_login_failure`
  unfoldable pub count_failure : ℕ → List (Key × ℕ) → Store → Store
  count_failure now [] st = st
  count_failure now ((key, limit) ∷ rest) st =
      count_failure now rest (expire (incrby st now key 1) now key s.login_lockout_seconds true)

  unfoldable pub record_login_failure :
      (String → String) → ℕ → String → Option String → Store → Store
  unfolding count_failure
  record_login_failure lower now email ip st = count_failure now (login_keys lower email ip) st

  unfoldable pub clear_login_failures : (String → String) → ℕ → String → Store → Store
  clear_login_failures lower now email st = delete st now (login_email (lower email))

  -- False if the code was already accepted for the user.
  unfoldable pub claim_totp_code : (now user_id : ℕ) → String → Store → Store × Bool
  claim_totp_code now user_id code st = set_nx st now (totp_used user_id code) 120
