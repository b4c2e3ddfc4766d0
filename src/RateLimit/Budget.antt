-- ===== src/RateLimit/Budget.antt =====
-- The daily token budget: what was used counts for the rest of the day.
use pipe_line_gpt_backend.Prelude.{
  ℕ, ◌+◌, ◌≤◌, ◌<◌, ◌≡◌, ◌↔◌, false, none, some, arith, Option-cases, inl, inr,
}
use pipe_line_gpt_backend.Exec.{err, HttpError}
use pipe_line_gpt_backend.Config.{Settings}
use pipe_line_gpt_backend.Redis.{Redis, token_budget}
use pipe_line_gpt_backend.RateLimit.{record_token_usage, token_budget_dependency, day_of, value_of}

module _ (s : Settings) (r : Redis) where
  open r use {Store, entry, entry-incrby, entry-expire, entry-later}

  abbrev pub exhausted : HttpError
  exhausted = record {
    code = 429;
    detail = "Daily token budget exhausted. Try again tomorrow.";
    retry_after = none;
  }

  -- The counter right after a question that used tokens.
  entry-record_token_usage :
      (t user tokens : ℕ) (st : Store)
      → 0 < tokens
      → entry (record_token_usage s r t user tokens st) t (token_budget user (day_of s r t))
        ≡ some (record {
          value = value_of s r (entry st t (token_budget user (day_of s r t))) + tokens;
          deadline = some (t + 86400);
        })
  unfolding record_token_usage
  entry-record_token_usage t user tokens st pos =
      let key = token_budget user (day_of s r t) in
      elim (Option-cases (entry st t key)) [
        | inl e ↦ ground (
          arith,
          entry-expire (r.incrby st t key tokens) t key 86400 false key,
          entry-incrby st t key tokens key,
        )
        | inr (x, e) ↦ ground (
          arith,
          entry-expire (r.incrby st t key tokens) t key 86400 false key,
          entry-incrby st t key tokens key,
        )
      ]

  -- A question that used tokens counts until its day ends: from then on that day, while nothing else
  -- is counted, the budget is refused with 429 exactly when what was used before, together with the
  -- tokens of the question, reaches the limit.
  pub token_budget_spent :
      (t now user tokens : ℕ) (st : Store)
      → 0 < tokens
      → t ≤ now
      → day_of s r now ≡ day_of s r t
      → (token_budget_dependency s r now user (record_token_usage s r t user tokens st)
          ≡ err exhausted)
        ↔ (s.max_tokens_per_day
            ≤ value_of s r (entry st t (token_budget user (day_of s r t))) + tokens)
  unfolding token_budget_dependency
  token_budget_spent t now user tokens st pos le same =
      let key = token_budget user (day_of s r t) in
      let st' = record_token_usage s r t user tokens st in
      let soon : now < t + 86400 = omega (arith, same) in
      let counted = entry-record_token_usage t user tokens st pos in
      let later = entry-later st' t now key le in
      (λ h. ground (arith, later), λ h. ground (arith, later))
