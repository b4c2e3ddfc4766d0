-- ===== src/RateLimit/SingleUse.antt =====
-- A TOTP code that was accepted is refused for as long as its mark lives.
use pipe_line_gpt_backend.Prelude.{
  ℕ, ◌+◌, ◌≤◌, ◌<◌, String, ◌≡◌, ◌↔◌, true, false, none, some, arith, eq_refl, Option-cases, inl,
  inr,
}
use pipe_line_gpt_backend.Config.{Settings}
use pipe_line_gpt_backend.Redis.{Redis, totp_used}
use pipe_line_gpt_backend.RateLimit.{claim_totp_code}

module _ (s : Settings) (r : Redis) where
  open r use {Store, entry, set_nx, set_nx-new, set_nx-old, entry-set_nx, entry-later}

  -- A claim succeeds exactly when the user has no live mark for the code.
  pub claim_totp_code_iff :
      (now user : ℕ) (code : String) (st : Store)
      → ((claim_totp_code s r now user code st).1 ≡ true)
        ↔ (entry st now (totp_used user code) ≡ none)
  unfolding claim_totp_code
  claim_totp_code_iff now user code st = (
    λ won. elim (Option-cases (entry st now (totp_used user code))) [
      | inl e ↦ e
      | inr (e, is) ↦ absurd (ground (arith, set_nx-old st now (totp_used user code) 120 e is))
    ],
    λ free. set_nx-new st now (totp_used user code) 120 free,
  )

  -- After an accepted claim every claim of the same code by the same user in the next 120 seconds
  -- is refused and leaves the store as it was.
  pub claim_totp_code_once :
      (t now user : ℕ) (code : String) (st : Store)
      → (claim_totp_code s r t user code st).1 ≡ true
      → t ≤ now
      → now < t + 120
      → let st' = (claim_totp_code s r t user code st).0 in
        claim_totp_code s r now user code st' ≡ (st', false)
  unfolding claim_totp_code
  claim_totp_code_once t now user code st won le lt =
      let key = totp_used user code in
      let st' = (set_nx st t key 120).0 in
      let marked : entry st' t key ≡ some (record { value = 1; deadline = some (t + 120) }) =
        ground (
          arith,
          entry-set_nx st t key 120 key ((claim_totp_code_iff t user code st).0 won),
          eq_refl code,
        ) in
      set_nx-old st' now key 120 (record { value = 1; deadline = some (t + 120) })
        (ground (arith, entry-later st' t now key le))
