-- ===== src/Access/Scopes.antt =====
-- What the checks of middleware/auth.py let through.
use mathlib.Core.List.{Memᴰ}
use pipe_line_gpt_backend.Prelude.{
  ℕ, String, ◌≡◌, refl, true, Option, none, some, List, [], ◌∷◌, find, find-holds, ap, sym, any,
  ◌==◌, arith, if◌then◌else◌, Bool-cases, Option-cases, ◌∙◌, inl, inr, ==_iff,
}
use pipe_line_gpt_backend.Exec.{ok, err, Outcome-cases, http}
use pipe_line_gpt_backend.Config.{Settings}
use pipe_line_gpt_backend.Models.{Role, User, active}
use pipe_line_gpt_backend.Access.{
  Crypto, Payload, TokenScope, full, scope_eq, resolve_user, get_current_user,
  get_user_allow_mfa_setup, require_role, role_eq, create_access_token, token_claims, check_user,
  lookup_sub, with_payload, scope_in,
}

-- A caller who passes `resolve_user`: the token decodes to claims whose scope the route accepts, and
-- the user that it names is in the table and active.
pub record IsSession (s : Settings) (c : Crypto) (users : List User) (now : ℕ)
    (allowed : List TokenScope) (token : Option String) (u : User) : Type 0 where
  pub raw : String
  pub sent : token ≡ some raw
  pub claims : Payload
  pub decodes : c.jwt_decode s.jwt_secret now raw ≡ some claims
  pub scope : TokenScope
  pub has_scope : claims.scope ≡ some scope
  pub accepted : Memᴰ scope allowed
  pub names_user : claims.sub ≡ some u.id
  pub in_table : find (λ v. v.id == u.id) users ≡ some u
  pub is_active_user : u.status ≡ active

scope_eq-eq : (a b : TokenScope) → scope_eq a b ≡ true → a ≡ b
scope_eq-eq a b h = ground arith

any-scope_eq-mem :
    (sc : TokenScope) (allowed : List TokenScope)
    → any (scope_eq sc) allowed ≡ true
    → Memᴰ sc allowed
any-scope_eq-mem sc [] h = cc
any-scope_eq-mem sc (a ∷ rest) h = elim (Bool-cases (scope_eq sc a)) [
  | inl e ↦ Memᴰ.head (scope_eq-eq sc a e)
  | inr n ↦ Memᴰ.tail (any-scope_eq-mem sc rest (rw n at h))
]

scope_in-mem :
    (o : Option TokenScope) (allowed : List TokenScope)
    → scope_in o allowed ≡ true
    → (sc : TokenScope) × (o ≡ some sc) × Memᴰ sc allowed
scope_in-mem none allowed h = cc
scope_in-mem (some sc) allowed h = (sc, refl, any-scope_eq-mem sc allowed h)

check_user-ok :
    (o : Option User) {u : User} → check_user o ≡ ok u → (o ≡ some u) × (u.status ≡ active)
check_user-ok none h = cc
check_user-ok (some v) h = ground arith

lookup_sub-ok :
    (users : List User) (sub : Option ℕ) {u : User}
    → lookup_sub users sub ≡ ok u
    → (sub ≡ some u.id) × (find (λ v. v.id == u.id) users ≡ some u) × (u.status ≡ active)
lookup_sub-ok users none h = cc
lookup_sub-ok users (some id) {u} h =
    let (found, act) = check_user-ok (find (λ v. v.id == id) users) h in
    let same : u.id ≡ id = (==_iff u.id id).0 (find-holds (λ v. v.id == id) users u found) in
    (ap some (sym same), simp same found, act)

module _ (s : Settings) (c : Crypto) (users : List User) (now : ℕ) where
  claims-IsSession :
      (raw : String) (allowed : List TokenScope) (p : Payload) (u : User)
      → c.jwt_decode s.jwt_secret now raw ≡ some p
      → with_payload users allowed (ok p) ≡ ok u
      → IsSession s c users now allowed (some raw) u
  claims-IsSession raw allowed p u e h = elim (Bool-cases (scope_in p.scope allowed)) [
    | inl ok_scope ↦
        let (sc, has, mem) = scope_in-mem p.scope allowed ok_scope in
        let (named, found, act) = lookup_sub-ok users p.sub (rw ok_scope at h) in
        record {
          raw = raw;
          sent = refl;
          claims = p;
          decodes = e;
          scope = sc;
          has_scope = has;
          accepted = mem;
          names_user = named;
          in_table = found;
          is_active_user = act;
        }
    | inr bad ↦ absurd (ground arith)
  ]

  -- Whoever passes the check of a route holds a token that decodes, whose scope the route accepts,
  -- and that names an active user of the table.
  pub resolve_user-IsSession :
      (token : Option String) (allowed : List TokenScope) (u : User)
      → resolve_user s c users now token allowed ≡ ok u
      → IsSession s c users now allowed token u
  unfolding resolve_user
  resolve_user-IsSession none allowed u h = cc
  resolve_user-IsSession (some raw) allowed u h =
      elim (Option-cases (c.jwt_decode s.jwt_secret now raw)) [
        | inl e ↦ absurd (ground arith)
        | inr (p, e) ↦ claims-IsSession raw allowed p u e (ground arith)
      ]

  -- Whoever passes `require_role` holds a token of the full scope, never an enrollment token, that
  -- decodes and names an active user of the table, whose role is one of those that the route lists.
  pub require_role-IsSession :
      (roles : List Role) (token : Option String) (u : User)
      → require_role roles s c users now token ≡ ok u
      → IsSession s c users now (full ∷ []) token u × (any (role_eq u.role) roles ≡ true)
  unfolding require_role get_current_user
  require_role-IsSession roles token u h =
      elim (Outcome-cases (resolve_user s c users now token (full ∷ []))) [
        | inl (v, e) ↦
            let same : v ≡ u = ground arith in
            (resolve_user-IsSession token (full ∷ []) u (e ∙ ap ok same), ground arith)
        | inr (x, e) ↦ absurd (ground arith)
      ]

-- As long as it decodes, a token of the full scope made for an active user identifies that user
-- everywhere; a token of the enrollment scope does so on the enrollment routes, and is refused by
-- every other route with 403. Assumed of jose: the token decodes to the claims that it was made from.
pub create_access_token-resolve :
    (s : Settings) (c : Crypto) (users : List User) (issued now jti : ℕ) (u : User)
    (scope : TokenScope)
    → (let claims = token_claims s issued jti u.id u.role scope in
        c.jwt_decode s.jwt_secret now (c.jwt_encode s.jwt_secret claims) ≡ some claims)
    → find (λ v. v.id == u.id) users ≡ some u
    → u.status ≡ active
    → let t = some (create_access_token s c issued jti u.id u.role scope) in
      (get_user_allow_mfa_setup s c users now t ≡ ok u)
      × (get_current_user s c users now t
          ≡ (if scope_eq scope full then ok u else err (http 403 "MFA enrollment required")))
unfolding create_access_token get_current_user get_user_allow_mfa_setup resolve_user
create_access_token-resolve s c users issued now jti u scope decodes found act = ground arith
