-- ===== src/Session/Revocation.antt =====
-- What revoking does, and that a refresh of what is revoked, used or expired is refused.
use mathlib.Core.List.{Memᴰ}
use backend_bmo_blabs.Base.{
  ℕ, ◌≡◌, refl, sym, ap, subst, inl, inr, Bool, true, some, List, Result, err, ◌==◌, is_some, arith,
  All, Option-cases,
}
use backend_bmo_blabs.Database.{Database, assign, All-map, All-every, All-mem}
use backend_bmo_blabs.Errors.{P9Error, unauthenticated}
use backend_bmo_blabs.Session.Rows.{SessionRow, RefreshTokenRow, RevokedReason, AuditEvent, Tables}
use backend_bmo_blabs.Session.{
  Services, SessionTokens, Fresh, revoke_family, record_audit, find_token, is_invalid, reject,
  refresh_stored, refresh,
}

-- Every token and every session of the family is revoked.
pub record FamilyRevoked (family : ℕ) (s : Tables) : Type 0 where
  pub tokens : All (λ t. t.family_id ≡ family → is_some t.revoked_at ≡ true) s.tokens
  pub sessions : All (λ r. r.family_id ≡ family → is_some r.revoked_at ≡ true) s.sessions

-- What holds of every row after an update that writes it so, or leaves it so.
pub All-updated :
    (db : Database) {Row : Type 0} (P : Row → Type 0) (p : Row → Bool) (f : Row → Row)
    → ((r : Row) → P (assign p f r))
    → (t : List Row) → All P (db.update_many p f t).0
All-updated db P p f h t =
    subst (All P) (sym (ap (λ u. u.0) (db.updated p f t))) (
      All-map (λ r. Unit {0}) P (assign p f) (λ r _. h r) t (All-every (λ r. Unit {0}) (λ r. tt) t))

-- A rejection commits the revocation of the family, and then fails.
pub record Rejects (family : ℕ) (c : Tables × Result P9Error SessionTokens) : Type 0 where
  pub fails : c.1 ≡ err unauthenticated
  pub revoked : FamilyRevoked family c.0

module _ (env : Services) where
  open env use {db}

  revoke_family-FamilyRevoked :
      (family now : ℕ) (reason : RevokedReason) (s : Tables)
      → FamilyRevoked family (revoke_family env family now reason s)
  unfolding revoke_family
  revoke_family-FamilyRevoked family now reason s = record {
    tokens = All-updated db _ _ _ (λ t h. ground arith) s.tokens;
    sessions = All-updated db _ _ _ (λ r h. ground arith) s.sessions;
  }

  pub reject-Rejects :
      (event : AuditEvent) (reason : RevokedReason) (now : ℕ) (t : RefreshTokenRow) (r : SessionRow)
      (s : Tables)
      → Rejects t.family_id (reject env event reason now t r s)
  unfolding reject record_audit
  reject-Rejects event reason now t r s =
      let v = revoke_family-FamilyRevoked t.family_id now reason s in
      record { fails = refl; revoked = record { tokens = v.tokens; sessions = v.sessions } }

  pub refresh_stored-Rejects :
      (fresh : Fresh) (now : ℕ) (t : RefreshTokenRow) (r : SessionRow) (s : Tables)
      → is_invalid env now t r ≡ true
      → Rejects t.family_id (refresh_stored env fresh now t r s)
  unfolding refresh_stored
  refresh_stored-Rejects fresh now t r s bad = rw bad (reject-Rejects _ _ now t r s)

  -- A refresh whose token is found, before and under the lock, for the same user.
  pub refresh_taken :
      (token : ℕ) (fresh : Fresh) (now : ℕ) (waited : Tables → Tables) (s : Tables)
      (t₀ t : RefreshTokenRow) (r₀ r : SessionRow)
      → find_token env (env.sha256_hex token) s ≡ some (t₀, r₀)
      → find_token env (env.sha256_hex token) (waited s) ≡ some (t, r)
      → r.user_id ≡ r₀.user_id
      → refresh env token fresh now waited s ≡ refresh_stored env fresh now t r (waited s)
  unfolding refresh
  refresh_taken token fresh now waited s t₀ t r₀ r seen locked same =
      rw (seen, refresh) (rw (locked, refresh) (ground arith))

  -- A refresh whose token is found, under the lock, to be used, revoked or expired, or to belong to
  -- a session that is revoked or expired, fails and revokes every token and session of its family.
  pub refresh_invalid :
      (token : ℕ) (fresh : Fresh) (now : ℕ) (waited : Tables → Tables) (s : Tables)
      (t₀ t : RefreshTokenRow) (r₀ r : SessionRow)
      → find_token env (env.sha256_hex token) s ≡ some (t₀, r₀)
      → find_token env (env.sha256_hex token) (waited s) ≡ some (t, r)
      → r.user_id ≡ r₀.user_id
      → is_invalid env now t r ≡ true
      → Rejects t.family_id (refresh env token fresh now waited s)
  refresh_invalid token fresh now waited s t₀ t r₀ r seen locked same bad =
      subst (Rejects t.family_id)
        (sym (refresh_taken token fresh now waited s t₀ t r₀ r seen locked same))
        (refresh_stored-Rejects fresh now t r (waited s) bad)

  -- What `find_token` returns is stored, and is the token with its session.
  pub find_token_found :
      (token_hash : ℕ) (s : Tables) (t : RefreshTokenRow) (r : SessionRow)
      → find_token env token_hash s ≡ some (t, r)
      → Memᴰ t s.tokens × (t.token_hash ≡ token_hash) × Memᴰ r s.sessions × (r.id ≡ t.session_id)
  unfolding find_token
  find_token_found token_hash s t r e =
      elim (Option-cases (db.find_first (λ t. t.token_hash == token_hash) s.tokens)) [
        | inl missing ↦ absurd (ground arith)
        | inr (t', at) ↦
            elim (Option-cases (db.find_first (λ r. r.id == t'.session_id) s.sessions)) [
              | inl missing ↦ absurd (ground arith)
              | inr (r', has) ↦
                  let same_t : t' ≡ t = ground arith in
                  let same_r : r' ≡ r = ground arith in
                  let (hash, stored) = db.found _ s.tokens t' at in
                  let (id, kept) = db.found _ s.sessions r' has in
                  (
                    subst (λ q. Memᴰ q s.tokens) same_t stored,
                    ground arith,
                    subst (λ q. Memᴰ q s.sessions) same_r kept,
                    ground arith,
                  )
            ]
      ]

  -- In a family that is revoked no token can be refreshed: `find_token` finds only tokens that fail.
  pub revoked-is_invalid :
      (token_hash now : ℕ) (s : Tables) (t : RefreshTokenRow) (r : SessionRow)
      → FamilyRevoked t.family_id s
      → find_token env token_hash s ≡ some (t, r)
      → is_invalid env now t r ≡ true
  unfolding is_invalid
  revoked-is_invalid token_hash now s t r v e =
      let stored = (find_token_found token_hash s t r e).0 in
      let gone = All-mem _ s.tokens t v.tokens stored refl in ground (arith, gone)
