-- ===== src/Session/Rotation.antt =====
-- A refresh token is good for one refresh: what rotation writes, and what a replay then does.
use mathlib.Core.List.{Memᴰ}
use backend_bmo_blabs.Base.{
  ℕ, ◌≡◌, ◌≢◌, refl, sym, ap, subst, ◌∙◌, inl, inr, true, ◌&&◌, ◌||◌, not, none, some, [], ◌∷◌,
  ◌++◌, map, ok, ◌==◌, is_some, arith, All, Option-cases,
}
use backend_bmo_blabs.Database.{
  assign, All-map, All-mem, All-append_one, mem-map_of_mem, mem-append_of_mem,
}
use backend_bmo_blabs.Session.Rows.{SessionRow, RefreshTokenRow, Tables}
use backend_bmo_blabs.Session.Revocation.{Rejects, refresh_invalid, refresh_taken, find_token_found}
use backend_bmo_blabs.Session.{
  Services, SessionTokens, Fresh, record_audit, find_token, is_invalid, rotate, refresh_stored,
  reject, mark_used, refreshed, refresh,
}

module _ (env : Services) where
  open env use {db, sha256_hex}

  -- The constraint that token hashes are unique: a row with this hash is this row.
  abbrev pub Unique : RefreshTokenRow → Tables → Type 0
  Unique t s = All (λ q. q.token_hash ≡ t.token_hash → q ≡ t) s.tokens

  -- A token that has been used or revoked.
  abbrev IsSpent : RefreshTokenRow → Type 0
  IsSpent q = (is_some q.used_at || is_some q.revoked_at) ≡ true

  module _ (fresh : Fresh) (now : ℕ) (t : RefreshTokenRow) (r : SessionRow) (s : Tables) where
    abbrev marked : Tables
    marked = record s { tokens = (mark_used env now t s).0 }

    abbrev successor : RefreshTokenRow
    successor = record {
      id = fresh.token_id;
      session_id = t.session_id;
      family_id = t.family_id;
      token_hash = sha256_hex fresh.refresh_token;
      expires_at = r.expires_at;
      used_at = none;
      revoked_at = none;
    }

    refresh_ok :
        (a : SessionTokens)
        → (refresh_stored env fresh now t r s).1 ≡ ok a
        → ((refresh_stored env fresh now t r s).0 ≡ rotate env fresh now t r marked)
          × (a ≡ refreshed env fresh now t r)
    unfolding refresh_stored reject
    refresh_ok a e = ground arith

    rotate_tokens :
        (rotate env fresh now t r marked).tokens ≡ (mark_used env now t s).0 ++ successor ∷ []
    unfolding rotate record_audit
    rotate_tokens = db.created successor (mark_used env now t s).0

    -- A row after the token has been marked.
    abbrev mark : RefreshTokenRow → RefreshTokenRow
    mark =
        assign (λ q. q.id == t.id && not (is_some q.used_at) && not (is_some q.revoked_at))
          (λ q. record q { used_at = some now })

    marked_tokens : (mark_used env now t s).0 ≡ map mark s.tokens
    unfolding mark_used
    marked_tokens = ap (λ u. u.0) (db.updated _ _ s.tokens)

    mark_hash : (q : RefreshTokenRow) → (mark q).token_hash ≡ q.token_hash
    mark_hash q = ground arith

    mark_place : (mark t).family_id ≡ t.family_id × ((mark t).session_id ≡ t.session_id)
    mark_place = ground arith

    mark_spent : (later : ℕ) (r' : SessionRow) → is_invalid env later (mark t) r' ≡ true
    unfolding is_invalid
    mark_spent later r' = ground arith

    -- After the rotation every row with the old token's hash is the old row, marked.
    rotated_old :
        Unique t s
        → sha256_hex fresh.refresh_token ≢ t.token_hash
        → All
            (λ q. q.token_hash ≡ t.token_hash → q ≡ mark t)
            (rotate env fresh now t r marked).tokens
    rotated_old uniq new_hash =
        rw (rotate_tokens, marked_tokens)
          (All-append_one _ _ successor
            (All-map (λ q. q.token_hash ≡ t.token_hash → q ≡ t)
              (λ q. q.token_hash ≡ t.token_hash → q ≡ mark t) mark
              (λ q h e. ap mark (h (sym (mark_hash q) ∙ e))) s.tokens uniq)
            (λ same. absurd (new_hash same)))

    rotated_kept : Memᴰ t s.tokens → Memᴰ (mark t) (rotate env fresh now t r marked).tokens
    rotated_kept m =
        rw (rotate_tokens, marked_tokens)
          (mem-append_of_mem _ (successor ∷ []) (mark t) (mem-map_of_mem mark s.tokens t m))

    -- The session is still there, under its id.
    rotated_session :
        Memᴰ r s.sessions
        → (r' : SessionRow) × Memᴰ r' (rotate env fresh now t r marked).sessions × (r'.id ≡ r.id)
    unfolding rotate record_audit
    rotated_session m = (
      assign (λ q. q.id == t.session_id) (λ q. record q { last_used_at = some now }) r,
      subst (Memᴰ _) (sym (ap (λ u. u.0) (db.updated _ _ s.sessions)))
          (mem-map_of_mem _ s.sessions r m),
      ground arith,
    )

    -- So the old token is found again, spent.
    find_rotated :
        Unique t s
        → sha256_hex fresh.refresh_token ≢ t.token_hash
        → Memᴰ t s.tokens
        → Memᴰ r s.sessions
        → r.id ≡ t.session_id
        → (r' : SessionRow) × (find_token env t.token_hash (rotate env fresh now t r marked)
            ≡ some (mark t, r'))
    unfolding find_token
    find_rotated uniq new_hash mt mr ids =
        let s₁ = rotate env fresh now t r marked in
        elim (Option-cases (db.find_first (λ q. q.token_hash == t.token_hash) s₁.tokens)) [
          | inl missing ↦
              let never =
                All-mem _ s₁.tokens (mark t) (db.missed _ s₁.tokens missing) (rotated_kept mt) in
              absurd (ground (arith, never, mark_hash t))
          | inr (t', at) ↦
              let (hash, stored) = db.found _ s₁.tokens t' at in
              let old : t' ≡ mark t =
                All-mem _ s₁.tokens t' (rotated_old uniq new_hash) stored (ground arith) in
              let (r₁, kept, same) = rotated_session mr in
              elim (Option-cases (db.find_first (λ q. q.id == t'.session_id) s₁.sessions)) [
                | inl missing ↦
                    let never = All-mem _ s₁.sessions r₁ (db.missed _ s₁.sessions missing) kept in
                    absurd (ground (arith, never, mark_place))
                | inr (r', has) ↦
                    (r', rw (at, find_token) (rw (has, find_token) (ap (λ q. some (q, r')) old)))
              ]
        ]

  -- A refresh token is good for one refresh. If a refresh has succeeded, presenting the same token
  -- again fails, and revokes every token and session of its family, the new token among them. (The
  -- hashes of stored tokens are unique, and the new token's hash is not the old one's.)
  pub replay_revokes_family :
      (token : ℕ) (fresh fresh' : Fresh) (now later : ℕ) (waited : Tables → Tables) (s : Tables)
      (t₀ t : RefreshTokenRow) (r₀ r : SessionRow) (a : SessionTokens)
      → find_token env (sha256_hex token) s ≡ some (t₀, r₀)
      → find_token env (sha256_hex token) (waited s) ≡ some (t, r)
      → r.user_id ≡ r₀.user_id
      → (refresh env token fresh now waited s).1 ≡ ok a
      → Unique t (waited s)
      → sha256_hex fresh.refresh_token ≢ sha256_hex token
      → Rejects t.family_id
          (refresh env token fresh' later (λ x. x) (refresh env token fresh now waited s).0)
  replay_revokes_family token fresh fresh' now later waited s t₀ t r₀ r a seen locked same done uniq
        new_hash =
      let taken = refresh_taken env token fresh now waited s t₀ t r₀ r seen locked same in
      let (mt, hash, mr, ids) = find_token_found env (sha256_hex token) (waited s) t r locked in
      let (s₁_eq, _) = refresh_ok fresh now t r (waited s) a (ap (λ u. u.1) (sym taken) ∙ done) in
      let after : (refresh env token fresh now waited s).0
          ≡ rotate env fresh now t r (marked fresh now t r (waited s)) =
        ap (λ u. u.0) taken ∙ s₁_eq in
      let (r', again) =
        find_rotated fresh now t r (waited s) uniq (λ e. new_hash (e ∙ hash)) mt mr ids in
      let again' =
        subst
          (λ h.
            find_token env h (rotate env fresh now t r (marked fresh now t r (waited s)))
            ≡ some (mark fresh now t r (waited s) t, r'))
          hash again in
      subst
        (λ f.
          Rejects f
            (refresh env token fresh' later (λ x. x) (refresh env token fresh now waited s).0))
        (mark_place fresh now t r (waited s)).0
        (subst
          (λ u.
            Rejects (mark fresh now t r (waited s) t).family_id
              (refresh env token fresh' later (λ x. x) u))
          (sym after)
          (refresh_invalid env token fresh' later (λ x. x) _ _ _ r' r' again' again' refl
            (mark_spent fresh now t r (waited s) later r')))
