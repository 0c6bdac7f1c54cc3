-- ===== src/Invitation/Once.antt =====
-- An invitation is used once.
use mathlib.Core.List.{Memᴰ}
use backend_bmo_blabs.Base.{
  ℕ, ◌≤◌, ◌<◌, ◌≡◌, refl, sym, ap, subst, inl, inr, Bool, true, false, ◌&&◌, ◌||◌, not, Option,
  none, some, List, [], ◌∷◌, map, ok, err, ltb, ◌==◌, arith, Bool-cases, Option-cases,
}
use backend_bmo_blabs.Database.{
  assign, count, count-append_one, count-map_le, count-map_lt, count-mem, count-zero,
}
use backend_bmo_blabs.Invitation.{
  InvitationRow, InvitationStatus, Tables, Services, is_active, find_invitation, expire,
  expire_if_needed, create, revoke, invalid, is_refused, accept, consume_for_registration, Call,
  step, run,
}

abbrev pub has_hash : ℕ → InvitationRow → Bool
has_hash h r = r.token_hash == h

abbrev pub is_open : ℕ → InvitationRow → Bool
is_open h r = r.token_hash == h && is_active r

-- The hash has an invitation, and none that is active.
pub record IsSpent (h : ℕ) (rows : List InvitationRow) : Type 0 where
  pub exists : 0 < count (has_hash h) rows
  pub closed : count (is_open h) rows ≡ 0

-- A write that keeps the hash and makes nothing active.
pub record Closes (f : InvitationRow → InvitationRow) : Type 0 where
  pub hash : (r : InvitationRow) → (f r).token_hash ≡ r.token_hash
  pub status : (r : InvitationRow) → is_active (f r) ≡ true → is_active r ≡ true

count-map_same :
    (h : ℕ) (f : InvitationRow → InvitationRow)
    → ((r : InvitationRow) → (f r).token_hash ≡ r.token_hash)
    → (t : List InvitationRow) → count (has_hash h) (map f t) ≡ count (has_hash h) t
count-map_same h f same [] = refl
count-map_same h f same (r ∷ t) =
    let e = same r in let rest = count-map_same h f same t in ground arith

assign-Closes :
    (p : InvitationRow → Bool) (f : InvitationRow → InvitationRow) → Closes f → Closes (assign p f)
assign-Closes p f c = record {
  hash = λ r. elim (Bool-cases (p r)) [ inl y ↦ rw y (c.hash r) | inr other ↦ rw other refl ];
  status =
      λ r. elim (Bool-cases (p r)) [ inl y ↦ rw y (c.status r) | inr other ↦ rw other (λ e. e) ];
}

map-IsSpent :
    (h : ℕ) (f : InvitationRow → InvitationRow)
    → Closes f
    → (t : List InvitationRow) → IsSpent h t
    → IsSpent h (map f t)
map-IsSpent h f c t v =
    let same = count-map_same h f c.hash t in
    let less =
      count-map_le (is_open h) f (λ r e. let k = c.hash r in let o = c.status r in ground arith)
        t in
    let old = v.exists in
    let none_open = v.closed in record { exists = omega arith; closed = omega arith }

open_le : (h : ℕ) (t : List InvitationRow) → count (is_open h) t ≤ count (has_hash h) t
open_le h [] = omega arith
open_le h (r ∷ t) = let rest = open_le h t in ground arith

module _ (env : Services) where
  open env use {db, sha256_hex, normalize_email}

  updated-IsSpent :
      (h : ℕ) (p : InvitationRow → Bool) (f : InvitationRow → InvitationRow)
      → Closes f
      → (t : List InvitationRow) → IsSpent h t
      → IsSpent h (db.update_many p f t).0
  updated-IsSpent h p f c t v =
      subst (IsSpent h) (sym (ap (λ u. u.0) (db.updated p f t)))
        (map-IsSpent h (assign p f) (assign-Closes p f c) t v)

  create-IsSpent :
      (h email expires_at : ℕ) (by : Option ℕ) (secret id : ℕ) (s : Tables)
      → IsSpent h s.invitations
      → IsSpent h (create env email expires_at by secret id s).0.invitations
  unfolding create find_invitation
  create-IsSpent h email expires_at by secret id s v =
      elim (Option-cases (db.find_first (has_hash (sha256_hex secret)) s.invitations)) [
        | inr (r, at) ↦ rw (at, create) v
        | inl free ↦
            let zero_rows =
              count-zero (has_hash (sha256_hex secret)) s.invitations (db.missed _ _ free) in
            let far : (sha256_hex secret == h) ≡ false =
              elim (Bool-cases (sha256_hex secret == h)) [
                | inl y ↦
                    let e : sha256_hex secret ≡ h = ground arith in
                    let old = subst (λ x. 0 < count (has_hash x) s.invitations) (sym e) v.exists in
                    absurd (omega arith)
                | inr other ↦ other
              ] in
            let row : InvitationRow = record {
              id = id;
              email = normalize_email email;
              token_hash = sha256_hex secret;
              status = InvitationStatus.active;
              expires_at = expires_at;
              accepted_at = none;
              revoked_at = none;
              created_by = by;
            } in
            let a = count-append_one (has_hash h) s.invitations row in
            let b = count-append_one (is_open h) s.invitations row in
            let old = v.exists in
            let none_open = v.closed in
            rw (free, create)
              (rw (db.created row s.invitations)
                (record { exists = ground arith; closed = ground arith }))
      ]

  expire-IsSpent :
      (h secret now : ℕ) (s : Tables)
      → IsSpent h s.invitations
      → IsSpent h (expire_if_needed env secret now s).invitations
  unfolding expire_if_needed expire
  expire-IsSpent h secret now s v =
      elim (Option-cases (find_invitation env (sha256_hex secret) s)) [
        | inl missing ↦ rw (missing, expire_if_needed) v
        | inr (r, at) ↦ elim (Bool-cases (not (is_active r) || ltb now r.expires_at)) [
          | inl kept ↦ rw (at, expire_if_needed) (rw kept v)
          | inr late ↦
              rw (at, expire_if_needed)
                (rw late (
                  updated-IsSpent h _ _
                    (record { hash = λ q. refl; status = λ q e. absurd (ground arith) })
                    s.invitations v))
        ]
      ]

  revoke-IsSpent :
      (h id now : ℕ) (s : Tables)
      → IsSpent h s.invitations
      → IsSpent h (revoke env id now s).0.invitations
  unfolding revoke
  revoke-IsSpent h id now s v =
      let w =
        updated-IsSpent h (λ r. r.id == id && is_active r)
          (λ r. record r { status = InvitationStatus.revoked; revoked_at = some now })
          (record { hash = λ q. refl; status = λ q e. absurd (ground arith) }) s.invitations v in
      elim (Bool-cases (
        not (
          (db.update_many (λ r. r.id == id && is_active r)
            (λ r. record r { status = InvitationStatus.revoked; revoked_at = some now })
            s.invitations).1
          == 1))) [ inl lost ↦ rw (lost, revoke) w | inr won ↦ rw (won, revoke) w ]

  abbrev accepted_row : ℕ → InvitationRow → InvitationRow
  accepted_row now r = record r { status = InvitationStatus.accepted; accepted_at = some now }

  accepted_row-Closes : (now : ℕ) → Closes (accepted_row now)
  accepted_row-Closes now = record { hash = λ q. refl; status = λ q e. absurd (ground arith) }

  -- A use of a spent invitation is refused, and writes nothing.
  consume_spent :
      (secret email now : ℕ) (s : Tables)
      → IsSpent (sha256_hex secret) s.invitations
      → consume_for_registration env secret email now s ≡ (s, err invalid)
  unfolding consume_for_registration is_refused find_invitation
  consume_spent secret email now s v =
      elim (Option-cases (db.find_first (has_hash (sha256_hex secret)) s.invitations)) [
        | inl missing ↦ rw (missing, consume_for_registration) refl
        | inr (r, at) ↦
            let (hit, m) = db.found _ _ r at in
            let shut : is_active r ≡ false = elim (Bool-cases (is_active r)) [
              | inl y ↦
                  let some_open =
                    count-mem (is_open (sha256_hex secret)) s.invitations r m (ground arith) in
                  let none_open = v.closed in absurd (omega arith)
              | inr other ↦ other
            ] in
            rw (at, consume_for_registration) (rw shut refl)
      ]

  consume-IsSpent :
      (h secret email now : ℕ) (s : Tables)
      → IsSpent h s.invitations
      → IsSpent h (consume_for_registration env secret email now s).0.invitations
  unfolding consume_for_registration accept
  consume-IsSpent h secret email now s v =
      elim (Option-cases (find_invitation env (sha256_hex secret) s)) [
        | inl missing ↦ rw (missing, consume_for_registration) v
        | inr (r, at) ↦ elim (Bool-cases (is_refused env (normalize_email email) now r)) [
          | inl bad ↦ rw (at, consume_for_registration) (rw bad v)
          | inr good ↦
              let w : IsSpent h (accept env (normalize_email email) now r s).0 =
                updated-IsSpent h _ _ (accepted_row-Closes now) s.invitations v in
              elim (Bool-cases (not ((accept env (normalize_email email) now r s).1 == 1))) [
                | inl lost ↦ rw (at, consume_for_registration) (rw good (rw lost w))
                | inr won ↦ rw (at, consume_for_registration) (rw good (rw won w))
              ]
        ]
      ]

  step-IsSpent :
      (h : ℕ) (s : Tables) (c : Call)
      → IsSpent h s.invitations
      → IsSpent h (step env s c).invitations
  unfolding step
  step-IsSpent h s (Call.expires secret now) v = expire-IsSpent h secret now s v
  step-IsSpent h s (Call.creates email expires_at by secret id) v =
      create-IsSpent h email expires_at by secret id s v
  step-IsSpent h s (Call.revokes id now) v = revoke-IsSpent h id now s v
  step-IsSpent h s (Call.consumes secret email now) v = consume-IsSpent h secret email now s v

  run-IsSpent :
      (h : ℕ) (s : Tables) (cs : List Call)
      → IsSpent h s.invitations
      → IsSpent h (run env s cs).invitations
  unfolding run
  run-IsSpent h s [] v = v
  run-IsSpent h s (c ∷ cs) v = run-IsSpent h (step env s c) cs (step-IsSpent h s c v)

  accept-IsSpent :
      (email now : ℕ) (r : InvitationRow) (s : Tables)
      → count (has_hash r.token_hash) s.invitations ≤ 1
      → Memᴰ r s.invitations
      → is_refused env email now r ≡ false
      → IsSpent r.token_hash (accept env email now r s).0
  unfolding accept is_refused
  accept-IsSpent email now r s unique m good =
      let test : InvitationRow → Bool =
        λ q. q.id == r.id && is_active q && ltb now q.expires_at && q.email == email in
      let f = assign test (accepted_row now) in
      let closes = assign-Closes test (accepted_row now) (accepted_row-Closes now) in
      let h = r.token_hash in
      let open_row : is_open h r ≡ true = ground arith in
      let selected : test r ≡ true = ground arith in
      let ended : is_open h (f r) ≡ false = rw selected (ground arith) in
      let less =
        count-map_lt (is_open h) f
          (λ q e. let k = closes.hash q in let o = closes.status q in ground arith) s.invitations r
          m open_row ended in
      let some_row = count-mem (has_hash h) s.invitations r m (ground arith) in
      let same = count-map_same h f closes.hash s.invitations in
      let within = open_le h s.invitations in
      subst (IsSpent h) (sym (ap (λ u. u.0) (db.updated test (accepted_row now) s.invitations)))
        (record { exists = omega arith; closed = omega arith })

  -- The use of an invitation that is answered with its id.
  used-IsSpent :
      (secret email now : ℕ) (s : Tables) (a : ℕ × ℕ)
      → count (has_hash (sha256_hex secret)) s.invitations ≤ 1
      → (consume_for_registration env secret email now s).1 ≡ ok a
      → IsSpent (sha256_hex secret) (consume_for_registration env secret email now s).0.invitations
  unfolding consume_for_registration find_invitation
  used-IsSpent secret email now s a unique =
      elim (Option-cases (db.find_first (has_hash (sha256_hex secret)) s.invitations)) [
        | inl missing ↦ rw (missing, consume_for_registration) (λ e. absurd (ground arith))
        | inr (r, at) ↦ elim (Bool-cases (is_refused env (normalize_email email) now r)) [
          | inl bad ↦ rw (at, consume_for_registration) (rw bad (λ e. absurd (ground arith)))
          | inr good ↦
              let (hit, m) = db.found _ _ r at in
              let same : r.token_hash ≡ sha256_hex secret = ground arith in
              let spent =
                subst
                  (λ x.
                    count (has_hash x) s.invitations ≤ 1
                    → IsSpent x (accept env (normalize_email email) now r s).0)
                  same (λ u. accept-IsSpent (normalize_email email) now r s u m good) unique in
              elim (Bool-cases (not ((accept env (normalize_email email) now r s).1 == 1))) [
                | inl lost ↦
                    rw (at, consume_for_registration)
                      (rw good (rw lost (λ e. absurd (ground arith))))
                | inr won ↦ rw (at, consume_for_registration) (rw good (rw won (λ e. spent)))
              ]
        ]
      ]

  -- Once an invitation has been used for a registration, whatever calls follow, its secret is
  -- refused with any email at any time, and that writes nothing. Token hashes are unique.
  pub used_once :
      (secret email now : ℕ) (s : Tables) (a : ℕ × ℕ)
      → count (has_hash (sha256_hex secret)) s.invitations ≤ 1
      → (consume_for_registration env secret email now s).1 ≡ ok a
      → (calls : List Call) (email' now' : ℕ)
      → let s' = run env (consume_for_registration env secret email now s).0 calls in
        consume_for_registration env secret email' now' s' ≡ (s', err invalid)
  used_once secret email now s a unique used calls email' now' =
      consume_spent secret email' now' _
        (run-IsSpent (sha256_hex secret) _ calls (used-IsSpent secret email now s a unique used))
