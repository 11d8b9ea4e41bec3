-- ===== src/Accounts/Tokens/Laws.antt =====
-- A session that is closed stays closed, and what a refresh yields.
use vehicle_lifecycle_manage.Base.{
  ℕ, ◌≡◌, refl, Option, none, List, [], ◌∷◌, ◌++◌, Bool, true, false, ◌==◌, ◌&&◌, ltb, arith,
  Bool-cases, inl, inr,
}
use vehicle_lifecycle_manage.Base.Lists.{any}
use vehicle_lifecycle_manage.Base.Text.{Text}
use vehicle_lifecycle_manage.Store.Rows.{RefreshToken}
use vehicle_lifecycle_manage.Store.Table.{find?, update_all, any-append_new}
use vehicle_lifecycle_manage.Store.Keeps.{Keeps}
use vehicle_lifecycle_manage.Store.World.{World}
use vehicle_lifecycle_manage.Accounts.Tokens.{
  Keys, has_jti, is_open, revoked_by, create_refresh_token, revoke_token, revoke_all_member_tokens,
  refresh_access_token,
}

abbrev pub is_live : ℕ → RefreshToken → Bool
is_live jti t = has_jti jti t && is_open t

-- The token was issued once, and it is revoked.
pub record IsClosed (jti : ℕ) (sessions : List RefreshToken) : Type 0 where
  pub known : any (has_jti jti) sessions ≡ true
  pub revoked : any (is_live jti) sessions ≡ false

any-revoke :
    (jti now : ℕ) (p : RefreshToken → Bool) (ts : List RefreshToken)
    → any (has_jti jti) (update_all p (revoked_by now) ts) ≡ any (has_jti jti) ts
any-revoke jti now p [] = refl
any-revoke jti now p (t ∷ ts) = ground (arith, any-revoke jti now p ts)

live-revoke :
    (jti now : ℕ) (p : RefreshToken → Bool) (ts : List RefreshToken)
    → any (is_live jti) ts ≡ false
    → any (is_live jti) (update_all p (revoked_by now) ts) ≡ false
live-revoke jti now p [] h = refl
live-revoke jti now p (t ∷ ts) h = ground (arith, live-revoke jti now p ts)

revoke-IsClosed :
    {jti : ℕ} (now : ℕ) (p : RefreshToken → Bool) {ts : List RefreshToken}
    → IsClosed jti ts
    → IsClosed jti (update_all p (revoked_by now) ts)
revoke-IsClosed {jti} now p {ts} c = record {
  known = rw (any-revoke jti now p ts) c.known;
  revoked = live-revoke jti now p ts c.revoked;
}

-- a revocation that reaches every open row of the token closes it
live-revoke_self :
    (jti now : ℕ) (p : RefreshToken → Bool) (ts : List RefreshToken)
    → ((t : RefreshToken) → is_live jti t ≡ true → p t ≡ true)
    → any (is_live jti) (update_all p (revoked_by now) ts) ≡ false
live-revoke_self jti now p [] reaches = refl
live-revoke_self jti now p (t ∷ ts) reaches =
    ground (arith, reaches t, live-revoke_self jti now p ts)

known-append :
    (jti : ℕ) (ts us : List RefreshToken)
    → any (has_jti jti) ts ≡ true
    → any (has_jti jti) (ts ++ us) ≡ true
known-append jti [] us h = cc
known-append jti (t ∷ ts) us h = ground (arith, known-append jti ts us)

known_apart :
    (j k : ℕ) (ts : List RefreshToken)
    → any (has_jti j) ts ≡ true
    → any (has_jti k) ts ≡ false
    → (k == j) ≡ false
known_apart j k [] known fresh = cc
known_apart j k (t ∷ ts) known fresh = ground (arith, known_apart j k ts)

append-IsClosed :
    {jti : ℕ} {ts : List RefreshToken} (t : RefreshToken)
    → IsClosed jti ts
    → any (has_jti t.jti) ts ≡ false
    → IsClosed jti (ts ++ t ∷ [])
append-IsClosed {jti} {ts} t c fresh = record {
  known = known-append jti ts (t ∷ []) c.known;
  revoked =
      any-append_new (is_live jti) ts t c.revoked
        (rw (known_apart jti t.jti ts c.known fresh) refl);
}

abbrev pub Closed : ℕ → World → Type 0
Closed jti w = IsClosed jti w.sessions

pub create_refresh_token-Closed :
    (jti k : ℕ) (user member : Option ℕ) (expires : ℕ)
    → Keeps (Closed jti) (create_refresh_token k user member expires)
unfolding create_refresh_token
create_refresh_token-Closed jti k user member expires w c =
    elim (Bool-cases (any (has_jti k) w.sessions)) [
      | inl taken ↦ rw taken c
      | inr fresh ↦ rw fresh (append-IsClosed _ c fresh)
    ]

pub revoke_token-Closed : (jti k : ℕ) → Keeps (Closed jti) (revoke_token k)
unfolding revoke_token
revoke_token-Closed jti k w c = revoke-IsClosed w.now _ c

pub revoke_all-Closed : (jti id : ℕ) → Keeps (Closed jti) (revoke_all_member_tokens id)
unfolding revoke_all_member_tokens
revoke_all-Closed jti id w c = revoke-IsClosed w.now _ c

-- A revocation closes a token that was issued.
pub revoke_token-closes :
    (jti : ℕ) (w : World) → any (has_jti jti) w.sessions ≡ true → Closed jti (revoke_token jti w).1
unfolding revoke_token
revoke_token-closes jti w known = record {
  known = rw (any-revoke jti w.now (is_live jti) w.sessions) known;
  revoked = live-revoke_self jti w.now (is_live jti) w.sessions (λ t h. h);
}

find?-closed :
    (jti now : ℕ) (ts : List RefreshToken)
    → any (is_live jti) ts ≡ false
    → find? (λ t. has_jti jti t && is_open t && ltb now t.expires_at) ts ≡ none
find?-closed jti now [] h = refl
find?-closed jti now (t ∷ ts) h = ground (arith, find?-closed jti now ts)

pub refresh-Closed :
    (keys : Keys) (raw : Text) (w : World)
    → Closed (keys.sha256 raw) w
    → refresh_access_token keys raw w ≡ none
unfolding refresh_access_token
refresh-Closed keys raw w c =
    rw (refresh_access_token, find?-closed (keys.sha256 raw) w.now w.sessions c.revoked) refl

-- So does one that reaches every open row of a token.
pub revoke_where-closes :
    (jti now : ℕ) (p : RefreshToken → Bool) (ts : List RefreshToken)
    → any (has_jti jti) ts ≡ true
    → ((t : RefreshToken) → is_live jti t ≡ true → p t ≡ true)
    → IsClosed jti (update_all p (revoked_by now) ts)
revoke_where-closes jti now p ts known reaches = record {
  known = rw (any-revoke jti now p ts) known;
  revoked = live-revoke_self jti now p ts reaches;
}
