-- ===== src/Server/Sessions.antt =====
-- The life of a session, under any faults and between any statements of other clients: a refresh
-- token serves once, and never after it was revoked.
use taskflow_api.Base.{
  ℕ, String, ◌≡◌, refl, sym, ap, ◌∙◌, ◌≢◌, ◌⊎◌, inl, inr, Bool, true, false, not, ◌&&◌, some, List,
  arith, if◌then◌else◌, Bool-cases, eq_ℤ, eq_ℤ_iff,
}
use taskflow_api.Domain.{RefreshToken, Instant, Int64, done, expired, revoked}
use taskflow_api.Domain.Errors.{token_invalid, sentinel, ok}
use taskflow_api.Store.{Tables, World, Io, return, time_now}
use taskflow_api.Store.Outcomes.{met, bind-ok, map_err-ok, map_err-world, guard-ok}
use taskflow_api.Repository.Allows.{tokens-Allows}
use taskflow_api.Repository.Evolution.{
  Evolves, Evolves-Allows, token_of, Later, token_of-revoked, Evolves-IsPreorder,
}
use taskflow_api.Repository.RefreshTokens.{find_by_hash, revoke, revoke_where, set_revoked}
use taskflow_api.Repository.TokenOutcomes.{find_by_hash-ok, revoke-ok}
use taskflow_api.Service.Allows.{issue_token_pair-Respects}
use taskflow_api.Service.RefreshTokens.{hash_refresh_token}
use taskflow_api.Service.Auth
use taskflow_api.Service.Auth.{issue_token_pair, revoke_family, spend, exchange, rotate}
use taskflow_api.Server.{Deployment, auth_service, Call, run, refresh, logout}
use taskflow_api.Server.Runs.{run-Evolves}

-- The token's row is there, and revoked.
pub record IsRevoked (hash : String) (t : Tables) : Type 0 where
  pub row : RefreshToken
  pub found : token_of hash t.refresh_tokens ≡ some row
  pub dead : revoked row ≡ true

-- However the tables evolve, a revoked token stays revoked.
pub IsRevoked-Evolves :
    (hash : String) (t u : Tables) → Evolves t u → IsRevoked hash t → IsRevoked hash u
IsRevoked-Evolves hash t u e h = go (e.token_kept hash h.row h.found)
  where
    go :
        (r' : RefreshToken) × (token_of hash u.refresh_tokens ≡ some r') × Later h.row r'
        → IsRevoked hash u
    go (r', found, inl same) = record { row = r'; found = found; dead = rw same h.dead }
    go (r', found, inr (now, live, same)) = absurd (cc (live, h.dead))

-- The other clients only append users and tokens, and only revoke tokens that are not revoked.
abbrev pub Rely : Deployment → Type 0
Rely d = (n : ℕ) (t : Tables) → Evolves t (d.env.others n t)

module _ (d : Deployment) (rely : Rely d) (plaintext : String) where
  abbrev hash : String
  hash = hash_refresh_token d.crypto plaintext

  Later-id : (r r' : RefreshToken) → Later r r' → r'.id ≡ r.id
  Later-id r r' (inl same) = rw same
  Later-id r r' (inr (now, live, same)) = rw same

  -- A token that was found unrevoked is revoked by the statement that `Revoke` sends.
  revoke_where-IsRevoked :
      (now : Instant) (t : Tables) (r : RefreshToken) (id : Int64)
      → token_of hash t.refresh_tokens ≡ some r
      → r.id ≡ id
      → IsRevoked hash (revoke_where (λ x. eq_ℤ x.id id) now t).1
  unfolding revoke_where
  revoke_where-IsRevoked now t r id found same = record {
    row = if eq_ℤ r.id id && not (revoked r) then set_revoked now r else r;
    found = token_of-revoked (λ x. eq_ℤ x.id id) now hash t.refresh_tokens r found;
    dead = dead_after;
  }
    where
      dead_after : revoked (if eq_ℤ r.id id && not (revoked r) then set_revoked now r else r) ≡ true
      dead_after = unfold revoked in ground (arith, eq_ℤ_iff r.id id)

  -- A token that is found before other clients act is met by the next statement, with its id.
  met-token :
      (w : World) (r : RefreshToken)
      → token_of hash w.tables.refresh_tokens ≡ some r
      → (r' : RefreshToken) × (token_of hash (met d.env w).refresh_tokens ≡ some r')
        × (r'.id ≡ r.id)
  met-token w r found =
      let (r', found', later) = (rely w.step w.tables).token_kept hash r found in
      (r', found', Later-id r r' later)

  spend-ok :
      (existing : RefreshToken) (w : World) (pair : String × String)
      → token_of hash w.tables.refresh_tokens ≡ some existing
      → (spend d.env d.crypto d.jwt (auth_service d) existing w).0 ≡ ok pair
      → IsRevoked hash (spend d.env d.crypto d.jwt (auth_service d) existing w).1.tables
  unfolding spend
  spend-ok existing w pair found h =
      let (_, done, same) = bind-ok _ _ w pair h in
      let (r', found', id) = met-token w existing found in
      let spent : IsRevoked hash (revoke d.env existing.id w).1.tables =
        rw (revoke-ok d.env existing.id w (map_err-ok _ _ w tt done))
          (revoke_where-IsRevoked (d.env.db_now w.step) (met d.env w) r' existing.id found' id) in
      rw (same, map_err-world)
        (IsRevoked-Evolves hash _ _
          ((issue_token_pair-Respects Evolves-IsPreorder d.env d.crypto d.jwt (auth_service d)
              (tokens-Allows d.env (Evolves-Allows d.env rely)) existing.user_id).at
            (revoke d.env existing.id w).1)
          spent)

  revoke_family-ne-ok :
      (existing : RefreshToken) (w : World) (pair : String × String)
      → (revoke_family d.env d.crypto d.jwt (auth_service d) existing w).0 ≢ ok pair
  unfolding revoke_family
  revoke_family-ne-ok existing w pair h = let (_, done, same) = bind-ok _ _ w pair h in cc (same, h)

  exchange-ok :
      (existing : RefreshToken) (w : World) (pair : String × String)
      → token_of hash w.tables.refresh_tokens ≡ some existing
      → (exchange d.env d.crypto d.jwt (auth_service d) existing w).0 ≡ ok pair
      → IsRevoked hash (exchange d.env d.crypto d.jwt (auth_service d) existing w).1.tables
  unfolding exchange time_now
  exchange-ok existing w pair found h =
      let (now, clock, same) = bind-ok _ _ w pair h in
      let (young, on) =
        guard-ok (expired existing now) (sentinel token_invalid)
          (spend d.env d.crypto d.jwt (auth_service d) existing) _ pair
          (ap (λ p. p.0) (sym same) ∙ h) in
      rw (same, on) (spend-ok existing _ pair found (ap (λ p. p.0) (sym (same ∙ on)) ∙ h))

  -- A rotation that succeeds was shown a live token, and leaves it revoked.
  rotate-ok :
      (existing : RefreshToken) (w : World) (pair : String × String)
      → token_of hash w.tables.refresh_tokens ≡ some existing
      → (rotate d.env d.crypto d.jwt (auth_service d) existing w).0 ≡ ok pair
      → (revoked existing ≡ false)
        × IsRevoked hash (rotate d.env d.crypto d.jwt (auth_service d) existing w).1.tables
  unfolding rotate
  rotate-ok existing w pair found h = elim (Bool-cases (revoked existing)) [
    | inl dead ↦ absurd (revoke_family-ne-ok existing w pair (rw dead at h))
    | inr live ↦ (live, rw live (exchange-ok existing w pair found (rw live at h)))
  ]

  -- A refresh that succeeds found the token live among the tables that it met, and leaves it revoked.
  refresh-ok :
      (w : World) (pair : String × String)
      → (refresh d plaintext w).0 ≡ ok pair
      → (¬ IsRevoked hash (met d.env w)) × IsRevoked hash (refresh d plaintext w).1.tables
  unfolding Auth.refresh
  refresh-ok w pair h =
      let (existing, done, same) = bind-ok _ _ w pair h in
      let (found, world) = find_by_hash-ok d.env hash w existing (map_err-ok _ _ w existing done) in
      let moved : (find_by_hash d.env hash w).1.tables ≡ met d.env w = ap (λ v. v.tables) world in
      let (live, dead) =
        rotate-ok existing _ pair (rw (map_err-world, moved) found)
          (ap (λ p. p.0) (sym same) ∙ h) in
      (λ r. cc (live, r.dead, r.found, found), rw same dead)

  if-ok-return :
      (b : Bool) (m : Io Unit) (w : World)
      → ((if b then return tt else m) w).0 ≡ ok tt
      → ((b ≡ true) × ((if b then return tt else m) w ≡ (ok tt, w)))
        ⊎ ((m w).0 ≡ ok tt) × ((if b then return tt else m) w ≡ m w)
  if-ok-return true m w h = inl (refl, refl)
  if-ok-return false m w h = inr (h, refl)

  -- A logout that succeeds leaves the token revoked.
  logout-ok :
      (w : World)
      → (logout d plaintext w).0 ≡ ok tt
      → IsRevoked hash (logout d plaintext w).1.tables
  unfolding Auth.logout
  logout-ok w h =
      let (existing, done, same) = bind-ok _ _ w tt h in
      let (found, world) = find_by_hash-ok d.env hash w existing (map_err-ok _ _ w existing done) in
      let moved : (find_by_hash d.env hash w).1.tables ≡ met d.env w = ap (λ v. v.tables) world in
      go existing _ (rw (map_err-world, moved) found) same (
        if-ok-return (revoked existing) (revoke d.env existing.id) _ (ap (λ p. p.0) (sym same) ∙ h))
    where
      go :
          (existing : RefreshToken) (v : World)
          → token_of hash v.tables.refresh_tokens ≡ some existing
          → logout d plaintext w
            ≡ (if revoked existing then return tt else revoke d.env existing.id) v
          → (((revoked existing ≡ true)
                × ((if revoked existing then return tt else revoke d.env existing.id) v
                    ≡ (ok tt, v)))
              ⊎ ((revoke d.env existing.id v).0 ≡ ok tt)
                × ((if revoked existing then return tt else revoke d.env existing.id) v
                    ≡ revoke d.env existing.id v))
          → IsRevoked hash (logout d plaintext w).1.tables
      go existing v found same (inl (dead, stays)) =
          rw (same, stays) (record { row = existing; found = found; dead = dead })
      go existing v found same (inr (done, on)) =
          let (r', found', id) = met-token v existing found in
          rw (same, on, revoke-ok d.env existing.id v done)
            (revoke_where-IsRevoked (d.env.db_now v.step) (met d.env v) r' existing.id found' id)

  after_revocation :
      (cs : List Call) (w : World) (pair : String × String)
      → IsRevoked hash w.tables
      → (refresh d plaintext (run d cs w)).0 ≢ ok pair
  after_revocation cs w pair dead h =
      let v = run d cs w in
      (refresh-ok v pair h).0 (
        IsRevoked-Evolves hash _ _ (rely v.step v.tables)
          (IsRevoked-Evolves hash _ _ (run-Evolves d cs w rely) dead))

-- A refresh token is used at most once. If the other clients of the database only append users and
-- tokens and only revoke tokens, then after a Refresh that succeeded, and whatever calls come after
-- it, no Refresh with the same token succeeds, whatever fails on the way.
pub refresh_single_use :
    (d : Deployment) (plaintext : String) (w : World) (pair : String × String) (cs : List Call)
    (pair' : String × String)
    → Rely d
    → (refresh d plaintext w).0 ≡ ok pair
    → (refresh d plaintext (run d cs (refresh d plaintext w).1)).0 ≢ ok pair'
refresh_single_use d plaintext w pair cs pair' rely h =
    after_revocation d rely plaintext cs _ pair' (refresh-ok d rely plaintext w pair h).1

-- A logout ends the session. If the other clients of the database only append users and tokens and
-- only revoke tokens, then after a Logout that succeeded, and whatever calls come after it, no Refresh
-- with the token that was logged out succeeds.
pub logout_ends_session :
    (d : Deployment) (plaintext : String) (w : World) (cs : List Call) (pair : String × String)
    → Rely d
    → (logout d plaintext w).0 ≡ ok tt
    → (refresh d plaintext (run d cs (logout d plaintext w).1)).0 ≢ ok pair
logout_ends_session d plaintext w cs pair rely h =
    after_revocation d rely plaintext cs _ pair (logout-ok d rely plaintext w h)
