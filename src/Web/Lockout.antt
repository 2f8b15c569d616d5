-- ===== src/Web/Lockout.antt =====
-- web.go: web logins one after the other, under the guard of loginsecurity.go.
use gateway_lite.Web.Login.{web_login_lem, asked}
use gateway_lite.Common.Int.{pos, ℤ}
use gateway_lite.LoginGuard.{allowed, max_login_fails, on_failure, login_lock_duration, Guard}
use gateway_lite.Web.Accounts.{guard_key, web_login, locked_out}
use gateway_lite.Store.Data.{StoreUser}
use gateway_lite.LoginGuard.Lockout.{
  fail_all, InWindow, allowed-open, last_time, count-record, allowed-fresh, fresh_record, lockout,
}
use gateway_lite.Protocol.Messages.{ProfileInfo}
use gateway_lite.Web.{Request, Host, error_of, Response}
use gateway_lite.Common.{
  refl, none, some, true, inl, inr, [], nat_eq, bytes_eq, List, All, ℕ, length, ◌+◌, ◌∷◌, ◌≡◌,
  lookup, ◌≤◌, ◌≢◌, ◌<◌, arith, ap, Bool, false, ◌∙◌, not, lt→ltb,
}
use gateway_lite.Gateway.{done, World, Outcome}

-- The same request at the times of these hosts, one after the other.
unfoldable pub logins : Request → List Host → World → World
logins r [] w = w
logins r (host ∷ hosts) w = logins r hosts (web_login host r w).0

unfoldable pub times : List Host → List ℕ
times [] = []
times (host ∷ hosts) = host.now ∷ times hosts

length-times : (hosts : List Host) → length (times hosts) ≡ length hosts
unfolding times
length-times [] = refl
length-times (host ∷ hosts) = rw (length-times hosts) refl

module _ (r : Request) (req : ProfileInfo) where
  -- No stored user of the name has the password.
  abbrev pub IsWrong : World → Type 0
  IsWrong w =
      (u : StoreUser) → lookup req.user w.store.stored.users ≡ some u → u.password ≢ req.password

  abbrev pub Parses : List Host → Type 0
  Parses = All (λ host. host.web_json.profile_info r.body ≡ some req)

  abbrev failed_at : World → List ℕ → World
  failed_at w ts = record w { guard = fail_all w.guard (guard_key r req) ts }

  web_login-wrong :
      (host : Host) (w : World)
      → host.web_json.profile_info r.body ≡ some req
      → IsWrong w
      → allowed w.guard (guard_key r req) host.now host.later ≡ (w.guard, (true, pos 0))
      → (web_login host r w).0 ≡ record w { guard = on_failure w.guard (guard_key r req) host.now }
  web_login-wrong host w e wrong open_still = elim (web_login_lem host r req w e) [
    | inl a ↦ cc (a.0, ap (λ (x : Guard × (Bool × ℤ)). x.1.0) open_still)
    | inr (inl a) ↦ rw (a.2, open_still) refl
    | inr (inr (y, (u, f, p, h))) ↦ absurd (wrong u f p)
  ]

  logins-failed :
      (hosts : List Host) (w : World) (start n : ℕ)
      → n + length hosts ≤ max_login_fails
      → Parses hosts
      → IsWrong w
      → InWindow start (times hosts)
      → lookup (guard_key r req) w.guard
        ≡ some (record { fails = n; first_fail = start; locked_till = 0 })
      → logins r hosts w ≡ failed_at w (times hosts)
  unfolding logins times fail_all
  logins-failed [] w start n few ps wrong inside h = refl
  logins-failed (host ∷ []) w start n few (p, ps) wrong (i, inside) h =
      web_login-wrong host w p wrong (allowed-open w.guard _ start n host.now host.later i h)
  logins-failed (host ∷ next ∷ hosts) w start n few (p, ps) wrong (i, inside) h =
      let e =
        web_login-wrong host w p wrong (allowed-open w.guard _ start n host.now host.later i h) in
      let v = record w { guard = on_failure w.guard (guard_key r req) host.now } in
      rw e (
        logins-failed (next ∷ hosts) v start (n + 1) (omega arith) ps wrong inside
          (count-record w.guard _ start n host.now (omega arith) i h))

  -- A request that brings the name but not the password of a stored user is sent five times, from one
  -- address, that the guard has no record of, within the window of the first time. Then every login
  -- under this name from this address, until the lockout time after the fifth is over, is answered
  -- with 429, whatever its password; and nothing but the guard has changed.
  pub web_login-locked :
      (host : Host) (hosts : List Host) (w : World)
      → length hosts ≡ 4
      → Parses (host ∷ hosts)
      → IsWrong w
      → lookup (guard_key r req) w.guard ≡ none
      → InWindow host.now (times hosts)
      → (later : Host) (q : Request) (attempt : ProfileInfo)
      → later.web_json.profile_info q.body ≡ some attempt
      → guard_key q attempt ≡ guard_key r req
      → later.now < last_time host.now (times hosts) + login_lock_duration
      → (logins r (host ∷ hosts) w ≡ record w { guard = (logins r (host ∷ hosts) w).guard })
        × ((wait : ℤ) × ((web_login later q (logins r (host ∷ hosts) w)).1
              ≡ done (record { status = 429; body = error_of 429 (locked_out wait) })))
  unfolding logins times fail_all
  web_login-locked host hosts w four (p, ps) wrong free inside later q attempt e key soon =
      let first =
        web_login-wrong host w p wrong (allowed-fresh w.guard _ host.now host.later free) in
      let v = record w { guard = on_failure w.guard (guard_key r req) host.now } in
      let rest : logins r hosts v ≡ failed_at v (times hosts) =
        logins-failed hosts v host.now 1 (omega arith) ps wrong inside
          (fresh_record w.guard _ host.now free) in
      let whole : logins r (host ∷ hosts) w ≡ failed_at w (times (host ∷ hosts)) =
        rw (first, rest) refl in
      let locked =
        (lockout w.guard (guard_key r req) host.now (times hosts) later.now later.later free
            inside).1
          (length-times hosts ∙ four) in
      let no : (asked later q attempt (failed_at w (times (host ∷ hosts)))).1.0 ≡ false =
        rw key (locked ∙ ap not (lt→ltb later.now _ soon)) in
      rw whole (
        refl,
        elim (web_login_lem later q attempt (failed_at w (times (host ∷ hosts))) e) [
          | inl a ↦ (_, ap (λ (o : World × Outcome Response). o.1) a.1)
          | inr (inl a) ↦ cc (a.0, no)
          | inr (inr a) ↦ cc (a.0, no)
        ],
      )
