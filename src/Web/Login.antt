-- ===== src/Web/Login.antt =====
-- web.go: what a web login answers, and what its token is good for.
use gateway_lite.Password.Strength.{constant_time_equal_iff}
use gateway_lite.Password.{constant_time_equal}
use gateway_lite.Store.Users.{get_user}
use gateway_lite.Common.Strconv.{format_uint}
use gateway_lite.LoginGuard.{Guard, on_success, on_failure, allowed}
use gateway_lite.Common.Int.{pos, ℤ}
use gateway_lite.Clock.{unix}
use gateway_lite.Protocol.Messages.{ProfileInfo}
use gateway_lite.Web.Accounts.{
  web_login, login_as, ask_guard, check_password, refuse, accept, claim_of, locked_out, guard_key,
  wrong_login,
}
use gateway_lite.Web.{
  Host, Jwt, authenticate, Request, parse_token, Claim, Response, check_claim, text, error_of,
  login_of,
}
use gateway_lite.Store.Data.{StoreUser}
use gateway_lite.Common.{
  refl, none, some, true, false, inl, inr, [], nat_eq, bytes_eq, Bytes, Option, ◌≡◌, ℕ, lookup, ◌≤◌,
  Bool, ◌≢◌, arith, ltb, ◌⊎◌, Bool-cases, Option-cases,
}
use gateway_lite.Gateway.{done, World}

-- The guard's answer on a login.
abbrev pub asked : Host → Request → ProfileInfo → World → Guard × (Bool × ℤ)
asked host r req w = allowed w.guard (guard_key r req) host.now host.later

abbrev pub Refused : Host → Request → ProfileInfo → World → Type 0
Refused host r req w =
    ((asked host r req w).1.0 ≡ false)
    × (web_login host r w ≡ (
      record w { guard = (asked host r req w).0 },
      done (record { status = 429; body = error_of 429 (locked_out (asked host r req w).1.1) }),
    ))

abbrev pub Wrong : Host → Request → ProfileInfo → World → Type 0
Wrong host r req w =
    ((asked host r req w).1.0 ≡ true)
    × ((u : StoreUser) → lookup req.user w.store.stored.users ≡ some u → u.password ≢ req.password)
    × (web_login host r w ≡ (
      record w { guard = on_failure (asked host r req w).0 (guard_key r req) host.now },
      done (record { status = 401; body = error_of 401 wrong_login }),
    ))

abbrev pub token_answer : StoreUser → Option Bytes → Response
token_answer u none = record { status = 200; body = text [] }
token_answer u (some token) = record { status = 200; body = login_of token (format_uint u.token) }

abbrev pub Right : Host → Request → ProfileInfo → World → Type 0
Right host r req w =
    ((asked host r req w).1.0 ≡ true)
    × ((u : StoreUser) × (lookup req.user w.store.stored.users ≡ some u)
        × (u.password ≡ req.password)
        × (web_login host r w ≡ (
          record w { guard = on_success (asked host r req w).0 (guard_key r req) },
          done (token_answer u (host.jwt.sign host.secret (claim_of host req u))),
        )))

-- A login whose body is JSON of a profile is refused without a look at the password where the guard
-- refuses its address and user; else it fails and counts as a failure where no stored user of the name
-- has exactly that password, and else it succeeds and the guard forgets the failures. Nothing but the
-- guard changes.
pub web_login_lem :
    (host : Host) (r : Request) (req : ProfileInfo) (w : World)
    → host.web_json.profile_info r.body ≡ some req
    → Refused host r req w ⊎ (Wrong host r req w ⊎ Right host r req w)
unfolding web_login login_as ask_guard check_password refuse accept get_user
web_login_lem host r req w e =
    let key = guard_key r req in
    elim (Bool-cases (asked host r req w).1.0) [
      | inr n ↦ inl (n, rw (e, web_login, n) refl)
      | inl y ↦ inr (elim (Option-cases (lookup req.user w.store.stored.users)) [
        | inl f ↦ inl (y, λ u g. cc, rw (e, web_login, y, f) refl)
        | inr (u, f) ↦ elim (Bool-cases (constant_time_equal u.password req.password)) [
          | inr n ↦ inl (
            y,
            λ v g p.
                let q : u ≡ v = ground arith in
                cc (n, (constant_time_equal_iff u.password req.password).1 (rw q p)),
            rw (e, web_login, y, f, check_password, n) refl,
          )
          | inl c ↦
              let p = (constant_time_equal_iff u.password req.password).0 c in
              inr (
                y,
                (
                  u,
                  f,
                  p,
                  elim (Option-cases (host.jwt.sign host.secret (claim_of host req u))) [
                    | inl s ↦ rw (e, web_login, y, f, check_password, c, s) refl
                    | inr (t, s) ↦ rw (e, web_login, y, f, check_password, c, s) refl
                  ],
                ),
              )
        ]
      ])
    ]

-- golang-jwt: what a key has signed is an HMAC token, and the key gives the claim back from its
-- time of issue to its expiry.
abbrev pub IsLawful : Jwt → Type 0
IsLawful jwt =
    (secret token : Bytes) (claim : Claim)
    → jwt.sign secret claim ≡ some token
    → (jwt.is_hmac token ≡ true)
      × ((now issued expires : ℕ)
          → claim.issued_at ≡ pos issued
          → claim.expires_at ≡ pos expires
          → issued ≤ unix now
          → unix now ≤ expires
          → jwt.verify secret now token ≡ some (claim, true))

-- With a lawful golang-jwt, a login that the guard lets through with the password of a stored user
-- answers with a token, where it can be signed; and the token lets a request that brings it through
-- the middleware under the name of that user, at a gateway with the same secret, from the time of the
-- login to a day later.
pub web_login-authenticate :
    (host : Host) (r : Request) (req : ProfileInfo) (w : World) (u : StoreUser) (token : Bytes)
    (other : Host) (q : Request)
    → IsLawful host.jwt
    → host.web_json.profile_info r.body ≡ some req
    → (asked host r req w).1.0 ≡ true
    → lookup req.user w.store.stored.users ≡ some u
    → u.password ≡ req.password
    → host.jwt.sign host.secret (claim_of host req u) ≡ some token
    → other.jwt ≡ host.jwt
    → other.secret ≡ host.secret
    → q.authorization ≡ some token
    → unix host.now ≤ unix other.now
    → unix other.now ≤ unix (host.add_day host.now)
    → ((web_login host r w).1
        ≡ done (record { status = 200; body = login_of token (format_uint u.token) }))
      × (authenticate other q ≡ some req.user)
unfolding authenticate parse_token check_claim
web_login-authenticate host r req w u token other q law e y f p s j k a from to =
    let l = law host.secret token (claim_of host req u) s in
    let v = l.1 other.now (unix host.now) (unix (host.add_day host.now)) refl refl from to in
    let late : ltb (unix (host.add_day host.now)) (unix other.now) ≡ false = ground arith in
    (
      elim (web_login_lem host r req w e) [
        | inl b ↦ cc (b.0, y)
        | inr (inl b) ↦ absurd (b.1 u f p)
        | inr (inr (b, (t, g, o, h))) ↦
            let same : t ≡ u = ground (arith, f, g) in rw (h, same, s) refl
      ],
      rw (a, authenticate, j, k, l.0, v, late) refl,
    )
