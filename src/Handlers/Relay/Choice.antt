-- ===== src/Handlers/Relay/Choice.antt =====
-- Which session becomes the relay.
use gateway_lite.Common.{
  All, All-Member, Bool, Bool-cases, Bytes, List, Member, Member-All, Option, [], arith,
  bytes_beq_iff, bytes_eq, false, inl, inr, ltb, ltb→lt, nat_eq, none, refl, some, subst, true, ℕ,
  ◌<◌, ◌↔◌, ◌∷◌, ◌≡◌, ◌≢◌, ◌≤◌, ◌⊎◌,
}
use gateway_lite.Common.Int.{int_eq, int_beq_iff}
use gateway_lite.Gateway.{Session}
use gateway_lite.Handlers.Relay.{Entry, prefer, choose, is_usable, nat_symmetric}

-- What is preferred is one of the two, and was used no later than either.
prefer-least :
    (best : Option Entry) (e : Entry)
    → ((best ≡ some (prefer best e)) ⊎ (prefer best e ≡ e))
      × ((prefer best e).1.relay_time ≤ e.1.relay_time)
      × ((f : Entry) → best ≡ some f → (prefer best e).1.relay_time ≤ f.1.relay_time)
unfolding prefer
prefer-least none e = ground arith
prefer-least (some r) e = ground arith

module _ (usable : Session → Bool) (limit : ℕ) where
  -- The choice among sessions, after an earlier one: it is the earlier one or a usable session, and
  -- no usable session has been idle for longer, unless the choice has been idle since before the
  -- limit.
  abbrev pub Chosen : Option Entry → List Entry → Entry → Type 0
  Chosen best l r =
      ((best ≡ some r) ⊎ (Member r l × (usable r.1 ≡ true)))
      × ((e : Entry)
          → (best ≡ some e) ⊎ (Member e l × (usable e.1 ≡ true))
          → (r.1.relay_time ≤ e.1.relay_time) ⊎ (r.1.relay_time < limit))

  abbrev pub Chooses : Option Entry → List Entry → Option Entry → Type 0
  Chooses best l (some r) = Chosen best l r
  Chooses best l none = (best ≡ none) × All (λ e. usable e.1 ≡ false) l

  Chooses-skip :
      (best : Option Entry) (e : Entry) (es : List Entry) (o : Option Entry)
      → usable e.1 ≡ false
      → Chooses best es o
      → Chooses best (e ∷ es) o
  Chooses-skip best e es none n (p, q) = (p, (n, q))
  Chooses-skip best e es (some r) n (p, q) = (
    elim p [ inl s ↦ inl s | inr (m, u) ↦ inr (inr m, u) ],
    λ f h.
        q f
          (elim h [ inl s ↦ inl s | inr (inl s, u) ↦ cc (n, u, s) | inr (inr m, u) ↦ inr (m, u) ]),
  )

  Chosen-stop :
      (best : Option Entry) (e : Entry) (es : List Entry)
      → usable e.1 ≡ true
      → e.1.relay_time < limit
      → Chosen best (e ∷ es) (prefer best e)
  Chosen-stop best e es u l =
      let p = prefer-least best e in
      (elim p.0 [ inl s ↦ inl s | inr s ↦ inr (inl s, rw s u) ], λ f h. inr (omega (arith, p.1)))

  Chosen-next :
      (best : Option Entry) (e : Entry) (es : List Entry) (r : Entry)
      → usable e.1 ≡ true
      → Chosen (some (prefer best e)) es r
      → Chosen best (e ∷ es) r
  Chosen-next best e es r u (c, least) =
      let p = prefer-least best e in
      let first : (r.1.relay_time ≤ (prefer best e).1.relay_time) ⊎ (r.1.relay_time < limit) =
        least (prefer best e) (inl refl) in
      (
        elim c [
          | inl s ↦
              let q : prefer best e ≡ r = ground arith in
              rw (← q) (elim p.0 [ inl k ↦ inl k | inr k ↦ inr (inl k, rw k u) ])
          | inr (m, v) ↦ inr (inr m, v)
        ],
        λ f h. elim h [
          | inl s ↦ let q = p.2 f s in omega (arith, first, q)
          | inr (inl s, v) ↦ rw s (omega (arith, first, p.1))
          | inr (inr m, v) ↦ least f (inr (m, v))
        ],
      )

  Chooses-next :
      (best : Option Entry) (e : Entry) (es : List Entry) (o : Option Entry)
      → usable e.1 ≡ true
      → Chooses (some (prefer best e)) es o
      → Chooses best (e ∷ es) o
  Chooses-next best e es none u (p, q) = cc p
  Chooses-next best e es (some r) u c = Chosen-next best e es r u c

  choose-Chooses :
      (best : Option Entry) (l : List Entry) → Chooses best l (choose usable limit best l)
  unfolding choose
  choose-Chooses none [] = (refl, tt)
  choose-Chooses (some r) [] = (
    inl refl,
    λ e h. elim h [
      | inl s ↦ let q : r ≡ e = ground arith in rw q (inl (omega arith))
      | inr k ↦ absurd k.0
    ],
  )
  choose-Chooses best (e ∷ es) = elim (Bool-cases (usable e.1)) [
    | inr n ↦ rw (n, choose) (Chooses-skip best e es _ n (choose-Chooses best es))
    | inl u ↦ elim (Bool-cases (ltb e.1.relay_time limit)) [
      | inl l ↦ rw (u, l, choose) (Chosen-stop best e es u (ltb→lt _ _ l))
      | inr k ↦
          rw (u, k, choose) (Chooses-next best e es _ u (choose-Chooses (some (prefer best e)) es))
    ]
  ]

module _ (is_loopback : Bytes → Bool) (req : Session) (peer_id : ℕ) (peer_ip : Bytes) where
  -- A relay for the requester and the peer: another node of the requester's user and of its major
  -- version, not behind a symmetric NAT, and not at the public address of either, unless that is a
  -- loopback address.
  abbrev pub Suits : Session → Type 0
  Suits s =
      (req.major_ver ≡ s.major_ver)
      × (s.node_id ≢ req.node_id)
      × (s.node_id ≢ peer_id)
      × (s.user ≡ req.user)
      × (s.nat_type ≢ nat_symmetric)
      × ((is_loopback s.ipv4 ≡ true) ⊎ ((s.ipv4 ≢ req.ipv4) × (s.ipv4 ≢ peer_ip)))

  is_usable_iff : (s : Session) → (is_usable is_loopback req peer_id peer_ip s ≡ true) ↔ Suits s
  unfolding is_usable
  is_usable_iff s = ground (
    arith,
    int_beq_iff req.major_ver s.major_ver,
    bytes_beq_iff s.user req.user,
    int_beq_iff s.nat_type nat_symmetric,
    bytes_beq_iff s.ipv4 req.ipv4,
    bytes_beq_iff s.ipv4 peer_ip,
  )

  -- What the loop chooses among the sessions suits the requester and the peer, and no other that
  -- suits them was used longer ago, unless the choice has been idle since before the limit; nothing
  -- is chosen only where no session suits them.
  pub choose_lem :
      (limit : ℕ) (l : List Entry)
      → ((r : Entry)
          → choose (is_usable is_loopback req peer_id peer_ip) limit none l ≡ some r
          → Member r l
            × Suits r.1
            × ((e : Entry)
                → Member e l
                → Suits e.1
                → (r.1.relay_time ≤ e.1.relay_time) ⊎ (r.1.relay_time < limit)))
        × (choose (is_usable is_loopback req peer_id peer_ip) limit none l ≡ none
            → All (λ e. ¬ Suits e.1) l)
  choose_lem limit l =
      let usable = is_usable is_loopback req peer_id peer_ip in
      let c = choose-Chooses usable limit none l in
      (
        λ r h.
            let d : Chosen usable limit none l r = subst (λ o. Chooses usable limit none l o) h c in
            let m : Member r l × (usable r.1 ≡ true) = elim d.0 [ inl s ↦ cc s | inr k ↦ k ] in
            (m.0, (is_usable_iff r.1).0 m.1, λ e k s. d.1 e (inr (k, (is_usable_iff e.1).1 s))),
        λ h.
            let d : Chooses usable limit none l none =
              subst (λ o. Chooses usable limit none l o) h c in
            Member-All (λ e. ¬ Suits e.1) l
              (λ e k s. cc (All-Member (λ f. usable f.1 ≡ false) l d.1 k, (is_usable_iff e.1).1 s)),
      )
