-- ===== src/Matchmaker/Leader.antt =====
-- Leader election: `leadership`, `stopService` of src/tcp/matchmaker.js over `acquireLock`,
-- `renewLock` and `releaseLock` of src/bus/index.js. A replica's token is its number. The key's
-- commands SET NX PX, GET, PEXPIRE and DEL are a parameter, with what Redis documents of expiry.
use free_fire.Prelude.{
  ℕ, ◌+◌, ◌≤◌, ◌<◌, ◌≡◌, ◌≢◌, Bool, true, false, Option, none, some, Bool-cases, inl, inr,
  if◌then◌else◌, ◌==◌, ltb, arith,
}

-- One key that expires, read at a time.
pub record ExpiringKey : Type 1 where
  pub Key : Type 0
  pub value : Key → ℕ → Option ℕ
  pub set_nx_px : Key → ℕ → ℕ → ℕ → Key
  pub pexpire : Key → ℕ → ℕ → Key
  pub del : Key → Key
  -- A value can only go away by itself.
  pub value-later : (k : Key) (t u a : ℕ) → t ≤ u → value k u ≡ some a → value k t ≡ some a
  pub value-set_nx_px :
      (k : Key) (now a ttl t : ℕ)
      → value k now ≡ none
      → now ≤ t
      → value (set_nx_px k now a ttl) t ≡ (if ltb t (now + ttl) then some a else none)
  pub value-pexpire :
      (k : Key) (now ttl a t : ℕ)
      → value k now ≡ some a
      → now ≤ t
      → value (pexpire k now ttl) t ≡ (if ltb t (now + ttl) then some a else none)
  pub value-del : (k : Key) (t : ℕ) → value (del k) t ≡ none

module _ ⦃redis : ExpiringKey⦄ where
  abbrev pub Lease : Type 0
  Lease = redis.Key

  -- `(SET key token PX ttl NX) === 'OK'`
  unfoldable pub acquire_lock : Lease → ℕ → ℕ → ℕ → Bool × Lease
  acquire_lock k now token ttl = elim (redis.value k now) [
    | none ↦ (true, redis.set_nx_px k now token ttl)
    | some a ↦ (false, k)
  ]

  abbrev pub holds : Option ℕ → ℕ → Bool
  holds none token = false
  holds (some a) token = a == token

  -- The script: PEXPIRE if the value is the token.
  unfoldable pub renew_lock : Lease → ℕ → ℕ → ℕ → Bool × Lease
  renew_lock k now token ttl =
      if holds (redis.value k now) token then (true, redis.pexpire k now ttl) else (false, k)

  -- The script: DEL if the value is the token.
  unfoldable pub release_lock : Lease → ℕ → ℕ → Bool × Lease
  release_lock k now token =
      if holds (redis.value k now) token then (true, redis.del k) else (false, k)

  -- `isLeader` of every replica, the lease, and, for the statements only, the end of the lease that
  -- each replica last took or renewed.
  pub record Replicas : Type 0 where
    pub lease : Lease
    pub is_leader : ℕ → Bool
    pub fresh_until : ℕ → ℕ

  abbrev pub update {ℓ} : {A : Type ℓ} → (ℕ → A) → ℕ → A → ℕ → A
  update f k v j = if j == k then v else f j

  became : Replicas → ℕ → ℕ → ℕ → Bool × Lease → Replicas
  became s r now ttl (true, k) = record {
    lease = k;
    is_leader = update s.is_leader r true;
    fresh_until = update s.fresh_until r (now + ttl);
  }
  became s r now ttl (false, k) = record s { lease = k; is_leader = update s.is_leader r false }

  renewed : Replicas → ℕ → ℕ → ℕ → Bool × Lease → Replicas
  unfolding became
  renewed s r now ttl (true, k) = became s r now ttl (true, k)
  renewed s r now ttl (false, k) = became s r now ttl (acquire_lock k now r ttl)

  -- `leadership` of replica `r`: a leader renews, and tries again as a standby if it lost the lease.
  unfoldable pub leadership : ℕ → Replicas → ℕ → ℕ → Replicas
  unfolding renewed acquire_lock renew_lock
  leadership ttl s r now =
      if s.is_leader r
      then renewed s r now ttl (renew_lock s.lease now r ttl)
      else became s r now ttl (acquire_lock s.lease now r ttl)

  -- `stopService` of replica `r`
  unfoldable pub stop_service : Replicas → ℕ → ℕ → Replicas
  unfolding release_lock
  stop_service s r now =
      let k = if s.is_leader r then (release_lock s.lease now r).1 else s.lease in
      record s { lease = k; is_leader = update s.is_leader r false }

  -- Whoever is a leader within its lease holds the key.
  pub record IsExclusive (now : ℕ) (s : Replicas) : Type 0 where
    pub held :
        (r t : ℕ)
        → now ≤ t
        → s.is_leader r ≡ true
        → t < s.fresh_until r
        → redis.value s.lease t ≡ some r

  module _ (ttl : ℕ) (s : Replicas) (r now : ℕ) (v : IsExclusive now s) where
    acquire-IsExclusive : IsExclusive now (became s r now ttl (acquire_lock s.lease now r ttl))
    unfolding became acquire_lock
    acquire-IsExclusive = record {
      held = λ q t p lead fresh. ground (
        arith,
        v.held q t p,
        redis.value-later s.lease now t q p,
        redis.value-set_nx_px s.lease now r ttl t,
      );
    }

    renew-IsExclusive : IsExclusive now (renewed s r now ttl (renew_lock s.lease now r ttl))
    unfolding renewed became renew_lock acquire_lock
    renew-IsExclusive = record {
      held = λ q t p lead fresh. ground (
        arith,
        v.held q t p,
        redis.value-later s.lease now t q p,
        redis.value-set_nx_px s.lease now r ttl t,
        redis.value-pexpire s.lease now ttl r t,
      );
    }

    pub leadership-IsExclusive : IsExclusive now (leadership ttl s r now)
    unfolding leadership
    leadership-IsExclusive = elim (Bool-cases (s.is_leader r)) [
      | inl e ↦ rw e renew-IsExclusive
      | inr e ↦ rw e acquire-IsExclusive
    ]

    pub stop_service-IsExclusive : IsExclusive now (stop_service s r now)
    unfolding stop_service release_lock
    stop_service-IsExclusive = record {
      held = λ q t p lead fresh. ground (arith, v.held q t p, redis.value-later s.lease now t q p);
    }

  -- The replicas' calls, each at its own time, which does not go back.
  pub data Run (ttl : ℕ) (s : Replicas) (start : ℕ) : Replicas → ℕ → Type 0 where
    begin : Run ttl s start s start
    leads :
        {t : Replicas} {prev : ℕ} (r now : ℕ)
        → Run ttl s start t prev
        → prev ≤ now
        → Run ttl s start (leadership ttl t r now) now
    stops :
        {t : Replicas} {prev : ℕ} (r now : ℕ)
        → Run ttl s start t prev
        → prev ≤ now
        → Run ttl s start (stop_service t r now) now

  later-IsExclusive : {s : Replicas} (a b : ℕ) → a ≤ b → IsExclusive a s → IsExclusive b s
  later-IsExclusive a b h v = record { held = λ r t p. v.held r t (omega arith) }

  Run-IsExclusive :
      {ttl start : ℕ} {s : Replicas} {end : ℕ} {t : Replicas}
      → IsExclusive start s
      → Run ttl s start t end
      → IsExclusive end t
  Run-IsExclusive v begin = v
  Run-IsExclusive {ttl} v (leads {t} {prev} r now run p) =
      leadership-IsExclusive ttl t r now (later-IsExclusive prev now p (Run-IsExclusive v run))
  Run-IsExclusive {ttl} v (stops {t} {prev} r now run p) =
      stop_service-IsExclusive ttl t r now (later-IsExclusive prev now p (Run-IsExclusive v run))

  fresh_unique :
      {end : ℕ} {t : Replicas}
      → IsExclusive end t
      → (q r : ℕ) → t.is_leader q ≡ true
      → t.is_leader r ≡ true
      → end < t.fresh_until q
      → end < t.fresh_until r
      → q ≡ r
  fresh_unique {end = e} v q r lead_q lead_r a b =
      cc (v.held q e (omega arith) lead_q a, v.held r e (omega arith) lead_r b)

  -- From a start without leaders, whatever calls the replicas make and in whatever order: while a
  -- leader is within the lease that it last took or renewed, the lease of any other leader is over.
  pub one_fresh_leader :
      {ttl start : ℕ} {s : Replicas} {end : ℕ} {t : Replicas}
      → ((r : ℕ) → s.is_leader r ≡ false)
      → Run ttl s start t end
      → (q r : ℕ) → q ≢ r
      → (t.is_leader q ≡ true) × (end < t.fresh_until q)
      → t.is_leader r ≡ true
      → t.fresh_until r ≤ end
  one_fresh_leader {end = e} {t} none_leads run q r apart a lead =
      let v = Run-IsExclusive (record { held = λ x u p l. absurd (cc (none_leads x, l)) }) run in
      elim (Bool-cases (ltb e (t.fresh_until r))) [
        | inl h ↦ absurd (apart (fresh_unique v q r a.0 lead a.1 (ground arith)))
        | inr h ↦ ground arith
      ]

  -- The flag that `tick` tests does not expire with the lease: where a leader's lease has run out
  -- and another replica takes its turn, both are leaders until the first is next renewed.
  pub stale_leader :
      (ttl : ℕ) (s : Replicas) (a b now : ℕ)
      → s.is_leader a ≡ true
      → s.is_leader b ≡ false
      → redis.value s.lease now ≡ none
      → let t = leadership ttl s b now in (t.is_leader a ≡ true) × (t.is_leader b ≡ true)
  unfolding leadership became acquire_lock
  stale_leader ttl s a b now lead standby gone = ground arith
