-- ===== src/Arrays/Pool/Interleaving.antt =====
-- Threads that mix their calls of `get` and `put`. Each block under the lock, and each call of the
-- queue, is one step, taken by the functions of Arrays/Pool.antt.
use ibm_block_csi_driver.Prelude.{
  ℕ, ◌+◌, ◌-◌, ◌≤◌, ◌<◌, ◌≡◌, refl, ap, sym, ◌∙◌, subst, Bool, true, false, List, [], ◌∷◌, ◌++◌,
  length, length-append, arith,
}
use ibm_block_csi_driver.Outcome.{returned}
use ibm_block_csi_driver.Arrays.Pool.{
  Pool, new, channel_get, channel_put, forget, reserve, check_discard,
}

module _ (Conn : Type 0) where
  -- Beside the pool, how many connections each point of the code holds: out of the queue and not yet
  -- tested, about to be created, handed out, and on the way back into the queue.
  pub record System : Type 0 where
    pub pool : Pool Conn
    pub testing : ℕ
    pub creating : ℕ
    pub lent : ℕ
    pub returning : ℕ

  pub data Step (s : System) : System → Type 0 where
    takes :
        (c : Conn) (q : Pool Conn)
        → channel_get s.pool ≡ (returned c, q)
        → Step s (record s { pool = q; testing = s.testing + 1 })
    finds_active : 0 < s.testing → Step s (record s { testing = s.testing - 1; lent = s.lent + 1 })
    finds_inactive :
        0 < s.testing → Step s (record s { pool = forget s.pool; testing = s.testing - 1 })
    reserves :
        (q : Pool Conn)
        → reserve s.pool ≡ (false, q)
        → Step s (record s { pool = q; creating = s.creating + 1 })
    creates : 0 < s.creating → Step s (record s { creating = s.creating - 1; lent = s.lent + 1 })
    fails_to_create :
        0 < s.creating → Step s (record s { pool = forget s.pool; creating = s.creating - 1 })
    -- the last line of `get`, once the pool was full
    waits :
        (c : Conn) (q : Pool Conn)
        → channel_get s.pool ≡ (returned c, q)
        → Step s (record s { pool = q; lent = s.lent + 1 })
    keeps :
        (q : Pool Conn)
        → 0 < s.lent
        → check_discard s.pool ≡ (false, q)
        → Step s (record s { pool = q; lent = s.lent - 1; returning = s.returning + 1 })
    discards :
        (q : Pool Conn)
        → 0 < s.lent
        → check_discard s.pool ≡ (true, q)
        → Step s (record s { pool = q; lent = s.lent - 1 })
    queues :
        (c : Conn)
        → 0 < s.returning
        → Step s (record s { pool = (channel_put c s.pool).1; returning = s.returning - 1 })

  pub data Reach (s : System) : System → Type 0 where
    here : Reach s s
    next : {t u : System} → Reach s t → Step t u → Reach s u

  -- The connections there are, or are about to be.
  abbrev pub alive : System → ℕ
  alive s = length s.pool.channel + s.testing + s.creating + s.lent + s.returning

  pub record IsValid (max : ℕ) (s : System) : Type 0 where
    pub limit : s.pool.max_size ≡ max
    pub counted : alive s ≡ s.pool.current_size
    pub bounded : s.pool.current_size ≤ max

  channel_get-length :
      (max size : ℕ) (channel : List Conn) (c : Conn) (q : Pool Conn)
      → channel_get (record { max_size = max; current_size = size; channel = channel })
        ≡ (returned c, q)
      → (q.max_size ≡ max) × (q.current_size ≡ size) × (length channel ≡ length q.channel + 1)
  unfolding channel_get
  channel_get-length max size [] c q e = cc
  channel_get-length max size (x ∷ rest) c q e =
      (ap (λ r. r.1.max_size) (sym e), ap (λ r. r.1.current_size) (sym e), ground arith)

  reserve_room :
      (p q : Pool Conn)
      → reserve p ≡ (false, q)
      → (p.current_size < p.max_size) × (q ≡ record p { current_size = p.current_size + 1 })
  unfolding reserve
  reserve_room p q e = ground arith

  check_discard_cases :
      (p q : Pool Conn) (b : Bool) → check_discard p ≡ (b, q) → p.current_size ≤ p.max_size → q ≡ p
  unfolding check_discard
  check_discard_cases p q b e h = ground arith

  discard_over : (p q : Pool Conn) → check_discard p ≡ (true, q) → p.max_size < p.current_size
  unfolding check_discard
  discard_over p q e = ground arith

  -- Where fewer connections than the limit are in the queue, it takes one more.
  channel_put_room :
      (c : Conn) (p : Pool Conn)
      → length p.channel < p.max_size
      → channel_put c p ≡ (returned tt, record p { channel = p.channel ++ c ∷ [] })
  unfolding channel_put
  channel_put_room c p h = ground arith

  Step-IsValid : {max : ℕ} {s u : System} → Step s u → IsValid max s → IsValid max u
  Step-IsValid {s = s} (takes c q e) v =
      let (l, z, n) = channel_get-length _ _ s.pool.channel c q e in
      record { limit = l ∙ v.limit; counted = omega arith; bounded = omega arith }
  Step-IsValid (finds_active h) v = record {
    limit = v.limit;
    counted = omega arith;
    bounded = v.bounded;
  }
  Step-IsValid (finds_inactive h) v =
      unfold forget in record { limit = v.limit; counted = omega arith; bounded = omega arith }
  Step-IsValid {s = s} (reserves q e) v = ground (arith, reserve_room s.pool q e)
  Step-IsValid (creates h) v = record {
    limit = v.limit;
    counted = omega arith;
    bounded = v.bounded;
  }
  Step-IsValid (fails_to_create h) v =
      unfold forget in record { limit = v.limit; counted = omega arith; bounded = omega arith }
  Step-IsValid {s = s} (waits c q e) v =
      let (l, z, n) = channel_get-length _ _ s.pool.channel c q e in
      record { limit = l ∙ v.limit; counted = omega arith; bounded = omega arith }
  Step-IsValid {s = s} (keeps q h e) v = ground (
    arith,
    check_discard_cases s.pool q false e
        (subst (λ m. s.pool.current_size ≤ m) (sym v.limit) v.bounded),
  )
  Step-IsValid {s = s} (discards q h e) v =
      absurd (omega (arith, discard_over s.pool q e, v.limit, v.bounded))
  Step-IsValid {s = s} (queues c h) v =
      rw (channel_put_room c s.pool (omega (arith, v.limit, v.counted, v.bounded))) (record {
        limit = v.limit;
        counted = omega (arith, length-append s.pool.channel (c ∷ []), v.counted);
        bounded = v.bounded;
      })

  Reach-IsValid : {max : ℕ} {s u : System} → IsValid max s → Reach s u → IsValid max u
  Reach-IsValid v here = v
  Reach-IsValid v (next r st) = Step-IsValid st (Reach-IsValid v r)

  abbrev pub start : ℕ → System
  start max = record { pool = new max; testing = 0; creating = 0; lent = 0; returning = 0 }

  start-IsValid : (max : ℕ) → IsValid max (start max)
  start-IsValid max = record { limit = refl; counted = refl; bounded = omega arith }

  -- However threads interleave their calls, a pool that started empty counts exactly the connections
  -- that there are or that are about to be created, and these are never more than its limit.
  pub alive_bounded :
      (max : ℕ) {u : System}
      → Reach (start max) u
      → (alive u ≡ u.pool.current_size) × (alive u ≤ max)
  alive_bounded max r =
      let v = Reach-IsValid (start-IsValid max) r in
      (v.counted, omega (arith, v.counted, v.bounded))

  -- However threads interleave, a connection on its way back always fits into the queue: `put` never
  -- meets `Full`, where it would close a connection and leave it counted.
  pub put_never_full :
      (max : ℕ) {u : System} (c : Conn)
      → Reach (start max) u
      → 0 < u.returning
      → channel_put c u.pool ≡ (returned tt, record (u.pool) { channel = u.pool.channel ++ c ∷ [] })
  put_never_full max {u} c r h =
      let v = Reach-IsValid (start-IsValid max) r in
      channel_put_room c u.pool (omega (arith, v.limit, v.counted, v.bounded))
