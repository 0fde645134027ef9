-- ===== src/Arrays/Pool/Calls.antt =====
-- What one `get`, and the `put` after it, do when no other thread comes between.
use ibm_block_csi_driver.Prelude.{
  ℕ, ◌+◌, ◌-◌, ◌≤◌, ◌<◌, ◌≡◌, refl, ap, ◌∙◌, subst, Bool, true, false, List, [], ◌∷◌, ◌++◌, length,
  All, leb, Bool-cases, inl, inr, if◌then◌else◌, arith,
}
use ibm_block_csi_driver.Errors.{Exception}
use ibm_block_csi_driver.Outcome.{Outcome, returned, raised}
use ibm_block_csi_driver.Arrays.Pool.{
  Pool, drop_inactive, get_free, channel_get, get_new, get_or_create, or_new, get, put,
}

module _ {Conn : Type 0} (active : Conn → Bool) where
  abbrev pub Inactive : Conn → Type 0
  Inactive c = active c ≡ false

  drop_inactive-append :
      (max : ℕ) (dead : List Conn) (c : Conn) (rest : List Conn) (size : ℕ)
      → All Inactive dead
      → active c ≡ true
      → drop_inactive active max (dead ++ c ∷ rest) size
        ≡ (returned c, record { max_size = max; current_size = size - length dead; channel = rest })
  unfolding drop_inactive
  drop_inactive-append max [] c rest size h a = ground arith
  drop_inactive-append max (d ∷ dead) c rest size h a =
      ground (arith, drop_inactive-append max dead c rest (size - 1) h.1 a)

  drop_inactive-All :
      (max : ℕ) (dead : List Conn) (size : ℕ)
      → All Inactive dead
      → drop_inactive active max dead size ≡ (
        raised Exception.queue_empty,
        record { max_size = max; current_size = size - length dead; channel = [] },
      )
  unfolding drop_inactive
  drop_inactive-All max [] size h = ground arith
  drop_inactive-All max (d ∷ dead) size h =
      ground (arith, drop_inactive-All max dead (size - 1) h.1)

  -- `get` hands out the oldest active connection of the queue. The inactive ones before it are
  -- dropped and no longer counted, those behind it stay, and no connection is created.
  get_active :
      (max size : ℕ) (dead : List Conn) (c : Conn) (rest : List Conn) (created : Outcome Conn)
      → All Inactive dead
      → active c ≡ true
      → get active created
          (record { max_size = max; current_size = size; channel = dead ++ c ∷ rest })
        ≡ (returned c, record { max_size = max; current_size = size - length dead; channel = rest })
  unfolding get
  get_active max size dead c rest created h a =
      ap (or_new created) (drop_inactive-append max dead c rest size h a)

  -- What `get` does once the queue held no active connection: it creates one where the count is
  -- below the limit, and gives the place back if that fails; at the limit the queue is empty.
  abbrev pub fresh : ℕ → ℕ → Outcome Conn → Outcome Conn × Pool Conn
  fresh max size created =
      if leb max size
      then (
        raised Exception.queue_empty,
        record { max_size = max; current_size = size; channel = [] },
      )
      else elim created [
        | returned c ↦
            (returned c, record { max_size = max; current_size = size + 1; channel = [] })
        | raised e ↦ (raised e, record { max_size = max; current_size = size; channel = [] })
      ]

  get_new-fresh :
      (max size : ℕ) (created : Outcome Conn)
      → get_new created (record { max_size = max; current_size = size; channel = [] })
        ≡ fresh max size created
  unfolding get_new
  get_new-fresh max size (returned c) = ground arith
  get_new-fresh max size (raised e) = ground arith

  -- With no active connection in the queue, `get` drops them all, and then creates one where the
  -- count is below the limit (a failure to create is raised and counts nothing), or else finds the
  -- queue empty.
  get-Inactive :
      (max size : ℕ) (dead : List Conn) (created : Outcome Conn)
      → All Inactive dead
      → get active created (record { max_size = max; current_size = size; channel = dead })
        ≡ fresh max (size - length dead) created
  unfolding get
  get-Inactive max size dead created h =
      ap (or_new created) (drop_inactive-All max dead size h)
      ∙ get_new-fresh max (size - length dead) created

  -- The counts that an outcome leaves: a connection handed out is counted beside the queue's.
  abbrev Fits : ℕ → Outcome Conn × Pool Conn → Type 0
  Fits max (returned c, q) =
      (q.max_size ≡ max) × (length q.channel < q.current_size) × (q.current_size ≤ max)
  Fits max (raised e, q) =
      (q.max_size ≡ max) × (length q.channel ≤ q.current_size) × (q.current_size ≤ max)

  drop_inactive-Fits :
      (max : ℕ) (channel : List Conn) (size : ℕ)
      → length channel ≤ size
      → size ≤ max
      → Fits max (drop_inactive active max channel size)
  unfolding drop_inactive
  drop_inactive-Fits max [] size h k = (refl, h, k)
  drop_inactive-Fits max (c ∷ rest) size h k = elim (Bool-cases (active c)) [
    | inl e ↦ rw e (refl, omega arith, k)
    | inr e ↦ rw e (drop_inactive-Fits max rest (size - 1) (omega arith) (omega arith))
  ]

  channel_get-Fits :
      (max size : ℕ) (channel : List Conn)
      → length channel ≤ size
      → size ≤ max
      → Fits max (channel_get (record { max_size = max; current_size = size; channel = channel }))
  unfolding channel_get
  channel_get-Fits max size [] h k = (refl, h, k)
  channel_get-Fits max size (c ∷ rest) h k = (refl, omega arith, k)

  reserved-Fits :
      (p : Pool Conn) (created : Outcome Conn)
      → length p.channel ≤ p.current_size
      → leb p.max_size p.current_size ≡ false
      → Fits p.max_size
          (get_or_create created (false, record p { current_size = p.current_size + 1 }))
  unfolding get_new
  reserved-Fits p (returned c) h room = (refl, omega arith, ground arith)
  reserved-Fits p (raised e) h room = (refl, omega arith, ground arith)

  get_new-Fits :
      (p : Pool Conn) (created : Outcome Conn)
      → length p.channel ≤ p.current_size
      → p.current_size ≤ p.max_size
      → Fits p.max_size (get_new created p)
  unfolding get_new
  get_new-Fits p created h k = elim (Bool-cases (leb p.max_size p.current_size)) [
    | inl full ↦ rw full (channel_get-Fits p.max_size p.current_size p.channel h k)
    | inr room ↦ rw room (reserved-Fits p created h room)
  ]

  or_new-Fits :
      (max : ℕ) (created : Outcome Conn) (r : Outcome Conn × Pool Conn)
      → Fits max r
      → Fits max (or_new created r)
  or_new-Fits max created (returned c, q) f = f
  or_new-Fits max created (raised e, q) f =
      subst (λ m. Fits m (get_new created q)) f.0 (get_new-Fits q created f.1 (rw f.0 f.2))

  get-Fits :
      (p : Pool Conn) (created : Outcome Conn)
      → length p.channel ≤ p.current_size
      → p.current_size ≤ p.max_size
      → Fits p.max_size (get active created p)
  unfolding get
  get-Fits p created h k =
      or_new-Fits p.max_size created (get_free active p)
        (drop_inactive-Fits p.max_size p.channel p.current_size h k)

  -- A connection that `get` handed out comes back to the end of the queue, when the counts were
  -- right: it is neither closed nor dropped from the count.
  pub put-get :
      (p q : Pool Conn) (c : Conn) (created : Outcome Conn)
      → length p.channel ≤ p.current_size
      → p.current_size ≤ p.max_size
      → get active created p ≡ (returned c, q)
      → put c q ≡ record q { channel = q.channel ++ c ∷ [] }
  unfolding put
  put-get p q c created h k e =
      let f : Fits p.max_size (returned c, q) =
        subst (Fits p.max_size) e (get-Fits p created h k) in
      ground arith
