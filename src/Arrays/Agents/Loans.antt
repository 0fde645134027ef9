-- ===== src/Arrays/Agents/Loans.antt =====
-- controllers/array_action/storage_agent.py: a connection borrowed from an agent's pool and given back.
use ibm_block_csi_driver.Prelude.{
  ℕ, zero, suc, ◌≤◌, ◌≡◌, ◌≢◌, refl, ap, Bool, some, List, [], ◌∷◌, ◌++◌, length, arith,
}
use ibm_block_csi_driver.Outcome.{Outcome, returned, raised}
use ibm_block_csi_driver.Arrays.Pool.{Pool, get, put}
use ibm_block_csi_driver.Arrays.Pool.Calls.{put-get}
use ibm_block_csi_driver.Arrays.Agents.{
  Agent, Agents, nth, set_nth, with_pool, lent, borrow, give_back,
}

module _ {A : Type 0} where
  nth-set : (n : ℕ) (y z : A) (xs : List A) → nth n xs ≡ some z → nth n (set_nth n y xs) ≡ some y
  unfolding set_nth
  nth-set n y z [] h = cc
  nth-set zero y z (x ∷ xs) h = refl
  nth-set (suc n) y z (x ∷ xs) h = nth-set n y z xs h

  set-set : (n : ℕ) (y z : A) (xs : List A) → set_nth n z (set_nth n y xs) ≡ set_nth n z xs
  unfolding set_nth
  set-set n y z [] = refl
  set-set zero y z (x ∷ xs) = refl
  set-set (suc n) y z (x ∷ xs) = ap (λ r. x ∷ r) (set-set n y z xs)

  -- Writing one place leaves the others.
  nth-set_other : (n m : ℕ) (y : A) (xs : List A) → n ≢ m → nth m (set_nth n y xs) ≡ nth m xs
  unfolding set_nth
  nth-set_other n m y [] h = refl
  nth-set_other zero zero y (x ∷ xs) h = absurd (h refl)
  nth-set_other zero (suc m) y (x ∷ xs) h = refl
  nth-set_other (suc n) zero y (x ∷ xs) h = refl
  nth-set_other (suc n) (suc m) y (x ∷ xs) h = nth-set_other n m y xs (λ e. h (ap suc e))

module _ {Conn : Type 0} (i : ℕ) (a : Agent Conn) where
  lent-returned :
      (s s' : Agents Conn) (c : Conn) (g : Outcome Conn × Pool Conn)
      → lent s i a g ≡ (returned c, s')
      → (q : Pool Conn) × (g ≡ (returned c, q)) × (s' ≡ with_pool s i a q)
  lent-returned s s' c (returned d, q) e = (q, cc, cc)
  lent-returned s s' c (raised x, q) e = cc

module _ {Conn : Type 0} (active : Conn → Bool) (i : ℕ) (a : Agent Conn)
    (created : Outcome Conn) where
  give_back-with_pool :
      (s : Agents Conn) (q : Pool Conn) (c : Conn)
      → nth i s.made ≡ some a
      → put c q ≡ record q { channel = q.channel ++ c ∷ [] }
      → give_back i c (with_pool s i a q)
        ≡ (returned tt, with_pool s i a (record q { channel = q.channel ++ c ∷ [] }))
  unfolding give_back with_pool
  give_back-with_pool s q c there p =
      let one : Agent Conn = record a { pool = q } in
      let two : Agent Conn = record a { pool = record q { channel = q.channel ++ c ∷ [] } } in
      ground (arith, nth-set i one a s.made there, p, set-set i one two s.made)

  -- What a `with agent.get_mediator()` leaves of the agents, whatever its body did, when nothing else
  -- used this agent meanwhile: the pool as `get` left it, with the connection at the queue's end
  -- again. The count of the connections is right before.
  pub give_back-borrow :
      (s s' : Agents Conn) (c : Conn)
      → nth i s.made ≡ some a
      → length (a.pool.channel) ≤ a.pool.current_size
      → a.pool.current_size ≤ a.pool.max_size
      → borrow active i created s ≡ (returned c, s')
      → (q : Pool Conn) × (get active created a.pool ≡ (returned c, q))
        × (give_back i c s'
            ≡ (returned tt, with_pool s i a (record q { channel = q.channel ++ c ∷ [] })))
  unfolding borrow
  give_back-borrow s s' c there h k e =
      let (q, got, left) =
        lent-returned i a s s' c (get active created a.pool) (rw (there, borrow) at e) in
      (
        q,
        got,
        rw left (give_back-with_pool s q c there (put-get active a.pool q c created h k got)),
      )
