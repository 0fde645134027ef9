-- ===== src/Arrays/Agents/Table.antt =====
-- controllers/array_action/storage_agent.py: which agent a request is served by.
use ibm_block_csi_driver.Prelude.{
  ℕ, zero, suc, ◌<◌, ◌≤◌, ◌≡◌, refl, Bool, true, false, Option, none, some, Option-cases,
  Bool-cases, inl, inr, String, List, [], ◌∷◌, ◌++◌, length, length-append, All, ◌==◌, eq_iff,
  eq_refl, arith,
}
use ibm_block_csi_driver.Outcome.{Outcome, returned, raised, Outcome-cases}
use ibm_block_csi_driver.Arrays.Pool.{Pool}
use ibm_block_csi_driver.Requests.Secrets.{ArrayConnectionInfo}
use ibm_block_csi_driver.Arrays.Agents.{
  AgentKey, same_id, same_key, key_of, Agent, Agents, nth, find_agent, forget_agent, enrol,
  new_pool, make_agent, get_agent,
}

same_id_refl : (s : Option String) → same_id s s ≡ true
same_id_refl none = refl
same_id_refl (some s) = eq_refl s

same_key_refl : (k : AgentKey) → same_key k k ≡ true
unfolding same_key
same_key_refl k = rw (eq_refl k.username, eq_refl k.endpoint_key, same_id_refl k.system_id)

All-lt-suc :
    (n m : ℕ) (table : List (AgentKey × ℕ))
    → n ≤ m
    → All (λ (e : AgentKey × ℕ). e.1 < n) table
    → All (λ (e : AgentKey × ℕ). e.1 < m) table
All-lt-suc n m [] h k = tt
All-lt-suc n m (e ∷ table) h k = (omega (arith, k.0), All-lt-suc n m table h k.1)

forget_agent-All :
    (key : AgentKey) (n : ℕ) (table : List (AgentKey × ℕ))
    → All (λ (e : AgentKey × ℕ). e.1 < n) table
    → All (λ (e : AgentKey × ℕ). e.1 < n) (forget_agent key table)
unfolding forget_agent
forget_agent-All key n [] k = tt
forget_agent-All key n ((j, i) ∷ table) k = elim (Bool-cases (same_key j key)) [
  | inl same ↦ rw same (forget_agent-All key n table k.1)
  | inr other ↦ rw other (k.0, forget_agent-All key n table k.1)
]

find-lt :
    (key : AgentKey) (n i : ℕ) (table : List (AgentKey × ℕ))
    → All (λ (e : AgentKey × ℕ). e.1 < n) table
    → find_agent key table ≡ some i
    → i < n
unfolding find_agent
find-lt key n i [] k h = cc
find-lt key n i ((j, m) ∷ table) k h = ground (arith, k.0, find-lt key n i table k.1)

module _ {Conn : Type 0} where
  nth-append :
      (made : List (Agent Conn)) (a : Agent Conn) → nth (length made) (made ++ a ∷ []) ≡ some a
  nth-append [] a = refl
  nth-append (b ∷ made) a = nth-append made a

  nth-lt :
      (n : ℕ) (made : List (Agent Conn))
      → n < length made
      → (a : Agent Conn) × (nth n made ≡ some a)
  nth-lt n [] h = absurd (omega arith)
  nth-lt zero (a ∷ made) h = (a, refl)
  nth-lt (suc n) (a ∷ made) h = nth-lt n made (omega arith)

  -- Every entry of the table stands for an agent that was made.
  abbrev pub TableIsValid : Agents Conn → Type 0
  TableIsValid s = All (λ (e : AgentKey × ℕ). e.1 < length s.made) s.table

  -- The table finds an agent for the request's key, and it was made with the request's password.
  abbrev pub Serves : ArrayConnectionInfo → ℕ → Agents Conn → Type 0
  Serves info i s =
      (find_agent (key_of info) s.table ≡ some i)
      × ((a : Agent Conn) × (nth i s.made ≡ some a) × (a.password ≡ info.password))

  -- What `get_agent` leaves: the agent it gives serves the request, or there is none any more.
  abbrev pub Served : ArrayConnectionInfo → Outcome ℕ × Agents Conn → Type 0
  Served info (returned i, s) = Serves info i s × TableIsValid s
  Served info (raised e, s) = (find_agent (key_of info) s.table ≡ none) × TableIsValid s

  enrol-Serves :
      (info : ArrayConnectionInfo) (pool : Pool Conn) (s : Agents Conn)
      → TableIsValid s
      → Serves info (length s.made) (enrol info pool s) × TableIsValid (enrol info pool s)
  unfolding enrol find_agent
  enrol-Serves info pool s v =
      let a : Agent Conn = record { password = info.password; pool = pool } in
      let grown = length-append s.made (a ∷ []) in
      (
        (rw (same_key_refl (key_of info)) refl, (a, nth-append s.made a, refl)),
        (omega (arith, grown), All-lt-suc (length s.made) _ s.table (omega (arith, grown)) v),
      )

find-forget :
    (key : AgentKey) (table : List (AgentKey × ℕ)) → find_agent key (forget_agent key table) ≡ none
unfolding find_agent forget_agent
find-forget key [] = refl
find-forget key ((j, i) ∷ table) = ground (arith, find-forget key table)

-- An agent with another key stays.
find-forget_other :
    (key other : AgentKey) (table : List (AgentKey × ℕ))
    → ((j : AgentKey) → same_key j key ≡ true → same_key j other ≡ false)
    → find_agent other (forget_agent key table) ≡ find_agent other table
unfolding find_agent forget_agent
find-forget_other key other [] h = refl
find-forget_other key other ((j, i) ∷ table) h =
    ground (arith, h j, find-forget_other key other table)

module _ {Conn : Type 0} (active : Conn → Bool)
    (create : ArrayConnectionInfo → String → Outcome Conn) (info : ArrayConnectionInfo)
    (t : String) where
  make_agent-Served :
      (s : Agents Conn)
      → TableIsValid s
      → find_agent (key_of info) s.table ≡ none
      → Served info (make_agent active create info t s)
  unfolding make_agent
  make_agent-Served s v h = elim (Outcome-cases (new_pool active create info t)) [
    | inl (pool, made) ↦ rw (made, make_agent, Served) (enrol-Serves info pool s v)
    | inr (e, failed) ↦ rw (failed, make_agent, Served) (h, v)
  ]

  -- The agent that `get_agent` gives stands in the table under the request's key and has the request's
  -- password, so one made with another password is never given; where making it fails, the table
  -- holds none under that key. Every entry still stands for an agent that was made.
  pub get_agent-Served :
      (s : Agents Conn) → TableIsValid s → Served info (get_agent active create info t s)
  unfolding get_agent
  get_agent-Served s v = elim (Option-cases (find_agent (key_of info) s.table)) [
    | inl new ↦ rw (new, get_agent) (make_agent-Served s v new)
    | inr (i, found) ↦
        let (a, there) = nth-lt i s.made (find-lt (key_of info) _ i s.table v found) in
        elim (Bool-cases (a.password == info.password)) [
          | inl same ↦
              rw (found, get_agent, there, same) ((found, (a, there, (eq_iff _ _).0 same)), v)
          | inr changed ↦
              rw (found, get_agent, there, changed)
                (make_agent-Served _ (forget_agent-All _ _ s.table v) (find-forget _ s.table))
        ]
  ]
