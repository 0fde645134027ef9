-- ===== src/Arrays/Pool.antt =====
-- controllers/array_action/array_connection_pool.py. Each block under `self.lock`, and each call of
-- the queue, is a function of its own: `get` and `put` run them in turn, and
-- Arrays/Pool/Interleaving.antt lets threads mix them. Whether a connection is active, and what
-- creating one does, is the environment's: an argument.
pub mod Calls
pub mod Interleaving
use ibm_block_csi_driver.Prelude.{
  ℕ, zero, suc, ◌+◌, ◌-◌, Bool, true, false, List, [], ◌∷◌, ◌++◌, length, ltb, leb, if◌then◌else◌,
  ◌&&◌,
}
use ibm_block_csi_driver.Errors.{Exception}
use ibm_block_csi_driver.Outcome.{Outcome, returned, raised}
use ibm_block_csi_driver.Exec.{Exec}

-- `current_size` counts the connections in the queue and those handed out. Where the code lowers it,
-- the invariant of Arrays/Pool/Interleaving.antt shows that it is not 0.
pub record Pool (Conn : Type 0) : Type 0 where
  pub max_size : ℕ
  pub current_size : ℕ
  pub channel : List Conn

module _ {Conn : Type 0} where
  -- `Queue.get`: the oldest item, or `Empty`
  unfoldable pub channel_get : Exec (Pool Conn) Conn
  channel_get p = elim p.channel [
    | [] ↦ (raised Exception.queue_empty, p)
    | c ∷ rest ↦ (returned c, record p { channel = rest })
  ]

  -- `Queue.put(block=False)`: at the end, or `Full`; a `Queue(0)` is never full
  unfoldable pub channel_put : Conn → Exec (Pool Conn) (Unit {0})
  channel_put c p =
      if ltb 0 p.max_size && leb p.max_size (length p.channel)
      then (raised Exception.queue_full, p)
      else (returned tt, record p { channel = p.channel ++ c ∷ [] })

  -- `with self.lock: self.current_size -= 1`
  unfoldable pub forget : Pool Conn → Pool Conn
  forget p = record p { current_size = p.current_size - 1 }

  -- `is_full`, and the place taken for a new connection where it is not
  unfoldable pub reserve : Pool Conn → Bool × Pool Conn
  reserve p =
      if leb p.max_size p.current_size
      then (true, p)
      else (false, record p { current_size = p.current_size + 1 })

  -- `discard`, and the place given up where it is true
  unfoldable pub check_discard : Pool Conn → Bool × Pool Conn
  unfolding forget
  check_discard p = if ltb p.max_size p.current_size then (true, forget p) else (false, p)

  -- The first loop of `get`: the oldest active item; inactive ones before it are dropped. Whether
  -- `disconnect` raises makes no difference, since it is caught.
  unfoldable pub drop_inactive : (Conn → Bool) → ℕ → List Conn → ℕ → Outcome Conn × Pool Conn
  drop_inactive active max [] size =
      (raised Exception.queue_empty, record { max_size = max; current_size = size; channel = [] })
  drop_inactive active max (c ∷ rest) size =
      let further = drop_inactive active max rest (size - 1) in
      if active c
      then (returned c, record { max_size = max; current_size = size; channel = rest })
      else further

  unfoldable pub get_free : (Conn → Bool) → Exec (Pool Conn) Conn
  unfolding drop_inactive
  get_free active p = drop_inactive active p.max_size p.channel p.current_size

  -- The rest of `get`, behind `is_full`: the queue, or a new connection in the place reserved. A full
  -- pool whose queue is empty waits, with no timeout for ever; in a call that nothing interrupts nobody
  -- gives a connection back, and the model ends such a wait with Empty, as a timeout does.
  abbrev get_or_create : Outcome Conn → Bool × Pool Conn → Outcome Conn × Pool Conn
  get_or_create created (true, q) = channel_get q
  get_or_create (returned c) (false, q) = (returned c, q)
  get_or_create (raised e) (false, q) = (raised e, forget q)

  unfoldable pub get_new : Outcome Conn → Exec (Pool Conn) Conn
  unfolding reserve forget channel_get
  get_new created p = get_or_create created (reserve p)

  abbrev or_new : Outcome Conn → Outcome Conn × Pool Conn → Outcome Conn × Pool Conn
  or_new created (returned c, q) = (returned c, q)
  or_new created (raised e, q) = get_new created q

  unfoldable pub get : (Conn → Bool) → Outcome Conn → Exec (Pool Conn) Conn
  unfolding get_free get_new
  get active created p = or_new created (get_free active p)

  -- `put`: the item goes to the queue, or it is disconnected.
  unfoldable pub put : Conn → Pool Conn → Pool Conn
  unfolding check_discard channel_put
  put c p = let (discard, q) = check_discard p in if discard then q else (channel_put c q).1

  -- `__init__`: `min_size` rounds of `self.put(self.get())`
  pub fill : (Conn → Bool) → List (Outcome Conn) → Exec (Pool Conn) (Unit {0})
  fill active [] p = (returned tt, p)
  fill active (created ∷ more) p =
      let (r, q) = get active created p in
      let refill = λ (c : Conn). fill active more (put c q) in
      elim r [ returned c ↦ refill c | raised e ↦ (raised e, q) ]

  abbrev pub new : ℕ → Pool Conn
  new max_size = record { max_size = max_size; current_size = 0; channel = [] }
