-- ===== src/Csi/Lock/Exclusion.antt =====
-- RPCs of several threads: each takes its lock, works and releases it, in any interleaving. Each step
-- under `ids_in_use_lock` is one step here.
use ibm_block_csi_driver.Prelude.{
  ℕ, ◌+◌, ◌≤◌, ◌≡◌, ◌≢◌, Bool, true, false, String, List, [], ◌∷◌, ◌&&◌, ◌==◌, eq_iff,
  if◌then◌else◌, arith, truthy, nat_eq,
}
use ibm_block_csi_driver.Outcome.{returned}
use ibm_block_csi_driver.Csi.Lock.{Process, in_use, enter, exit}
use ibm_block_csi_driver.Csi.Lock.Membership.{in_use-add, in_use-remove}

-- A thread inside a `with SyncLock(key, id, …)` block.
pub record Holder : Type 0 where
  pub thread : ℕ
  pub key : String
  pub id : String

abbrev is_holder : ℕ → String → String → Holder → Bool
is_holder t key id h = nat_eq h.thread t && h.key == key && h.id == id

abbrev pub count : String → String → List Holder → ℕ
count key id [] = 0
count key id (h ∷ hs) = (if h.key == key && h.id == id then 1 else 0) + count key id hs

abbrev holds : ℕ → String → String → List Holder → Bool
holds t key id [] = false
holds t key id (h ∷ hs) = if is_holder t key id h then true else holds t key id hs

abbrev leave : ℕ → String → String → List Holder → List Holder
leave t key id [] = []
leave t key id (h ∷ hs) = if is_holder t key id h then hs else h ∷ leave t key id hs

pub record System : Type 0 where
  pub process : Process Unit
  pub holders : List Holder

-- One thread enters its block, is refused, or leaves it; `enter` and `exit` are the code's.
pub data Step (s : System) : System → Type 0 where
  enters :
      (t : ℕ) (key id : String)
      → truthy key ≡ true
      → (enter key id s.process).0 ≡ returned tt
      → Step s (record {
        process = (enter key id s.process).1;
        holders = record { thread = t; key = key; id = id } ∷ s.holders;
      })
  is_refused :
      (t : ℕ) (key id : String)
      → (enter key id s.process).0 ≢ returned tt
      → Step s (record { process = (enter key id s.process).1; holders = s.holders })
  leaves :
      (t : ℕ) (key id : String)
      → truthy key ≡ true
      → holds t key id s.holders ≡ true
      → Step s (record { process = (exit key id s.process).1; holders = leave t key id s.holders })

pub data Reach (s : System) : System → Type 0 where
  here : Reach s s
  next : {t u : System} → Reach s t → Step t u → Reach s u

abbrev one_if : Bool → ℕ
one_if true = 1
one_if false = 0

-- Whoever is inside a block has its object marked, and nobody else is inside a block for it.
abbrev IsExclusive : System → Type 0
IsExclusive s = (k i : String) → count k i s.holders ≤ one_if (in_use k i s.process.locks)

count-leave :
    (t : ℕ) (key id k i : String) (hs : List Holder)
    → holds t key id hs ≡ true
    → count k i (leave t key id hs) + (if key == k && id == i then 1 else 0) ≡ count k i hs
count-leave t key id k i [] h = cc
count-leave t key id k i (x ∷ hs) h = ground (
  arith,
  count-leave t key id k i hs,
  eq_iff x.key key,
  eq_iff x.id id,
  eq_iff x.key k,
  eq_iff x.id i,
  eq_iff key k,
  eq_iff id i,
)

module _ (s : System) (key id k i : String) (v : IsExclusive s) where
  enter-count :
      truthy key ≡ true
      → (enter key id s.process).0 ≡ returned tt
      → (if key == k && id == i then 1 else 0) + count k i s.holders
        ≤ one_if (in_use k i (enter key id s.process).1.locks)
  unfolding enter
  enter-count h e =
      ground (arith, in_use-add key id k i s.process.locks, v k i, eq_iff key k, eq_iff id i)

  refused-count :
      (enter key id s.process).0 ≢ returned tt
      → count k i s.holders ≤ one_if (in_use k i (enter key id s.process).1.locks)
  unfolding enter
  refused-count e = ground (arith, v k i)

  exit-count :
      (t : ℕ)
      → truthy key ≡ true
      → holds t key id s.holders ≡ true
      → count k i (leave t key id s.holders) ≤ one_if (in_use k i (exit key id s.process).1.locks)
  unfolding exit
  exit-count t h e = ground (
    arith,
    in_use-remove key id k i s.process.locks,
    count-leave t key id k i s.holders e,
    v k i,
    eq_iff key k,
    eq_iff id i,
  )

Step-IsExclusive : {s u : System} → Step s u → IsExclusive s → IsExclusive u
Step-IsExclusive {s} (enters t key id h e) v k i = enter-count s key id k i v h e
Step-IsExclusive {s} (is_refused t key id e) v k i = refused-count s key id k i v e
Step-IsExclusive {s} (leaves t key id h e) v k i = exit-count s key id k i v t h e

Reach-IsExclusive : {s u : System} → IsExclusive s → Reach s u → IsExclusive u
Reach-IsExclusive v here = v
Reach-IsExclusive v (next r st) = Step-IsExclusive st (Reach-IsExclusive v r)

abbrev pub start : System
start = record { process = record { locks = []; arrays = tt }; holders = [] }

start-IsExclusive : IsExclusive start
unfolding in_use
start-IsExclusive k i = omega arith

one_if-le : (b : Bool) → one_if b ≤ 1
one_if-le true = omega arith
one_if-le false = omega arith

-- However the calls of any threads interleave, from a process with no call under way, at most one
-- thread at a time is inside a block for one object under one lock key.
pub exclusive : {u : System} → Reach start u → (key id : String) → count key id u.holders ≤ 1
exclusive {u} r key id =
    omega (
      arith,
      Reach-IsExclusive start-IsExclusive r key id,
      one_if-le (in_use key id u.process.locks),
    )
