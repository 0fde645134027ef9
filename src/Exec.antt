-- ===== src/Exec.antt =====
-- Python methods that change state and may raise. What was written before a raise stays written, so
-- the state comes back beside the exception too.
use ibm_block_csi_driver.Prelude.{◌≡◌, refl, Bool, true, false}
use ibm_block_csi_driver.Errors.{Exception}
use ibm_block_csi_driver.Outcome.{Outcome, returned, raised}

abbrev pub Exec : Type 0 → Type 0 → Type 0
Exec S A = S → Outcome A × S

module _ {S A : Type 0} where
  abbrev pub pure : A → Exec S A
  pure a s = (returned a, s)

  abbrev pub raise : Exception → Exec S A
  raise e s = (raised e, s)

  -- A call that reads no state.
  abbrev pub lift : Outcome A → Exec S A
  lift r s = (r, s)

  -- The outcome of a call as a value: `try` without its handlers.
  abbrev pub attempt : Exec S A → Exec S (Outcome A)
  attempt m s = let (r, s') = m s in (returned r, s')

  -- `try: m  except …`, where the handler raises what it does not catch.
  abbrev pub try_except : Exec S A → (Exception → Exec S A) → Exec S A
  try_except m h s =
      let (r, s') = m s in elim r [ returned a ↦ (returned a, s') | raised e ↦ h e s' ]

module _ {S A B : Type 0} where
  infixl 5 ◌>>=◌ ◌>>◌
  abbrev pub ◌>>=◌ : Exec S A → (A → Exec S B) → Exec S B
  ◌>>=◌ m f s = let (r, s') = m s in elim r [ returned a ↦ f a s' | raised e ↦ (raised e, s') ]

  abbrev pub ◌>>◌ : Exec S A → Exec S B → Exec S B
  m >> k = m >>= λ _. k

module _ {S : Type 0} where
  abbrev pub raise_if : Bool → Exception → Exec S (Unit {0})
  raise_if true e = raise e
  raise_if false e = pure tt

  abbrev pub when : Bool → Exec S (Unit {0}) → Exec S (Unit {0})
  when true m = m
  when false m = pure tt

module _ {S A B : Type 0} where
  run-first :
      (o : Outcome A × S) (m : Exec S A) (k : A → Exec S B) (s s' : S) (b : B)
      → m s ≡ o
      → ((λ _. o) >>= k) s ≡ (returned b, s')
      → (a : A) × (t : S) × (m s ≡ (returned a, t)) × (k a t ≡ (returned b, s'))
  run-first (returned a, t) m k s s' b e h = (a, t, e, h)
  run-first (raised x, t) m k s s' b e h = cc

  -- Inversion of a chain that returns
  pub >>=-returned :
      (m : Exec S A) (k : A → Exec S B) (s s' : S) (b : B)
      → (m >>= k) s ≡ (returned b, s')
      → (a : A) × (t : S) × (m s ≡ (returned a, t)) × (k a t ≡ (returned b, s'))
  >>=-returned m k s s' b h = run-first (m s) m k s s' b refl h
