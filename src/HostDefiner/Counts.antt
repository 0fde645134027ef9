-- ===== src/HostDefiner/Counts.antt =====
-- controllers/servers/host_definer/watcher/storage_class_watcher.py: how many storage classes use a secret.
use ibm_block_csi_driver.Prelude.{
  zero, suc, ℤ, pos, negsuc, ◌≡◌, refl, ap, ◌∙◌, inl, inr, true, Bool-cases, Option, none, some,
  List, [], ◌∷◌, ◌++◌, All, arith,
}
use ibm_block_csi_driver.Outcome.{returned}
use ibm_block_csi_driver.Exec.{Exec}
use ibm_block_csi_driver.HostDefiner.Secrets.{
  SecretInfo, add_one, subtract_one, is_zero, is_same_secret, get_matching_managed_secret_info,
  replace_matching, handle_deleted_watch_event, define_nodes_when_new_secret,
  handle_added_watch_event,
}
use ibm_block_csi_driver.HostDefiner.Matching.{
  count, known, bump, drop, fresh, less, Counted, Keeps, Added, release_less, count-less,
  less-Keeps, append-Added, replace-Added,
}

bumps : List SecretInfo → SecretInfo → ℤ → ℤ
bumps [] k z = z
bumps (info ∷ infos) k z = bumps infos k (bump info k z)

drops : List SecretInfo → SecretInfo → ℤ → ℤ
drops [] k z = z
drops (info ∷ infos) k z = drops infos k (drop info k z)

subtract_one-add_one : (z : ℤ) → subtract_one (add_one z) ≡ z
subtract_one-add_one (pos n) = refl
subtract_one-add_one (negsuc zero) = refl
subtract_one-add_one (negsuc (suc n)) = refl

drop-bump : (info k : SecretInfo) (z : ℤ) → drop info k (bump info k z) ≡ z
drop-bump info k z = elim (Bool-cases (is_same_secret info k)) [
  | inl same ↦ rw (same, subtract_one-add_one z)
  | inr other ↦ rw other
]

bump-bump : (a b k : SecretInfo) (z : ℤ) → bump a k (bump b k z) ≡ bump b k (bump a k z)
bump-bump a b k z = elim (Bool-cases (is_same_secret a k)) [
  | inl same ↦ rw same (ground arith)
  | inr other ↦ rw other (ground arith)
]

bumps-bump :
    (info : SecretInfo) (infos : List SecretInfo) (k : SecretInfo) (z : ℤ)
    → bumps infos k (bump info k z) ≡ bump info k (bumps infos k z)
unfolding bumps
bumps-bump info [] k z = refl
bumps-bump info (i ∷ infos) k z =
    ap (bumps infos k) (bump-bump i info k z) ∙ bumps-bump info infos k (bump i k z)

drops-bumps :
    (infos : List SecretInfo) (k : SecretInfo) (z : ℤ) → drops infos k (bumps infos k z) ≡ z
unfolding bumps drops
drops-bumps [] k z = refl
drops-bumps (info ∷ infos) k z =
    ap (λ x. drops infos k (drop info k x)) (bumps-bump info infos k z)
    ∙ ap (drops infos k) (drop-bump info k (bumps infos k z))
    ∙ drops-bumps infos k z

abbrev AllKnown : List SecretInfo → List SecretInfo → Type 0
AllKnown infos secrets = All (λ i. known i secrets ≡ true) infos

AllKnown-Keeps : (infos a b : List SecretInfo) → Keeps a b → AllKnown infos a → AllKnown infos b
AllKnown-Keeps [] a b k h = tt
AllKnown-Keeps (i ∷ infos) a b k h = (k i h.0, AllKnown-Keeps infos a b k h.1)

abbrev Released : {S : Type 0} → List SecretInfo → List SecretInfo → S → Type 0
Released infos secrets s =
    (rest : List SecretInfo) × (handle_deleted_watch_event infos (secrets, s)
      ≡ (returned tt, (rest, s)))
    × Counted (drops infos) secrets rest

one-Released :
    {S : Type 0} (info : SecretInfo) (infos secrets : List SecretInfo) (s : S)
    (found : Option SecretInfo)
    → get_matching_managed_secret_info info secrets ≡ found
    → known info secrets ≡ true
    → AllKnown infos secrets
    → ((l : List SecretInfo) → AllKnown infos l → Released infos l s)
    → Released (info ∷ infos) secrets s
unfolding handle_deleted_watch_event drops
one-Released info infos secrets s none e h k next = absurd (ground (arith, e))
one-Released info infos secrets s (some m) e h k next =
    let (rest, done, counted) =
      next (less info m secrets e)
        (AllKnown-Keeps infos secrets (less info m secrets e) (less-Keeps info m secrets e) k) in
    (
      rest,
      ground (arith, release_less info m secrets e, done),
      λ j. counted j ∙ ap (drops infos j) (count-less info m secrets e j),
    )

all-Released :
    {S : Type 0} (infos secrets : List SecretInfo) (s : S)
    → AllKnown infos secrets
    → Released infos secrets s
unfolding handle_deleted_watch_event drops
all-Released [] secrets s k = (secrets, refl, λ j. refl)
all-Released (info ∷ infos) secrets s k =
    one-Released info infos secrets s (get_matching_managed_secret_info info secrets) refl k.0 k.1
      (λ l m. all-Released infos l s m)

add_zero_one : (z : ℤ) → is_zero z ≡ true → pos 1 ≡ add_one z
add_zero_one (pos zero) h = refl
add_zero_one (pos (suc n)) h = cc
add_zero_one (negsuc n) h = cc

module _ {S : Type 0}
    (define_nodes_from_secret_info : SecretInfo → Exec (List SecretInfo × S) (Unit {0}))
    (keeps : (i : SecretInfo) (l : List SecretInfo) (s : S)
      → (t : S) × (define_nodes_from_secret_info i (l, s) ≡ (returned tt, (l, t)))) where
  abbrev define_when_new : SecretInfo → Exec (List SecretInfo × S) (Unit {0})
  define_when_new = define_nodes_when_new_secret define_nodes_from_secret_info

  abbrev Comes : SecretInfo → List SecretInfo → S → Type 0
  Comes info secrets s =
      (after : List SecretInfo) × (t : S) × (define_when_new info (secrets, s)
        ≡ (returned tt, (after, t)))
      × Added info secrets after

  comes :
      (info : SecretInfo) (secrets : List SecretInfo) (s : S) (found : Option SecretInfo)
      → get_matching_managed_secret_info info secrets ≡ found
      → Comes info secrets s
  unfolding define_nodes_when_new_secret count
  comes info secrets s none e =
      let after = secrets ++ fresh info (pos 1) ∷ [] in
      let (t, kept) = keeps (fresh info (pos 1)) after s in
      (after, t, ground (arith, e, kept), append-Added info (pos 1) secrets (ground (arith, e)) e)
  comes info secrets s (some m) e = elim (Bool-cases (is_zero m.managed_storage_classes)) [
    | inl unused ↦
        let after = replace_matching info (λ t. fresh info (pos 1)) secrets in
        let (t, kept) = keeps (fresh info (pos 1)) after s in
        (
          after,
          t,
          ground (arith, e, kept),
          replace-Added info (pos 1) secrets
              (add_zero_one m.managed_storage_classes unused ∙ ground (arith, e)) m e,
        )
    | inr used ↦ (
      replace_matching info (λ t. fresh info (add_one m.managed_storage_classes)) secrets,
      s,
      ground (arith, e),
      replace-Added info (add_one m.managed_storage_classes) secrets (ground (arith, e)) m e,
    )
  ]

  abbrev AllCome : List SecretInfo → List SecretInfo → S → Type 0
  AllCome infos secrets s =
      (after : List SecretInfo) × (t : S) × (handle_added_watch_event define_nodes_from_secret_info
          infos (secrets, s)
        ≡ (returned tt, (after, t)))
      × Counted (bumps infos) secrets after
      × Keeps secrets after
      × AllKnown infos after

  all_come : (infos secrets : List SecretInfo) (s : S) → AllCome infos secrets s
  unfolding handle_added_watch_event bumps
  all_come [] secrets s = (secrets, s, refl, λ k. refl, λ k h. h, tt)
  all_come (info ∷ infos) secrets s =
      let (l, t, one, (counted, kept, its)) =
        comes info secrets s (get_matching_managed_secret_info info secrets) refl in
      let (after, u, more, counts, keep, all) = all_come infos l t in
      (
        after,
        u,
        ground (arith, one, more),
        λ k. counts k ∙ ap (bumps infos k) (counted k),
        λ k h. keep k (kept k h),
        (keep info its, all),
      )

  -- A storage class that comes and then goes leaves every secret with as many classes as before, where the
  -- definition of the nodes succeeds and leaves the managed secrets alone.
  pub handle_deleted_watch_event-handle_added_watch_event :
      (infos secrets : List SecretInfo) (s : S)
      → (after : List SecretInfo) × (t : S) × (rest : List SecretInfo) × (handle_added_watch_event
            define_nodes_from_secret_info infos
            (secrets, s)
          ≡ (returned tt, (after, t)))
        × (handle_deleted_watch_event infos (after, t) ≡ (returned tt, (rest, t)))
        × ((k : SecretInfo) → count k rest ≡ count k secrets)
  handle_deleted_watch_event-handle_added_watch_event infos secrets s =
      let (after, t, added, counts, keep, all) = all_come infos secrets s in
      let (rest, deleted, counted) = all-Released infos after t all in
      (
        after,
        t,
        rest,
        added,
        deleted,
        λ k. counted k ∙ ap (drops infos k) (counts k) ∙ drops-bumps infos k (count k secrets),
      )
