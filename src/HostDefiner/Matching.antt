-- ===== src/HostDefiner/Matching.antt =====
-- controllers/servers/host_definer/watcher/storage_class_watcher.py: which managed
-- secret is found, and its count, after the list of them has changed.
use ibm_block_csi_driver.Prelude.{
  ℤ, pos, ◌≡◌, refl, ap, sym, ◌∙◌, inl, inr, Bool, true, false, Bool-cases, ◌&&◌, Option, none,
  some, List, [], ◌∷◌, ◌++◌, ◌==◌, eq_iff, eq_refl, if◌then◌else◌, arith,
}
use ibm_block_csi_driver.Outcome.{returned}
use ibm_block_csi_driver.HostDefiner.Secrets.{
  SecretInfo, add_one, subtract_one, is_same_secret, with_classes, use_less,
  get_matching_managed_secret_info, replace_matching, release_secret,
}

-- The number of classes that use a secret; none use one that is not managed.
abbrev pub number : Option SecretInfo → ℤ
number none = pos 0
number (some s) = s.managed_storage_classes

abbrev pub is_there : Option SecretInfo → Bool
is_there none = false
is_there (some s) = true

unfoldable pub count : SecretInfo → List SecretInfo → ℤ
unfolding get_matching_managed_secret_info
count k secrets = number (get_matching_managed_secret_info k secrets)

same_fields :
    (a b : SecretInfo) → is_same_secret a b ≡ true → (a.name ≡ b.name) × (a.namespace ≡ b.namespace)
same_fields a b h =
    ((eq_iff a.name b.name).0 (ground arith), (eq_iff a.namespace b.namespace).0 (ground arith))

-- Secrets that are the same are the same as the same others.
same-left :
    (a b k : SecretInfo) → is_same_secret a b ≡ true → is_same_secret a k ≡ is_same_secret b k
same-left a b k h =
    let (n, m) = same_fields a b h in
    ap (λ x. x == k.name && (a.namespace == k.namespace)) n
    ∙ ap (λ y. b.name == k.name && (y == k.namespace)) m

same_refl : (a : SecretInfo) → is_same_secret a a ≡ true
same_refl a = rw (eq_refl a.name, eq_refl a.namespace)

same-apart :
    (s info k : SecretInfo)
    → is_same_secret s k ≡ true
    → is_same_secret s info ≡ false
    → is_same_secret info k ≡ false
same-apart s info k hit other = elim (Bool-cases (is_same_secret info k)) [
  | inr miss ↦ miss
  | inl same ↦
      let e = sym (same-left s k info hit) ∙ other in
      let r = sym (same-left info k info same) ∙ same_refl info in absurd (ground (arith, e, r))
]

module _ (info : SecretInfo) (f : SecretInfo → SecretInfo)
    (keeps : (s k : SecretInfo)
      → is_same_secret s info ≡ true
      → is_same_secret (f s) k ≡ is_same_secret info k) where
  abbrev pub changed : Option SecretInfo → Option SecretInfo
  changed none = none
  changed (some s) = some (f s)

  -- What is found after a secret is replaced: for the secret itself, the replacement
  matching-replace :
      (k : SecretInfo) (secrets : List SecretInfo)
      → get_matching_managed_secret_info k (replace_matching info f secrets) ≡ (
          if is_same_secret info k
          then changed (get_matching_managed_secret_info info secrets)
          else get_matching_managed_secret_info k secrets)
  unfolding get_matching_managed_secret_info replace_matching
  matching-replace k [] = ground arith
  matching-replace k (s ∷ secrets) = elim (Bool-cases (is_same_secret s info)) [
    | inl same ↦ rw (same, keeps s k same, same-left s info k same) (ground arith)
    | inr other ↦ elim (Bool-cases (is_same_secret s k)) [
      | inl hit ↦ rw (other, hit, same-apart s info k hit other)
      | inr miss ↦ rw (other, miss, matching-replace k secrets)
    ]
  ]

-- What is found in a list with one more secret
abbrev pub or_else : Option SecretInfo → Option SecretInfo → Option SecretInfo
or_else none b = b
or_else (some a) b = some a

matching-append :
    (k x : SecretInfo) (secrets : List SecretInfo)
    → get_matching_managed_secret_info k (secrets ++ x ∷ [])
      ≡ or_else
          (get_matching_managed_secret_info k secrets)
          (if is_same_secret x k then some x else none)
unfolding get_matching_managed_secret_info
matching-append k x [] = refl
matching-append k x (s ∷ secrets) = ground (arith, matching-append k x secrets)

same-right :
    (s a b : SecretInfo) → is_same_secret a b ≡ true → is_same_secret s a ≡ is_same_secret s b
same-right s a b h =
    let (n, m) = same_fields a b h in
    ap (λ x. s.name == x && (s.namespace == a.namespace)) n
    ∙ ap (λ y. s.name == b.name && (s.namespace == y)) m

-- The same secret is found for secrets that are the same.
matching-same :
    (a b : SecretInfo) (secrets : List SecretInfo)
    → is_same_secret a b ≡ true
    → get_matching_managed_secret_info a secrets ≡ get_matching_managed_secret_info b secrets
unfolding get_matching_managed_secret_info
matching-same a b [] h = refl
matching-same a b (s ∷ secrets) h = rw (same-right s a b h, matching-same a b secrets h)

module _ (info : SecretInfo) (n : ℤ) where
  abbrev pub fresh : SecretInfo
  fresh = with_classes n info

  count-append :
      (k : SecretInfo) (secrets : List SecretInfo)
      → get_matching_managed_secret_info info secrets ≡ none
      → count k (secrets ++ fresh ∷ []) ≡ (if is_same_secret info k then n else count k secrets)
  unfolding count
  count-append k secrets unknown = elim (Bool-cases (is_same_secret info k)) [
    | inl same ↦ ground (arith, matching-append k fresh secrets, matching-same info k secrets same)
    | inr other ↦ ground (arith, matching-append k fresh secrets)
  ]

  count-replace :
      (k s : SecretInfo) (secrets : List SecretInfo)
      → get_matching_managed_secret_info info secrets ≡ some s
      → count k (replace_matching info (λ t. fresh) secrets)
        ≡ (if is_same_secret info k then n else count k secrets)
  unfolding count
  count-replace k s secrets known =
      ground (arith, matching-replace info (λ t. fresh) (λ a b e. refl) k secrets)

abbrev pub known : SecretInfo → List SecretInfo → Bool
known k secrets = is_there (get_matching_managed_secret_info k secrets)

-- What a class that comes and one that goes do to the counts
abbrev pub bump : SecretInfo → SecretInfo → ℤ → ℤ
bump info k z = if is_same_secret info k then add_one z else z

abbrev pub drop : SecretInfo → SecretInfo → ℤ → ℤ
drop info k z = if is_same_secret info k then subtract_one z else z

-- Lists of which one holds more or fewer uses of a secret
abbrev pub Counted : (SecretInfo → ℤ → ℤ) → List SecretInfo → List SecretInfo → Type 0
Counted f secrets rest = (k : SecretInfo) → count k rest ≡ f k (count k secrets)

abbrev pub Keeps : List SecretInfo → List SecretInfo → Type 0
Keeps secrets rest = (k : SecretInfo) → known k secrets ≡ true → known k rest ≡ true

module _ (info s : SecretInfo) (secrets : List SecretInfo)
    (found : get_matching_managed_secret_info info secrets ≡ some s) where
  abbrev pub less : List SecretInfo
  less = replace_matching info use_less secrets

  matching-less :
      (k : SecretInfo)
      → get_matching_managed_secret_info k less ≡ (
          if is_same_secret info k
          then some (use_less s)
          else get_matching_managed_secret_info k secrets)
  matching-less k =
      matching-replace info use_less (λ a b e. same-left a info b e) k secrets
      ∙ ap
          (λ o.
            if is_same_secret info k
            then changed info use_less (λ a b e. same-left a info b e) o
            else get_matching_managed_secret_info k secrets)
          found

  pub release_less : release_secret info secrets ≡ returned less
  unfolding release_secret
  release_less = ground (arith, found)

  pub count-less : Counted (drop info) secrets less
  unfolding count
  count-less k = elim (Bool-cases (is_same_secret info k)) [
    | inl same ↦ ground (arith, matching-less k, matching-same info k secrets same)
    | inr other ↦ ground (arith, matching-less k)
  ]

  pub less-Keeps : Keeps secrets less
  less-Keeps k h = ground (arith, matching-less k)

abbrev pub Added : SecretInfo → List SecretInfo → List SecretInfo → Type 0
Added info secrets after =
    Counted (bump info) secrets after × Keeps secrets after × (known info after ≡ true)

module _ (info : SecretInfo) (n : ℤ) (secrets : List SecretInfo)
    (counted : n ≡ add_one (count info secrets)) where
  bump-count :
      (k : SecretInfo)
      → (if is_same_secret info k then n else count k secrets) ≡ bump info k (count k secrets)
  unfolding count
  bump-count k = elim (Bool-cases (is_same_secret info k)) [
    | inl same ↦ ground (arith, counted, matching-same info k secrets same)
    | inr other ↦ rw other
  ]

  pub append-Added :
      get_matching_managed_secret_info info secrets ≡ none
      → Added info secrets (secrets ++ fresh info n ∷ [])
  append-Added unknown = (
    λ k. count-append info n k secrets unknown ∙ bump-count k,
    λ k h. ground (arith, matching-append k (fresh info n) secrets),
    ground (arith, matching-append info (fresh info n) secrets, same_refl info),
  )

  pub replace-Added :
      (s : SecretInfo)
      → get_matching_managed_secret_info info secrets ≡ some s
      → Added info secrets (replace_matching info (λ t. fresh info n) secrets)
  replace-Added s found =
      let m =
        λ (k : SecretInfo). matching-replace info (λ t. fresh info n) (λ a b e. refl) k secrets in
      (
        λ k. count-replace info n k s secrets found ∙ bump-count k,
        λ k h. ground (arith, m k, found),
        ground (arith, m info, found, same_refl info),
      )
