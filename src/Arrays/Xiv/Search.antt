-- ===== src/Arrays/Xiv/Search.antt =====
-- controllers/array_action/array_mediator_xiv.py: the one host that some initiators belong to.
use ibm_block_csi_driver.Prelude.{
  ◌≡◌, refl, ap, sym, subst, inl, inr, Bool, true, ◌||◌, ◌&&◌, Bool-cases, String, List, [], ◌∷◌,
  All, any, elem, ◌==◌, eq_iff, eq_refl, ◌∙◌, if◌then◌else◌, arith,
}
use ibm_block_csi_driver.Outcome.{returned}
use ibm_block_csi_driver.Exec.{>>=-returned}
use ibm_block_csi_driver.Requests.Nodes.{Initiators, is_match}
use ibm_block_csi_driver.Arrays.Xiv.{CliHost, XcliClient}
use ibm_block_csi_driver.Arrays.Xiv.Hosts.{
  string_to_array, add_name, matching, settled, get_host_by_host_identifiers,
}

-- A host with one of the initiators, as the array tells its ports
abbrev pub is_host_of : Initiators → CliHost → Bool
unfolding string_to_array
is_host_of initiators h =
    is_match initiators.fc_wwns (string_to_array h.fc_ports)
    || is_match initiators.iscsi_iqns (string_to_array h.iscsi_ports)

-- The host of the name is in the list and has one of the initiators, and so has no host with another name.
abbrev pub IsOnlyHost : Initiators → List CliHost → String → Type 0
IsOnlyHost initiators hosts name =
    (any (λ h. is_host_of initiators h && (h.name == name)) hosts ≡ true)
    × All (λ h. is_host_of initiators h ≡ true → h.name ≡ name) hosts

names_in : Initiators → List CliHost → List String → List String
names_in initiators [] names = names
names_in initiators (h ∷ hs) names =
    names_in initiators hs (if is_host_of initiators h then add_name h.name names else names)

matching-names :
    (initiators : Initiators) (hosts : List CliHost) (names types : List String)
    → (matching initiators hosts (names, types)).0 ≡ names_in initiators hosts names
unfolding matching names_in
matching-names initiators [] names types = refl
matching-names initiators (h ∷ hs) names types = matching-names initiators hs _ _

elem-add_name :
    (x y : String) (names : List String) → elem x (add_name y names) ≡ (elem x names || (y == x))
unfolding add_name
elem-add_name x y names = elim (Bool-cases (elem y names)) [
  | inr new ↦ rw new (ground arith)
  | inl old ↦ elim (Bool-cases (y == x)) [
    | inr other ↦ rw (old, other) (ground arith)
    | inl same ↦
        let known = subst (λ z. elem z names ≡ true) ((eq_iff y x).0 same) old in
        rw (old, same, known)
  ]
]

abbrev named_host : Initiators → String → CliHost → Bool
named_host initiators x h = is_host_of initiators h && (h.name == x)

-- The names gathered are those of the hosts that match, and those that were there.
elem-names_in :
    (initiators : Initiators) (x : String) (hosts : List CliHost) (names : List String)
    → elem x (names_in initiators hosts names)
      ≡ (elem x names || any (named_host initiators x) hosts)
unfolding names_in
elem-names_in initiators x [] names = ground arith
elem-names_in initiators x (h ∷ hs) names = elim (Bool-cases (is_host_of initiators h)) [
  | inl hit ↦ rw hit (
      ground (
        arith,
        elem-names_in initiators x hs (add_name h.name names),
        elem-add_name x h.name names,
      ))
  | inr miss ↦ rw miss (elem-names_in initiators x hs names)
]

-- Hosts that match have the one name that any of them has.
same_named :
    (initiators : Initiators) (name : String) (hosts : List CliHost)
    → ((x : String) → any (named_host initiators x) hosts ≡ true → (name == x) ≡ true)
    → All (λ h. is_host_of initiators h ≡ true → h.name ≡ name) hosts
same_named initiators name [] only = tt
same_named initiators name (h ∷ hs) only = (
  λ hit. sym ((eq_iff name h.name).0 (only h.name (rw (hit, eq_refl h.name)))),
  same_named initiators name hs (λ x found. only x (rw found (ground arith))),
)

only_host :
    (initiators : Initiators) (hosts : List CliHost) (name : String)
    → names_in initiators hosts [] ≡ name ∷ []
    → IsOnlyHost initiators hosts name
only_host initiators hosts name e =
    let known = λ (x : String). sym (elem-names_in initiators x hosts []) ∙ ap (elem x) e in
    (
      known name ∙ rw (eq_refl name),
      same_named initiators name hosts (λ x found. ground (arith, known x)),
    )

settled-only :
    {S : Type 0} (client : XcliClient S) (found : List String × List String) (name : String)
    (types : List String) (s t : S)
    → settled client found s ≡ (returned (name, types), t)
    → found.0 ≡ name ∷ []
unfolding settled
settled-only client ([], types') name types s t h = cc
settled-only client (n ∷ [], types') name types s t h = cc
settled-only client (n ∷ m ∷ ns, types') name types s t h = cc

-- The host that the search gives is in the list of the array and has one of the initiators, and no host with
-- another name has one.
pub get_host_by_host_identifiers-only :
    {S : Type 0} (client : XcliClient S) (initiators : Initiators) (hosts : List CliHost)
    (name : String) (types : List String) (s s1 t : S)
    → client.host_list s ≡ (returned hosts, s1)
    → get_host_by_host_identifiers client initiators s ≡ (returned (name, types), t)
    → IsOnlyHost initiators hosts name
unfolding get_host_by_host_identifiers
get_host_by_host_identifiers-only client initiators hosts name types s s1 t listed h =
    let (hs, s2, got, rest) =
      >>=-returned client.host_list (λ hs. settled client (matching initiators hs ([], []))) s t
        (name, types) h in
    let same : hs ≡ hosts = cc in
    subst (λ z. IsOnlyHost initiators z name) same
      (only_host initiators hs name (
        sym (matching-names initiators hs [] [])
        ∙ settled-only client (matching initiators hs ([], [])) name types s2 t rest))
