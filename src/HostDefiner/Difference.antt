-- ===== src/HostDefiner/Difference.antt =====
-- controllers/servers/host_definer/storage_manager/host_definer_server.py: that the ports and the io
-- groups removed from a host and added to it are those that it differs by from what is wanted.
use ibm_block_csi_driver.Prelude.{
  ℕ, ◌+◌, ◌-◌, ◌≡◌, refl, sym, ap, ◌∙◌, subst, ◌↔◌, inl, inr, Bool, true, false, not, ◌&&◌, ◌||◌,
  Bool-cases, some, String, List, [], ◌∷◌, ◌++◌, lower, elem, all, ◌==◌, eq_iff, eq_refl,
  if◌then◌else◌, arith,
}
use ibm_block_csi_driver.Outcome.{returned}
use ibm_block_csi_driver.Requests.Nodes.{Initiators, NodeApi, generate_initiators, fibre_channel}
use ibm_block_csi_driver.HostDefiner.Ports.{
  lowered, without, get_ports_to_remove, get_ports_to_add, same_set, are_initiators_equal,
  pop_first, io_group_lists,
}

elem-append : (x : String) (ps qs : List String) → elem x (ps ++ qs) ≡ (elem x ps || elem x qs)
elem-append x [] qs = refl
elem-append x (p ∷ ps) qs = ground (arith, elem-append x ps qs)

lowered-append : (ps qs : List String) → lowered (ps ++ qs) ≡ lowered ps ++ lowered qs
lowered-append [] qs = refl
lowered-append (p ∷ ps) qs = ap (λ r. lower p ∷ r) (lowered-append ps qs)

elem-without :
    (x : String) (names ps : List String)
    → elem x (lowered (without names ps)) ≡ (elem x (lowered ps) && not (elem x names))
unfolding without
elem-without x names [] = refl
elem-without x names (p ∷ ps) = elim (Bool-cases (lower p == x)) [
  | inl same ↦
      ground (arith, elem-without x names ps, ap (λ y. elem y names) ((eq_iff (lower p) x).0 same))
  | inr other ↦ ground (arith, elem-without x names ps)
]

-- The ports of a host once some were removed and others added
abbrev pub updated : List String → List String → List String → List String
updated existing removed added = without (lowered removed) existing ++ added

-- Both ends of a difference
set_difference : (e w : Bool) → ((e && not (e && not w)) || (w && not e)) ≡ w
set_difference true true = refl
set_difference true false = refl
set_difference false true = refl
set_difference false false = refl

without_nil : (ps : List String) → without [] ps ≡ ps
unfolding without
without_nil [] = refl
without_nil (p ∷ ps) = ap (λ r. p ∷ r) (without_nil ps)

remove-without :
    (existing wanted : List String)
    → get_ports_to_remove existing (some wanted) ≡ without (lowered wanted) existing
unfolding get_ports_to_remove
remove-without existing [] = sym (without_nil existing)
remove-without existing (w ∷ ws) = refl

add-without :
    (existing wanted : List String)
    → get_ports_to_add (some wanted) existing ≡ returned (without (lowered existing) wanted)
unfolding get_ports_to_add
add-without [] wanted = ap returned (sym (without_nil wanted))
add-without (e ∷ es) wanted = refl

updated-without :
    (existing wanted : List String) (x : String)
    → elem x (
        lowered (
          updated existing (without (lowered wanted) existing) (without (lowered existing) wanted)))
      ≡ elem x (lowered wanted)
updated-without existing wanted x =
    rw
      (
        lowered-append (without (lowered (without (lowered wanted) existing)) existing)
            (without (lowered existing) wanted),
        elem-append x (lowered (without (lowered (without (lowered wanted) existing)) existing))
            (lowered (without (lowered existing) wanted)),
        elem-without x (lowered (without (lowered wanted) existing)) existing,
        elem-without x (lowered existing) wanted,
        elem-without x (lowered wanted) existing,
      )
      (set_difference (elem x (lowered existing)) (elem x (lowered wanted)))

returned_lem : {A : Type 0} {a b : A} → returned a ≡ returned b → a ≡ b
returned_lem h = cc

-- The ports to add can always be told where those wanted are known. A host that the ports to remove are
-- taken from, whatever the case of their letters, and those to add are put to, has the ports wanted and no
-- others, as sets and whatever the case of their letters.
pub get_ports_to_add-get_ports_to_remove :
    (existing wanted : List String)
    → (added : List String) × (get_ports_to_add (some wanted) existing ≡ returned added)
      × ((x : String)
          → elem x (lowered (updated existing (get_ports_to_remove existing (some wanted)) added))
            ≡ elem x (lowered wanted))
get_ports_to_add-get_ports_to_remove existing wanted = (
  without (lowered existing) wanted,
  add-without existing wanted,
  λ x. rw (remove-without existing wanted) (updated-without existing wanted x),
)

elem-all :
    (x : String) (ps qs : List String)
    → all (λ p. elem p qs) ps ≡ true
    → elem x ps ≡ true
    → elem x qs ≡ true
elem-all x [] qs h k = cc
elem-all x (p ∷ ps) qs h k = elim (Bool-cases (p == x)) [
  | inl same ↦ subst (λ y. elem y qs ≡ true) ((eq_iff p x).0 same) (ground arith)
  | inr other ↦ ground (arith, elem-all x ps qs)
]

all-elem :
    (ps qs : List String)
    → ((x : String) → elem x ps ≡ true → elem x qs ≡ true)
    → all (λ p. elem p qs) ps ≡ true
all-elem [] qs h = refl
all-elem (p ∷ ps) qs h =
    ground (arith, h p (rw (eq_refl p)), all-elem ps qs (λ x k. h x (ground (arith, k))))

both_true : (a b : Bool) → (a ≡ true → b ≡ true) → (b ≡ true → a ≡ true) → a ≡ b
both_true true b h k = sym (h refl)
both_true false true h k = k refl
both_true false false h k = refl

-- Two lists are the same set exactly if every text stands in both or in neither.
same_set_iff :
    (ps qs : List String) → (same_set ps qs ≡ true) ↔ ((x : String) → elem x ps ≡ elem x qs)
unfolding same_set
same_set_iff ps qs = (
  λ h x.
      both_true (elem x ps) (elem x qs) (elem-all x ps qs (ground arith))
        (elem-all x qs ps (ground arith)),
  λ h. ground (arith, all-elem ps qs (λ x k. sym (h x) ∙ k), all-elem qs ps (λ x k. h x ∙ k)),
)

-- How often a text stands in a list
abbrev pub count : String → List String → ℕ
count x [] = 0
count x (y ∷ ys) = (if y == x then 1 else 0) + count x ys

count-pop :
    (g x : String) (xs : List String)
    → elem g xs ≡ true
    → count x (pop_first g xs) + (if g == x then 1 else 0) ≡ count x xs
unfolding pop_first
count-pop g x [] h = cc
count-pop g x (y ∷ ys) h = ground (arith, eq_iff y g, eq_iff g x, eq_iff y x, count-pop g x ys)

count-elem : (g : String) (xs : List String) → elem g xs ≡ false → count g xs ≡ 0
count-elem g [] h = refl
count-elem g (y ∷ ys) h = ground (arith, count-elem g ys)

pop_absent : (g : String) (xs : List String) → elem g xs ≡ false → pop_first g xs ≡ xs
unfolding pop_first
pop_absent g [] h = refl
pop_absent g (y ∷ ys) h = ground (arith, pop_absent g ys)

-- An io group is added as often as the user names it more often than the host has it, and removed as
-- often as the host has it more often.
pub io_group_lists-count :
    (x : String) (host user : List String)
    → (count x (io_group_lists host user).0 ≡ count x user - count x host)
      × (count x (io_group_lists host user).1 ≡ count x host - count x user)
unfolding io_group_lists
io_group_lists-count x host [] = (omega arith, omega arith)
io_group_lists-count x host (g ∷ gs) = elim (Bool-cases (elem g host)) [
  | inl there ↦ rw there (
      let ih = io_group_lists-count x (pop_first g host) gs in
      let c = count-pop g x host there in (omega (arith, ih.0, c), omega (arith, ih.1, c)))
  | inr new ↦
      rw (new, pop_absent g host new)
        (let ih = io_group_lists-count x host gs in
          let c = count-elem g host new in
          elim (Bool-cases (g == x)) [
            | inl same ↦
                let z : count x host ≡ 0 = subst (λ y. count y host ≡ 0) ((eq_iff g x).0 same) c in
                rw same (omega (arith, ih.0, z), omega (arith, ih.1, z))
            | inr other ↦ rw other (omega (arith, ih.0), omega (arith, ih.1))
          ])
]

-- The same names in both lists, whatever the case of their letters
abbrev pub SamePorts : List String → List String → Type 0
SamePorts ps qs = (x : String) → elem x (lowered ps) ≡ elem x (lowered qs)

-- Two texts that are read as initiators are equal exactly if they hold the same names for each of the
-- three types, in any order and whatever the case of their letters, if no type is given; for FC, exactly
-- if they hold the same WWNs.
pub are_initiators_equal_iff :
    (api : NodeApi) (one other : String) (i j : Initiators)
    → generate_initiators api one ≡ returned i
    → generate_initiators api other ≡ returned j
    → ((are_initiators_equal api one other "" ≡ true) ↔ (
        SamePorts i.nvme_nqns j.nvme_nqns
        × SamePorts i.fc_wwns j.fc_wwns
        × SamePorts i.iscsi_iqns j.iscsi_iqns))
      × ((are_initiators_equal api one other fibre_channel ≡ true) ↔ SamePorts i.fc_wwns j.fc_wwns)
unfolding are_initiators_equal
are_initiators_equal_iff api one other i j h k =
    let nvme = same_set_iff (lowered i.nvme_nqns) (lowered j.nvme_nqns) in
    let fc = same_set_iff (lowered i.fc_wwns) (lowered j.fc_wwns) in
    let iqn = same_set_iff (lowered i.iscsi_iqns) (lowered j.iscsi_iqns) in
    rw (h, k)
      (
        (
          λ e. (nvme.0 (ground (arith, e)), fc.0 (ground (arith, e)), iqn.0 (ground (arith, e))),
          λ s. ground (arith, nvme.1 s.0, fc.1 s.1, iqn.1 s.2),
        ),
        fc,
      )
