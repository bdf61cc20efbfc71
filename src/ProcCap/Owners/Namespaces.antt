-- ===== src/ProcCap/Owners/Namespaces.antt =====
-- `tables_for` of src/proc_cap.rs reads every other network namespace once.
use netmeter.Prelude.{
  ℕ, suc, ◌≡◌, refl, ◌∙◌, ap, subst, Bool, true, false, ◌||◌, List, [], ◌∷◌, Option, Map, any,
  if◌then◌else◌, min, ◌==◌, pair_eq, nat_eq, arith, inl, inr, Bool-cases,
}
use netmeter.ProcCap.Owners.{Netns, is_ours, foreign}

-- How many of some processes are in a namespace.
unfoldable pub count_in : Netns → Map ℕ Netns → ℕ
count_in ns [] = 0
count_in ns ((pid, other) ∷ procs) =
    let rest = count_in ns procs in if other == ns then suc rest else rest

abbrev is_passed : Option Netns → List Netns → Netns → Bool
is_passed ours seen ns = is_ours ours ns || any (λ s. s == ns) seen

or_true : (b : Bool) → (b || true) ≡ true
or_true true = refl
or_true false = refl

or_false : (b : Bool) → (b || false) ≡ b
or_false true = refl
or_false false = refl

count_in-foreign_seen :
    (ours : Option Netns) (seen : List Netns) (procs : Map ℕ Netns) (ns : Netns)
    → count_in ns (foreign ours seen procs)
      ≡ (if is_passed ours seen ns then 0 else min 1 (count_in ns procs))
unfolding foreign count_in
count_in-foreign_seen ours seen [] ns = by_case (is_passed ours seen ns)
  where
    by_case : (b : Bool) → 0 ≡ (if b then 0 else min 1 0)
    by_case true = refl
    by_case false = refl
count_in-foreign_seen ours seen ((pid, other) ∷ procs) ns =
    let skip = count_in-foreign_seen ours seen procs ns in
    let note = count_in-foreign_seen ours (other ∷ seen) procs ns in
    elim (Bool-cases (is_passed ours seen other)) [
      | inl passed ↦ rw passed (elim (Bool-cases (other == ns)) [
        | inl same ↦
            let known : is_passed ours seen ns ≡ true =
              subst (λ x. is_passed ours seen x ≡ true) ((pair_eq.eqb_iff other ns).0 same)
                passed in
            skip ∙ rw (same, known) refl
        | inr differs ↦ rw differs skip
      ])
      | inr new ↦ rw new (elim (Bool-cases (other == ns)) [
        | inl same ↦
            let unknown : is_passed ours seen ns ≡ false =
              subst (λ x. is_passed ours seen x ≡ false) ((pair_eq.eqb_iff other ns).0 same) new in
            let known : is_passed ours (other ∷ seen) ns ≡ true =
              rw same (or_true (is_ours ours ns)) in
            let none_later : count_in ns (foreign ours (other ∷ seen) procs) ≡ 0 =
              note ∙ ap (λ b. if b then 0 else min 1 (count_in ns procs)) known in
            rw (same, unknown) (omega (arith, none_later))
        | inr differs ↦ rw differs (rw differs at note)
      ])
    ]

-- The processes whose socket tables are read besides our own include exactly one of each network
-- namespace that any process is in, and none of our own namespace.
pub count_in-foreign :
    (ours : Option Netns) (procs : Map ℕ Netns) (ns : Netns)
    → count_in ns (foreign ours [] procs)
      ≡ (if is_ours ours ns then 0 else min 1 (count_in ns procs))
count_in-foreign ours procs ns =
    count_in-foreign_seen ours [] procs ns
    ∙ ap (λ b. if b then 0 else min 1 (count_in ns procs)) (or_false (is_ours ours ns))
