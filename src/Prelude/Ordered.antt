-- ===== src/Prelude/Ordered.antt =====
-- `BTreeMap` with keys in time: an association list in ascending order of its keys.
use netmeter.Prelude.{
  ◌≡◌, true, false, List, [], ◌∷◌, Map, All, All-map, arith, if◌then◌else◌, inl, inr, Bool-cases,
}
use netmeter.Prelude.Int.{ℤ, beq_ℤ, ltb_ℤ, ◌<ℤ◌}

less_trans : (a b c : ℤ) → a <ℤ b → b <ℤ c → a <ℤ c
less_trans a b c p q = omega (arith, p, q)

less_of : (k h : ℤ) → ltb_ℤ k h ≡ true → k <ℤ h
less_of k h p = ground arith

more_of : (k h : ℤ) → beq_ℤ k h ≡ false → ltb_ℤ k h ≡ false → h <ℤ k
more_of k h p q = ground arith

module _ {V : Type 0} where
  -- `m.entry(k).or_insert(v)`, then a change of the entry.
  unfoldable pub tree_entry : ℤ → V → (V → V) → Map ℤ V → Map ℤ V
  tree_entry k v f [] = (k, f v) ∷ []
  tree_entry k v f ((h, w) ∷ m) =
      let rest = tree_entry k v f m in
      if beq_ℤ k h then (h, f w) ∷ m else if ltb_ℤ k h then (k, f v) ∷ (h, w) ∷ m else (h, w) ∷ rest

  -- `into_values`.
  abbrev pub into_values : Map ℤ V → List V
  into_values [] = []
  into_values ((k, v) ∷ m) = v ∷ into_values m

  -- The keys ascend.
  abbrev pub IsAscending : Map ℤ V → Type 0
  IsAscending [] = Unit
  IsAscending ((k, v) ∷ m) = All (λ x. k <ℤ x.0) m × IsAscending m

  below :
      (h k : ℤ) (v : V) (f : V → V) (m : Map ℤ V)
      → h <ℤ k
      → All (λ x. h <ℤ x.0) m
      → All (λ x. h <ℤ x.0) (tree_entry k v f m)
  unfolding tree_entry
  below h k v f [] p a = (p, tt)
  below h k v f ((j, w) ∷ m) p a = elim (Bool-cases (beq_ℤ k j)) [
    | inl same ↦ rw same a
    | inr other ↦ elim (Bool-cases (ltb_ℤ k j)) [
      | inl less ↦ rw (other, less) (p, a)
      | inr more ↦ rw (other, more) (a.0, below h k v f m p a.1)
    ]
  ]

  pub tree_entry-IsAscending :
      (k : ℤ) (v : V) (f : V → V) (m : Map ℤ V) → IsAscending m → IsAscending (tree_entry k v f m)
  unfolding tree_entry
  tree_entry-IsAscending k v f [] a = (tt, tt)
  tree_entry-IsAscending k v f ((h, w) ∷ m) a = elim (Bool-cases (beq_ℤ k h)) [
    | inl same ↦ rw same a
    | inr other ↦ elim (Bool-cases (ltb_ℤ k h)) [
      | inl less ↦
          let p = less_of k h less in
          rw (other, less) ((p, All-map (λ x q. less_trans k h x.0 p q) m a.0), a)
      | inr more ↦
          rw (other, more)
            (below h k v f m (more_of k h other more) a.0, tree_entry-IsAscending k v f m a.1)
    ]
  ]
