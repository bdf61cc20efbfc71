-- ===== src/Prelude/Keep.antt =====
-- Laws of `keep`, the filter by a Boolean test, and of `All`.
use mathlib.Core.Path.{◌≡◌, refl, ap, ◌∙◌}
use mathlib.Core.Logic.{inl, inr}
use mathlib.Core.Bool.{Bool, true, false}
use mathlib.Core.List.{List, [], ◌∷◌, ◌++◌}
use netmeter.Prelude.Tests.{Bool-cases}
use netmeter.Prelude.Lists.{keep, All}
use netmeter.Prelude.Equal.{Eq, ◌==◌}
use netmeter.Prelude.Maps.{Map, lookup, upsert}

module _ {ℓ κ} {A : Type ℓ} (P : A → Type κ) (p : A → Bool) where
  pub All-keep : (xs : List A) → All P xs → All P (keep p xs)
  All-keep [] h = tt
  All-keep (x ∷ xs) h = elim (Bool-cases (p x)) [
    | inl yes_x ↦ rw yes_x (h.0, All-keep xs h.1)
    | inr no_x ↦ rw no_x (All-keep xs h.1)
  ]

module _ {ℓ κ} {A : Type ℓ} {P Q : A → Type κ} where
  pub All-map : ((x : A) → P x → Q x) → (xs : List A) → All P xs → All Q xs
  All-map f [] h = tt
  All-map f (x ∷ xs) h = (f x h.0, All-map f xs h.1)

module _ {ℓ κ} {A : Type ℓ} (P : A → Type κ) where
  pub All-append : (xs ys : List A) → All P xs → All P ys → All P (xs ++ ys)
  All-append [] ys h k = k
  All-append (x ∷ xs) ys h k = (h.0, All-append xs ys h.1 k)

module _ {ℓ} {A : Type ℓ} (p : A → Bool) where
  -- A filter that every element passes changes nothing.
  pub keep-All : (xs : List A) → All (λ x. p x ≡ true) xs → keep p xs ≡ xs
  keep-All [] h = refl
  keep-All (x ∷ xs) h = rw h.0 (ap (λ t. x ∷ t) (keep-All xs h.1))

  -- A filter that none passes leaves nothing.
  pub keep-none : (xs : List A) → All (λ x. p x ≡ false) xs → keep p xs ≡ []
  keep-none [] h = refl
  keep-none (x ∷ xs) h = rw h.0 (keep-none xs h.1)

  -- What is kept passes the test.
  pub keep_passes : (xs : List A) → All (λ x. p x ≡ true) (keep p xs)
  keep_passes [] = tt
  keep_passes (x ∷ xs) = elim (Bool-cases (p x)) [
    | inl yes_x ↦ rw yes_x (yes_x, keep_passes xs)
    | inr no_x ↦ rw no_x (keep_passes xs)
  ]

module _ {ℓ} {A : Type ℓ} (p q : A → Bool) where
  -- Filtering first by a test that all of the second filter's elements pass.
  pub keep-keep : (xs : List A) → All (λ x. q x ≡ true) (keep p xs) → keep p (keep q xs) ≡ keep p xs
  keep-keep [] h = refl
  keep-keep (x ∷ xs) h = elim (Bool-cases (p x)) [
    | inl yes_x ↦
        let h' : All (λ x. q x ≡ true) (x ∷ keep p xs) = rw yes_x at h in
        rw (h'.0, yes_x) (ap (λ t. x ∷ t) (keep-keep xs h'.1))
    | inr no_x ↦ elim (Bool-cases (q x)) [
      | inl yes_q ↦ rw (yes_q, no_x) (keep-keep xs (rw no_x at h))
      | inr no_q ↦ rw (no_q, no_x) (keep-keep xs (rw no_x at h))
    ]
  ]

module _ {ℓ} {K : Type ℓ} ⦃e : Eq K⦄ (p : K → Bool) where
  test_same : (j k : K) → (j == k) ≡ true → p j ≡ p k
  test_same j k h = ap p ((e.eqb_iff j k).0 h)

  -- Keys that a test tells apart are not equal.
  test_differs : (j k : K) → p j ≡ false → p k ≡ true → (j == k) ≡ false
  test_differs j k pj pk = elim (Bool-cases (j == k)) [
    | inl same ↦ cc (test_same j k same)
    | inr other ↦ other
  ]

module _ {ℓ} {K V : Type ℓ} ⦃e : Eq K⦄ (p : K → Bool) where
  -- A filter on keys.
  pub lookup-keep :
      (k : K) (m : Map K V) → p k ≡ true → lookup k (keep (λ kv. p kv.0) m) ≡ lookup k m
  unfolding lookup
  lookup-keep k [] h = refl
  lookup-keep k ((j, v) ∷ m) h = elim (Bool-cases (p j)) [
    | inl yes_j ↦ rw (yes_j, lookup-keep k m h)
    | inr no_j ↦ rw (no_j, test_differs p j k no_j h) (lookup-keep k m h)
  ]

  -- A kept key is written to the filtered map as to the whole one.
  pub keep-upsert :
      (k : K) (v : V) (f : V → V) (m : Map K V)
      → p k ≡ true
      → keep (λ kv. p kv.0) (upsert k v f m) ≡ upsert k v f (keep (λ kv. p kv.0) m)
  unfolding upsert
  keep-upsert k v f [] h = rw h
  keep-upsert k v f ((j, w) ∷ m) h = elim (Bool-cases (p j)) [
    | inl yes_j ↦ elim (Bool-cases (j == k)) [
      | inl same ↦ rw (yes_j, same, yes_j)
      | inr other ↦ rw (yes_j, other, yes_j, keep-upsert k v f m h)
    ]
    | inr no_j ↦ rw (no_j, test_differs p j k no_j h, no_j) (keep-upsert k v f m h)
  ]

  -- A dropped key may be written or not.
  pub keep-upsert_dropped :
      (k : K) (v : V) (f : V → V) (m : Map K V)
      → p k ≡ false
      → keep (λ kv. p kv.0) (upsert k v f m) ≡ keep (λ kv. p kv.0) m
  unfolding upsert
  keep-upsert_dropped k v f [] h = rw h
  keep-upsert_dropped k v f ((j, w) ∷ m) h = elim (Bool-cases (j == k)) [
    | inl same ↦ rw (same, test_same p j k same ∙ h)
    | inr other ↦ rw (other, keep-upsert_dropped k v f m h)
  ]
