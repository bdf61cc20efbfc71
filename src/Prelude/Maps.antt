-- ===== src/Prelude/Maps.antt =====
-- Hash maps and keyed tables as association lists, in the order of first insertion.
use mathlib.Core.Path.{◌≡◌, refl, sym, ◌∙◌}
use mathlib.Core.Logic.{inl, inr}
use mathlib.Core.Bool.{false}
use mathlib.Core.Option.{Option, none, some}
use mathlib.Core.List.{List, [], ◌∷◌}
use native.Mathlib.Omega.{arith}
use netmeter.Prelude.Tests.{if◌then◌else◌, Bool-cases}
use netmeter.Prelude.Equal.{Eq, ◌==◌, beq_refl}

abbrev pub Map {ℓ} : Type ℓ → Type ℓ → Type ℓ
Map K V = List (K × V)

abbrev pub or_else {ℓ} : {V : Type ℓ} → V → (V → V) → Option V → V
or_else v f none = v
or_else v f (some w) = f w

abbrev pub get_or {ℓ} : {V : Type ℓ} → Option V → V → V
get_or none d = d
get_or (some w) d = w

module _ {ℓ} {K V : Type ℓ} ⦃e : Eq K⦄ where
  unfoldable pub lookup : K → Map K V → Option V
  lookup k [] = none
  lookup k ((j, v) ∷ m) = if j == k then some v else lookup k m

  -- `ON CONFLICT DO UPDATE`, and `entry(k).or_insert(..)` with a change of the value: a new key
  -- gets `v`, an old one the changed value.
  unfoldable pub upsert : K → V → (V → V) → Map K V → Map K V
  upsert k v f [] = (k, v) ∷ []
  upsert k v f ((j, w) ∷ m) = if j == k then (j, f w) ∷ m else (j, w) ∷ upsert k v f m

  -- `map.insert(k, v)`.
  abbrev pub insert : K → V → Map K V → Map K V
  insert k v m = upsert k v (λ _. v) m

  -- `map.entry(k).or_insert(v)`.
  abbrev pub or_insert : K → V → Map K V → Map K V
  or_insert k v m = upsert k v (λ w. w) m

  pub lookup-upsert :
      (k j : K) (v : V) (f : V → V) (m : Map K V)
      → lookup j (upsert k v f m) ≡ (if k == j then some (or_else v f (lookup k m)) else lookup j m)
  unfolding lookup upsert
  lookup-upsert k j v f [] = refl
  lookup-upsert k j v f ((i, w) ∷ m) =
      ground (arith, e.eqb_iff k j, e.eqb_iff i k, e.eqb_iff i j, lookup-upsert k j v f m)

  pub lookup-insert_self : (k : K) (v : V) (m : Map K V) → lookup k (insert k v m) ≡ some v
  lookup-insert_self k v m = rw (lookup-upsert k k v (λ _. v) m, beq_refl k) (constant (lookup k m))
    where
      constant : (o : Option V) → some (or_else v (λ _. v) o) ≡ some v
      constant none = refl
      constant (some w) = refl

  pub lookup-insert_ne :
      (k j : K) (v : V) (m : Map K V) → (k == j) ≡ false → lookup j (insert k v m) ≡ lookup j m
  lookup-insert_ne k j v m h = rw (lookup-upsert k j v (λ _. v) m, h)

  -- No key stands twice.
  abbrev pub IsMap : Map K V → Type ℓ
  IsMap [] = Unit
  IsMap ((k, _) ∷ m) = (lookup k m ≡ none) × IsMap m

  pub upsert-IsMap : (k : K) (v : V) (f : V → V) (m : Map K V) → IsMap m → IsMap (upsert k v f m)
  unfolding upsert lookup
  upsert-IsMap k v f [] h = (refl, tt)
  upsert-IsMap k v f ((i, w) ∷ m) h =
      ground
        (arith, e.eqb_iff i k, e.eqb_iff k i, lookup-upsert k i v f m, upsert-IsMap k v f m h.1)

-- A commutative sum, for the byte counts of a map.
pub record Amount {ℓ} (A : Type ℓ) : Type ℓ where
  pub nil : A
  pub add : A → A → A
  pub add_comm : (a b : A) → add a b ≡ add b a
  pub add_assoc : (a b c : A) → add (add a b) c ≡ add a (add b c)
  pub nil-add : (a : A) → add nil a ≡ a

module _ {ℓ} {V : Type ℓ} ⦃n : Amount V⦄ where
  pub add-nil : (a : V) → n.add a n.nil ≡ a
  add-nil a = n.add_comm a n.nil ∙ n.nil-add a

  added : (v : V) (o : Option V) → or_else v (λ w. n.add w v) o ≡ n.add (get_or o n.nil) v
  added v none = sym (n.nil-add v)
  added v (some w) = refl

module _ {ℓ} {K V : Type ℓ} ⦃e : Eq K⦄ ⦃n : Amount V⦄ where
  -- What a map holds at a key; nothing where the key is missing.
  abbrev pub amount_at : K → Map K V → V
  amount_at k m = get_or (lookup k m) n.nil

  -- The upsert `rx = rx + excluded.rx`.
  unfoldable pub add_at : K → V → Map K V → Map K V
  add_at k v m = upsert k v (λ w. n.add w v) m

  pub amount_at-add_at :
      (k j : K) (v : V) (m : Map K V)
      → amount_at j (add_at k v m) ≡ (if k == j then n.add (amount_at j m) v else amount_at j m)
  unfolding add_at
  amount_at-add_at k j v m = elim (Bool-cases (k == j)) [
    | inl same ↦
        let p : j ≡ k = sym ((e.eqb_iff k j).0 same) in
        rw (lookup-upsert k j v (λ w. n.add w v) m, same) (rw p (added v (lookup k m)))
    | inr other ↦ rw (lookup-upsert k j v (λ w. n.add w v) m, other)
  ]

  pub add_at-IsMap : (k : K) (v : V) (m : Map K V) → IsMap m → IsMap (add_at k v m)
  unfolding add_at
  add_at-IsMap k v m h = upsert-IsMap k v (λ w. n.add w v) m h

  -- Every entry of `m`, added to `t`.
  unfoldable pub add_all : Map K V → Map K V → Map K V
  add_all [] t = t
  add_all ((k, v) ∷ m) t = add_all m (add_at k v t)

  pub add_all-IsMap : (m t : Map K V) → IsMap t → IsMap (add_all m t)
  unfolding add_all
  add_all-IsMap [] t h = h
  add_all-IsMap ((k, v) ∷ m) t h = add_all-IsMap m (add_at k v t) (add_at-IsMap k v t h)

  pub amount_at-add_all :
      (j : K) (m t : Map K V)
      → IsMap m
      → amount_at j (add_all m t) ≡ n.add (amount_at j t) (amount_at j m)
  unfolding add_all lookup
  amount_at-add_all j [] t h = sym (add-nil _)
  amount_at-add_all j ((k, v) ∷ m) t h = elim (Bool-cases (k == j)) [
    | inl same ↦
        let p : k ≡ j = (e.eqb_iff k j).0 same in
        rw (amount_at-add_all j m (add_at k v t) h.1, amount_at-add_at k j v t, same)
          (rw (← p) (rw h.0 (add-nil _)))
    | inr other ↦ rw (amount_at-add_all j m (add_at k v t) h.1, amount_at-add_at k j v t, other)
  ]
