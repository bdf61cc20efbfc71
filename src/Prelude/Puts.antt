-- ===== src/Prelude/Puts.antt =====
-- Entries that are put into a map one after another, and maps that are the same at every key.
use mathlib.Core.List.{append-nil, append_assoc}
use netmeter.Prelude.{
  ◌≡◌, refl, sym, ◌∙◌, ap, subst, false, [], ◌∷◌, ◌++◌, none, Map, lookup, insert, upsert, IsMap,
  Eq, ◌==◌, arith, inl, inr, Bool-cases,
}

module _ {ℓ} {K V : Type ℓ} ⦃e : Eq K⦄ where
  -- The entries of a list, one `insert` each.
  unfoldable pub put_all : Map K V → Map K V → Map K V
  put_all [] h = h
  put_all ((k, v) ∷ l) h = put_all l (insert k v h)

  pub put_all-append : (a b h : Map K V) → put_all (a ++ b) h ≡ put_all b (put_all a h)
  unfolding put_all
  put_all-append [] b h = refl
  put_all-append ((k, v) ∷ a) b h = put_all-append a b (insert k v h)

  -- A new key goes to the end.
  insert_new : (k : K) (v : V) (m : Map K V) → lookup k m ≡ none → insert k v m ≡ m ++ (k, v) ∷ []
  unfolding lookup upsert
  insert_new k v [] h = refl
  insert_new k v ((j, w) ∷ m) h = elim (Bool-cases (j == k)) [
    | inl same ↦ absurd (ground (arith, same, h))
    | inr other ↦ rw other (ap (λ t. (j, w) ∷ t) (insert_new k v m (rw other at h)))
  ]

  lookup_behind :
      (i k : K) (v : V) (h l : Map K V) → lookup i (h ++ (k, v) ∷ l) ≡ none → (k == i) ≡ false
  unfolding lookup
  lookup_behind i k v [] l p = ground (arith, p)
  lookup_behind i k v ((j, w) ∷ h) l p = ground (arith, p, lookup_behind i k v h l)

  -- No entry before one has its key.
  is_new : (h l : Map K V) (k : K) (v : V) → IsMap (h ++ (k, v) ∷ l) → lookup k h ≡ none
  unfolding lookup
  is_new [] l k v m = refl
  is_new ((j, w) ∷ h) l k v m =
      ground (arith, e.eqb_iff j k, e.eqb_iff k j, lookup_behind j k v h l m.0, is_new h l k v m.1)

  -- Entries with new and different keys are all there, in their order.
  pub put_all_new : (l h : Map K V) → IsMap (h ++ l) → put_all l h ≡ h ++ l
  unfolding put_all
  put_all_new [] h m = sym (append-nil h)
  put_all_new ((k, v) ∷ l) h m =
      let regroup : (h ++ (k, v) ∷ []) ++ l ≡ h ++ (k, v) ∷ l = append_assoc h ((k, v) ∷ []) l in
      ap (put_all l) (insert_new k v h (is_new h l k v m))
      ∙ put_all_new l (h ++ (k, v) ∷ []) (subst IsMap (sym regroup) m)
      ∙ regroup
