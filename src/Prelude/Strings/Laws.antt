-- ===== src/Prelude/Strings/Laws.antt =====
-- Laws of the functions on texts.
use mathlib.Core.Option.{some-injective}
use netmeter.Prelude.{
  ℕ, ◌≡◌, refl, ◌∙◌, ◌↔◌, ◌++◌, true, [], ◌∷◌, some, Text, map, arith, ap, ap₂, inl, inr,
  Option-cases,
}
use netmeter.Prelude.Strings.{prepend, strip_suffix, starts_with, to_lower}

pub strip_suffix-append : (t : Text) (x : ℕ) → strip_suffix (t ++ x ∷ []) x ≡ some t
unfolding strip_suffix
strip_suffix-append [] x = ground arith
strip_suffix-append (c ∷ []) x = ground (arith, strip_suffix-append [] x)
strip_suffix-append (c ∷ d ∷ t) x = ap (prepend c) (strip_suffix-append (d ∷ t) x)

pub append-strip_suffix :
    (t : Text) (x : ℕ) (pre : Text) → strip_suffix t x ≡ some pre → t ≡ pre ++ x ∷ []
unfolding strip_suffix
append-strip_suffix [] x pre h = absurd cc
append-strip_suffix (c ∷ []) x pre h = ground (arith, h)
append-strip_suffix (c ∷ d ∷ t) x pre h = elim (Option-cases (strip_suffix (d ∷ t) x)) [
  | inl nothing ↦ absurd cc (rw nothing at h)
  | inr (rest, e) ↦
      let same : some (c ∷ rest) ≡ some pre = rw e at h in
      ap (λ u. c ∷ u) (append-strip_suffix (d ∷ t) x rest e)
      ∙ ap (λ u. u ++ x ∷ []) (some-injective _ _ same)
]

starts_with-rest : (s p : Text) → starts_with s p ≡ true → (rest : Text) × (s ≡ p ++ rest)
unfolding starts_with
starts_with-rest s [] h = (s, refl)
starts_with-rest [] (c ∷ p) h = absurd (ground arith)
starts_with-rest (d ∷ s) (c ∷ p) h =
    let (rest, e) = starts_with-rest s p (ground arith) in
    (rest, ap₂ (λ x u. x ∷ u) (ground arith) e)

starts_with-append : (p rest : Text) → starts_with (p ++ rest) p ≡ true
unfolding starts_with
starts_with-append [] rest = refl
starts_with-append (c ∷ p) rest = ground (arith, starts_with-append p rest)

pub starts_with_iff : (s p : Text) → (starts_with s p ≡ true) ↔ ((rest : Text) × (s ≡ p ++ rest))
starts_with_iff s p = (starts_with-rest s p, λ h. rw h.1 (starts_with-append p h.0))

pub to_lower_idem : (c : ℕ) → to_lower (to_lower c) ≡ to_lower c
unfolding to_lower
to_lower_idem c = ground arith

pub map-to_lower_idem : (t : Text) → map to_lower (map to_lower t) ≡ map to_lower t
map-to_lower_idem [] = refl
map-to_lower_idem (c ∷ t) = ap₂ (λ x u. x ∷ u) (to_lower_idem c) (map-to_lower_idem t)
