-- ===== src/ProcCap/Recorder/Names.antt =====
-- `set_changed` of src/proc_cap.rs: the names differ as a multiset.
use mathlib.Core.List.Perm
use mathlib.Core.List.{Perm, Permᴰ}
use mathlib.Core.Logic.{∥∥₁_elim}
use mathlib.Core.Bool.{Bool-set}
use netmeter.Prelude.{
  ◌≡◌, ◌↔◌, refl, sym, ◌∙◌, ap, ap₂, subst, true, false, not, List, [], ◌∷◌, Text, text_eq,
  text_beq_iff, beq_refl, inl, inr, Bool-cases, arith,
}
use netmeter.ProcCap.Recorder.{text_leb, sort_in, sort, same_names, set_changed}

text_leb_total : (s t : Text) → text_leb s t ≡ false → text_leb t s ≡ true
text_leb_total [] t h = absurd cc
text_leb_total (c ∷ s) [] h = refl
text_leb_total (c ∷ s) (d ∷ t) h = ground (arith, text_leb_total s t)

text_leb_antisym : (s t : Text) → text_leb s t ≡ true → text_leb t s ≡ true → s ≡ t
text_leb_antisym [] [] h k = refl
text_leb_antisym [] (d ∷ t) h k = absurd cc
text_leb_antisym (c ∷ s) [] h k = absurd cc
text_leb_antisym (c ∷ s) (d ∷ t) h k = ground (arith, text_leb_antisym s t)

text_leb_trans : (s t u : Text) → text_leb s t ≡ true → text_leb t u ≡ true → text_leb s u ≡ true
text_leb_trans [] t u h k = refl
text_leb_trans (c ∷ s) [] u h k = absurd cc
text_leb_trans (c ∷ s) (d ∷ t) [] h k = absurd cc
text_leb_trans (c ∷ s) (d ∷ t) (e ∷ u) h k = ground (arith, text_leb_trans s t u)

-- Two insertions commute.
sort_in_comm : (s t : Text) (xs : List Text) → sort_in s (sort_in t xs) ≡ sort_in t (sort_in s xs)
unfolding sort_in
sort_in_comm s t [] = ground (arith, text_leb_total s t, text_leb_antisym s t)
sort_in_comm s t (x ∷ xs) = ground (
  arith,
  text_leb_total s t,
  text_leb_total t s,
  text_leb_total s x,
  text_leb_total t x,
  text_leb_antisym s t,
  text_leb_trans s t x,
  text_leb_trans t s x,
  text_leb_trans s x t,
  text_leb_trans t x s,
  sort_in_comm s t xs,
)

sort_perm : {xs ys : List Text} → Permᴰ xs ys → sort xs ≡ sort ys
unfolding sort
sort_perm Permᴰ.nil = refl
sort_perm (Permᴰ.cons e p) = ap₂ sort_in e (sort_perm p)
sort_perm (Permᴰ.swap {a = a} {b = b} {l = l} e g) =
    sort_in_comm a b (sort l) ∙ ap₂ (λ x y. sort_in x (sort_in y (sort l))) g e
sort_perm (Permᴰ.trans p q) = sort_perm p ∙ sort_perm q

perm-sort_in : (s : Text) (xs : List Text) → Perm (s ∷ xs) (sort_in s xs)
unfolding sort_in
perm-sort_in s [] = Perm.rfl
perm-sort_in s (x ∷ xs) = elim (Bool-cases (text_leb s x)) [
  | inl first ↦ rw first Perm.rfl
  | inr later ↦ rw later (Perm.trans (Perm.swap x s xs) (Perm.cons x (perm-sort_in s xs)))
]

perm-sort : (xs : List Text) → Perm xs (sort xs)
unfolding sort
perm-sort [] = Perm.rfl
perm-sort (x ∷ xs) = Perm.trans (Perm.cons x (perm-sort xs)) (perm-sort_in x (sort xs))

pub same_names_refl : (xs : List Text) → same_names xs xs ≡ true
same_names_refl [] = refl
same_names_refl (x ∷ xs) = rw (beq_refl x, same_names_refl xs)

pub same_names-eq : (xs ys : List Text) → same_names xs ys ≡ true → xs ≡ ys
same_names-eq [] [] h = refl
same_names-eq [] (y ∷ ys) h = absurd cc
same_names-eq (x ∷ xs) [] h = absurd cc
same_names-eq (x ∷ xs) (y ∷ ys) h =
    ap₂ (λ a b. a ∷ b) ((text_beq_iff x y).0 (ground (arith, h)))
      (same_names-eq xs ys (ground (arith, h)))

-- set_changed says that nothing changed exactly where the names wanted are a permutation of those
-- that are open.
pub set_changed_iff : (have want : List Text) → (set_changed have want ≡ false) ↔ Perm have want
unfolding set_changed
set_changed_iff have want = (
  λ h. Perm.trans (perm-sort have) (
      subst (λ xs. Perm xs want) (sym (same_names-eq (sort have) (sort want) (ground (arith, h))))
        (Perm.symm (perm-sort want))),
  λ p. ∥∥₁_elim p (Bool-set _ _) (λ d.
      ap not (
        subst (λ xs. same_names (sort have) xs ≡ true) (sort_perm d)
          (same_names_refl (sort have)))),
)
