-- ===== src/Config/Laws.antt =====
-- What src/config.rs promises: patterns, normal forms, bounds and the order of the layers.
use mathlib.Core.Option.{some-injective}
use netmeter.Prelude.{
  ◌⊎◌, sym, ap, ◌∙◌, Option-cases, ◌≡◌, refl, ◌↔◌, ◌++◌, ◌≤◌, true, [], ◌∷◌, Option, none, some,
  Map, lookup, insert, Text, text_eq, ◌==◌, arith, inl, inr, Bool-cases, IsMap, lookup-insert_self,
  lookup-insert_ne, text_beq_iff,
}
use netmeter.Prelude.Strings.Laws.{
  append-strip_suffix, strip_suffix-append, starts_with_iff, map-to_lower_idem,
}
use netmeter.Prelude.Strings.{strip_suffix}
use netmeter.Config.{glob_case, Config, glob_match, normalize}
use netmeter.Config.Load.{over_file, parsed_file, system_path, System, insert_all, finish, load}

-- A pattern matches a name exactly where the two are the same text, or the pattern is some text
-- with a star after it and the name begins with that text.
pub glob_match_lem :
    (pat s : Text)
    → (glob_match pat s ≡ true)
      ↔ ((pat ≡ s) ⊎ ((pre : Text) × (rest : Text) × (pat ≡ pre ++ b'*' ∷ []) × (s ≡ pre ++ rest)))
unfolding glob_match
glob_match_lem pat s = elim (Option-cases (strip_suffix pat b'*')) [
  | inl plain ↦
      rw (plain, glob_case)
        (
          λ h. inl ((text_beq_iff pat s).0 h),
          λ e. elim e [
            | inl same ↦ (text_beq_iff pat s).1 same
            | inr (pre, rest, star, _) ↦
                absurd cc (rw (star, strip_suffix-append pre b'*') at plain)
          ],
        )
  | inr (pre, star) ↦
      rw (star, glob_case)
        (let is_star = append-strip_suffix pat b'*' pre star in
          (
            λ h. let (rest, e) = (starts_with_iff s pre).0 h in inr (pre, rest, is_star, e),
            λ e. elim e [
              | inl same ↦ (starts_with_iff s pre).1 (b'*' ∷ [], sym same ∙ is_star)
              | inr (pre', rest, star', e) ↦ (starts_with_iff s pre).1 (
                rest,
                e
                    ∙ ap (λ p. p ++ rest)
                        (some-injective _ _ (
                          sym (strip_suffix-append pre' b'*')
                          ∙ sym (ap (λ p. strip_suffix p b'*') star')
                          ∙ star)),
              )
            ],
          ))
]

normalize_idem : {R : Type 0} (cfg : Config R) → normalize (normalize cfg) ≡ normalize cfg
unfolding normalize
normalize_idem cfg = rw (
  map-to_lower_idem cfg.units,
  map-to_lower_idem cfg.timezone,
  map-to_lower_idem cfg.budget_period,
  map-to_lower_idem cfg.budget_basis,
)

-- What `finish` gives is in bounds and normal.
finish_bounds :
    {R V : Type 0} (s : System R V) (cfg : Config R)
    → (1 ≤ (finish s cfg).poll_interval_sec)
      × ((finish s cfg).poll_interval_sec ≤ 60)
      × (normalize (finish s cfg) ≡ finish s cfg)
unfolding finish
finish_bounds s cfg =
    (unfold normalize in omega arith, unfold normalize in omega arith, normalize_idem _)

-- If serde reads a configuration from the defaults with the files merged over them, load gives one,
-- with the environment over that, whose polling interval is 1 to 60 seconds and that a second
-- normalization would not change.
pub load_bounds :
    {R V : Type 0} (s : System R V) (defaults cfg : Config R)
    → s.of_toml (
        over_file s
          (parsed_file s s.user_path)
          (over_file s (parsed_file s (some system_path)) (s.to_toml defaults)))
      ≡ some cfg
    → (load s defaults ≡ some (finish s cfg))
      × (1 ≤ (finish s cfg).poll_interval_sec)
      × ((finish s cfg).poll_interval_sec ≤ 60)
      × (normalize (finish s cfg) ≡ finish s cfg)
unfolding load
load_bounds s defaults cfg h =
    let (low, high, normal) = finish_bounds s cfg in (rw (h, load), low, high, normal)

abbrev pub upper_layer {ℓ} : {V : Type ℓ} → Option V → Option V → Option V
upper_layer (some v) base = some v
upper_layer none base = base

-- After the merge of a layer in which no key stands twice, every key has the upper layer's value if
-- it is there and the base's otherwise.
pub insert_all-lookup :
    {V : Type 0} (o b : Map Text V) (k : Text)
    → IsMap o
    → lookup k (insert_all o b) ≡ upper_layer (lookup k o) (lookup k b)
unfolding insert_all lookup
insert_all-lookup [] b k h = refl
insert_all-lookup ((j, v) ∷ o) b k h = elim (Bool-cases (j == k)) [
  | inl same ↦
      let p : j ≡ k = (text_beq_iff j k).0 same in
      rw (insert_all-lookup o (insert j v b) k h.1, same)
        (rw (← p) (rw (h.0, lookup-insert_self j v b)))
  | inr other ↦ rw (insert_all-lookup o (insert j v b) k h.1, other, lookup-insert_ne j k v b other)
]
