-- ===== src/Daemon/Sample/Steps.antt =====
-- What the rows of one turn of src/daemon.rs hold of an interface whose counter moved on.
use netmeter.Prelude.{
  All-append, ℕ, ◌+◌, ◌%◌, ◌≤◌, ◌<◌, ◌≡◌, refl, sym, ◌∙◌, ap, ap₂, subst, true, false, ◌||◌, [],
  ◌∷◌, Option, none, some, All, IsMap, lookup, Text, ltb, ◌==◌, text_eq, pair_eq, int_eq,
  text_beq_iff, beq_refl, if◌then◌else◌, Bool-cases, Option-cases, inl, inr, arith, Bool, List,
}
use netmeter.Prelude.Int.{ℤ, pos, as_i64}
use netmeter.Prelude.Float.{Float}
use netmeter.Config.{Config, excluded}
use netmeter.Db.{Table, no_traffic, add_traffic, no_traffic-add}
use netmeter.Db.Rollup.Sums.{sum_at}
use netmeter.Db.Rollup.Laws.{share}
use netmeter.Daemon.Delta.{u32_mod}
use netmeter.Daemon.Delta.Laws.{delta-wrap32}
use netmeter.Daemon.Rate.{max_bytes_per_tick}
use netmeter.Daemon.Sample.Written.{
  IsAdded, write_samples-append, other-sum, other-lookup, sum_at-insert_fresh,
}
use netmeter.Daemon.Sample.{
  Totals, PerIf, measure, measure_iface, measure_all, sample_of, write_samples,
}

-- A counter that shows `c` at one reading and `d` more at the next, both modulo 2 ^ 32.
pub record IsStep (c d : ℕ × ℕ) (max_bytes : ℕ) (old new : ℕ × ℕ) : Type 0 where
  pub old_is : old ≡ (c.0 % u32_mod, c.1 % u32_mod)
  pub new_is : new ≡ ((c.0 + d.0) % u32_mod, (c.1 + d.1) % u32_mod)
  pub rx_fits : d.0 ≤ max_bytes
  pub tx_fits : d.1 ≤ max_bytes
  pub rx_small : d.0 < u32_mod
  pub tx_small : d.1 < u32_mod

as_i64-word : (n : ℕ) → n < u32_mod → as_i64 n ≡ pos n
unfolding as_i64
as_i64-word n h = ground arith

-- The row of such a step.
abbrev step_rows : Text → ℕ × ℕ → List PerIf
step_rows iface d =
    if ltb 0 d.0 || ltb 0 d.1 then record { iface = iface; rx = pos d.0; tx = pos d.1 } ∷ [] else []

measure_step :
    (iface : Text) (c d : ℕ × ℕ) (max_bytes : ℕ) (old new : ℕ × ℕ)
    → IsStep c d max_bytes old new
    → (measure iface old new max_bytes).1 ≡ step_rows iface d
unfolding measure
measure_step iface c d max_bytes old new h =
    rw
      (
        h.old_is,
        h.new_is,
        delta-wrap32 c.0 d.0 max_bytes h.rx_fits h.rx_small,
        delta-wrap32 c.1 d.1 max_bytes h.tx_fits h.tx_small,
        as_i64-word d.0 h.rx_small,
        as_i64-word d.1 h.tx_small,
      )
      refl

module _ (f : Float) (cfg : Config f.Real) (now : ℤ) (lan tot : ℤ × ℤ) where
  step-IsAdded :
      (floor : ℤ → ℤ) (b : ℤ) (iface : Text) (d : ℕ × ℕ) (t : Table)
      → floor now ≡ b
      → lookup (now, iface) t ≡ none
      → IsAdded d
          (sum_at floor (b, iface) t)
          (sum_at floor (b, iface) (write_samples f cfg now lan tot (step_rows iface d) t))
  unfolding write_samples share
  step-IsAdded floor b iface (rx, tx) t inside fresh = elim (Bool-cases (ltb 0 rx || ltb 0 tx)) [
    | inl some_bytes ↦ rw some_bytes (record {
      part = sample_of f cfg lan tot (record { iface = iface; rx = pos rx; tx = pos tx });
      part_rx = unfold sample_of in refl;
      part_tx = unfold sample_of in refl;
      is_sum =
          sum_at-insert_fresh floor (b, iface) (now, iface) _ t fresh
          ∙ ap (λ v. add_traffic v (sum_at floor (b, iface) t))
              (rw (inside, beq_refl b, beq_refl iface) refl);
    })
    | inr no_bytes ↦
        let no_rx : rx ≡ 0 = ground arith in
        let no_tx : tx ≡ 0 = ground arith in
        rw no_bytes (record {
          part = no_traffic;
          part_rx = ap pos (sym no_rx);
          part_tx = ap pos (sym no_tx);
          is_sum = sym (no_traffic-add _);
        })
  ]

All-guarded :
    {A : Type 0} (P : A → Type 0) (b : Bool) (x : A) → P x → All P (if b then x ∷ [] else [])
All-guarded P true x h = (h, tt)
All-guarded P false x h = tt

module _ (f : Float) (cfg : Config f.Real) (speed : Text → Option ℕ) (prev : Totals) where
  -- An interface measures only rows of its own.
  measure-IsOther :
      (iface i : Text) (old new : ℕ × ℕ) (max_bytes : ℕ)
      → (i == iface) ≡ false
      → All (λ p. (p.iface == iface) ≡ false) (measure i old new max_bytes).1
  unfolding measure
  measure-IsOther iface i old new max_bytes h = All-guarded (λ p. (p.iface == iface) ≡ false) _ _ h

  measure_iface-IsOther :
      (iface i : Text) (new : ℕ × ℕ)
      → (i == iface) ≡ false
      → All (λ p. (p.iface == iface) ≡ false) (measure_iface f cfg speed prev i new).1
  unfolding measure_iface
  measure_iface-IsOther iface i new h = elim (Bool-cases (excluded cfg i)) [
    | inl out ↦ rw out tt
    | inr kept ↦ rw kept (elim (Option-cases (lookup i prev)) [
      | inl first ↦ rw first tt
      | inr (old, again) ↦
          rw again (measure-IsOther iface i old new (max_bytes_per_tick f cfg speed i) h)
    ])
  ]

  measure_all-IsOther :
      (iface : Text) (totals : Totals)
      → lookup iface totals ≡ none
      → All (λ p. (p.iface == iface) ≡ false) (measure_all f cfg speed prev totals).1
  unfolding measure_all lookup
  measure_all-IsOther iface [] h = tt
  measure_all-IsOther iface ((i, new) ∷ totals) h = elim (Bool-cases (i == iface)) [
    | inl same ↦ absurd cc (rw same at h)
    | inr other ↦
        All-append _ (measure_iface f cfg speed prev i new).1 _
          (measure_iface-IsOther iface i new other)
          (measure_all-IsOther iface totals (rw other at h))
  ]

  measure_iface-step :
      (iface : Text) (c d old new : ℕ × ℕ)
      → IsStep c d (max_bytes_per_tick f cfg speed iface) old new
      → excluded cfg iface ≡ false
      → lookup iface prev ≡ some old
      → (measure_iface f cfg speed prev iface new).1 ≡ step_rows iface d
  unfolding measure_iface
  measure_iface-step iface c d old new step counted before =
      rw (counted, before)
        (measure_step iface c d (max_bytes_per_tick f cfg speed iface) old new step)

  -- The rows of one turn, whose interface moved on by `d` and was not written at this time before.
  pub measured-IsAdded :
      (floor : ℤ → ℤ) (b now : ℤ) (lan tot : ℤ × ℤ) (iface : Text) (c d old new : ℕ × ℕ)
      (totals : Totals) (t : Table)
      → IsStep c d (max_bytes_per_tick f cfg speed iface) old new
      → excluded cfg iface ≡ false
      → lookup iface prev ≡ some old
      → lookup iface totals ≡ some new
      → IsMap totals
      → floor now ≡ b
      → lookup (now, iface) t ≡ none
      → IsAdded d (sum_at floor (b, iface) t) (
          sum_at floor
            (b, iface)
            (write_samples f cfg now lan tot (measure_all f cfg speed prev totals).1 t))
  unfolding lookup measure_all
  measured-IsAdded floor b now lan tot iface c d old new [] t step counted before after m inside
        fresh =
      absurd cc
  measured-IsAdded floor b now lan tot iface c d old new ((i, n) ∷ totals) t step counted before
        after m inside fresh =
      rw
        (write_samples-append f cfg now lan tot (measure_iface f cfg speed prev i n).1
          (measure_all f cfg speed prev totals).1 t)
        (elim (Bool-cases (i == iface)) [
          | inl same ↦
              let is_iface : i ≡ iface = (text_beq_iff i iface).0 same in
              let is_some : Path (Option (ℕ × ℕ)) (some n) (some new) = rw same at after in
              let is_new : n ≡ new = cc is_some in
              let none_later : lookup iface totals ≡ none =
                subst (λ x. lookup x totals ≡ none) is_iface m.0 in
              let rows : (measure_iface f cfg speed prev i n).1 ≡ step_rows iface d =
                ap₂ (λ x y. (measure_iface f cfg speed prev x y).1) is_iface is_new
                ∙ measure_iface-step iface c d old new step counted before in
              rw
                (
                  rows,
                  other-sum f cfg now lan tot floor b iface (measure_all f cfg speed prev totals).1
                      (write_samples f cfg now lan tot (step_rows iface d) t)
                      (measure_all-IsOther iface totals none_later),
                )
                (step-IsAdded f cfg now lan tot floor b iface d t inside fresh)
          | inr other ↦
              rw⁻¹
                (other-sum f cfg now lan tot floor b iface (measure_iface f cfg speed prev i n).1 t
                  (measure_iface-IsOther iface i n other))
                (measured-IsAdded floor b now lan tot iface c d old new totals _ step counted before
                  (rw other at after) m.1 inside
                  (other-lookup f cfg now lan tot now iface _ t
                      (measure_iface-IsOther iface i n other)
                    ∙ fresh))
        ])
