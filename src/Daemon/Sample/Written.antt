-- ===== src/Daemon/Sample/Written.antt =====
-- What the rows of one turn of src/daemon.rs add to the sum of an interface's samples.
use netmeter.Prelude.{
  ℕ, ◌≡◌, refl, sym, ◌∙◌, ap, subst, false, [], ◌∷◌, ◌++◌, none, All, lookup, insert, upsert,
  lookup-insert_ne, Text, ◌==◌, text_eq, pair_eq, int_eq, Bool-cases, inl, inr, arith, List,
}
use netmeter.Prelude.Int.{ℤ, pos}
use netmeter.Prelude.Float.{Float}
use netmeter.Config.{Config}
use netmeter.Db.{Table, Traffic, add_traffic}
use netmeter.Db.Rollup.{bucket_key}
use netmeter.Db.Rollup.Sums.{sum_at}
use netmeter.Db.Rollup.Laws.{share, sum_at-cons, swap_add}
use netmeter.Daemon.Sample.{PerIf, write_samples}

module _ (floor : ℤ → ℤ) (key : ℤ × Text) where
  pub sum_at-insert_fresh :
      (k : ℤ × Text) (v : Traffic) (t : Table)
      → lookup k t ≡ none
      → sum_at floor key (insert k v t) ≡ add_traffic (share floor key (k, v)) (sum_at floor key t)
  unfolding lookup upsert
  sum_at-insert_fresh k v [] h = sum_at-cons floor key (k, v) []
  sum_at-insert_fresh k v ((j, w) ∷ t) h = elim (Bool-cases (j == k)) [
    | inl same ↦ absurd cc (rw same at h)
    | inr other ↦ rw other (
        sum_at-cons floor key (j, w) (insert k v t)
        ∙ ap (add_traffic (share floor key (j, w))) (sum_at-insert_fresh k v t (rw other at h))
        ∙ swap_add _ _ _
        ∙ ap (add_traffic (share floor key (k, v))) (sym (sum_at-cons floor key (j, w) t)))
  ]

  sum_at-insert_other :
      (k : ℤ × Text) (v : Traffic) (t : Table)
      → (bucket_key floor k == key) ≡ false
      → sum_at floor key (insert k v t) ≡ sum_at floor key t
  unfolding sum_at upsert
  sum_at-insert_other k v [] h = rw h
  sum_at-insert_other k v ((j, w) ∷ t) h = elim (Bool-cases (j == k)) [
    | inl same ↦
        let away : (bucket_key floor j == key) ≡ false =
          subst (λ x. (bucket_key floor x == key) ≡ false) (sym ((pair_eq.eqb_iff j k).0 same)) h in
        rw (same, away) refl
    | inr other ↦ rw (other, sum_at-insert_other k v t h)
  ]

-- The bytes `d`, received and sent, come on top of a sum.
pub record IsAdded (d : ℕ × ℕ) (before after : Traffic) : Type 0 where
  pub part : Traffic
  pub part_rx : part.rx ≡ pos d.0
  pub part_tx : part.tx ≡ pos d.1
  pub is_sum : after ≡ add_traffic part before

module _ (f : Float) (cfg : Config f.Real) (now : ℤ) (lan tot : ℤ × ℤ) where
  pub write_samples-append :
      (ps qs : List PerIf) (t : Table)
      → write_samples f cfg now lan tot (ps ++ qs) t
        ≡ write_samples f cfg now lan tot qs (write_samples f cfg now lan tot ps t)
  unfolding write_samples
  write_samples-append [] qs t = refl
  write_samples-append (p ∷ ps) qs t = write_samples-append ps qs _

  -- Rows of other interfaces.
  abbrev IsOther : Text → List PerIf → Type 0
  IsOther iface ps = All (λ p. (p.iface == iface) ≡ false) ps

  pub other-sum :
      (floor : ℤ → ℤ) (b : ℤ) (iface : Text) (ps : List PerIf) (t : Table)
      → IsOther iface ps
      → sum_at floor (b, iface) (write_samples f cfg now lan tot ps t) ≡ sum_at floor (b, iface) t
  unfolding write_samples
  other-sum floor b iface [] t h = refl
  other-sum floor b iface (p ∷ ps) t h =
      other-sum floor b iface ps _ h.1
      ∙ sum_at-insert_other floor (b, iface) (now, p.iface) _ t (ground (arith, h.0))

  pub other-lookup :
      (ts : ℤ) (iface : Text) (ps : List PerIf) (t : Table)
      → IsOther iface ps
      → lookup (ts, iface) (write_samples f cfg now lan tot ps t) ≡ lookup (ts, iface) t
  unfolding write_samples
  other-lookup ts iface [] t h = refl
  other-lookup ts iface (p ∷ ps) t h =
      other-lookup ts iface ps _ h.1
      ∙ lookup-insert_ne (now, p.iface) (ts, iface) _ t (ground (arith, h.0))
