-- ===== src/Daemon/Loop/Counted.antt =====
-- From the counter of an interface to its rows: what `run` of src/daemon.rs has recorded of the
-- bytes that went through it.
use netmeter.Prelude.{
  ℕ, ◌+◌, ◌%◌, ◌≤◌, ◌<◌, ◌≡◌, refl, sym, ◌∙◌, ap, ap₂, false, not, List, [], ◌∷◌, Option, none,
  some, All, All-map, IsMap, lookup, lookup-keep, Text, ◌==◌, text_eq, pair_eq, int_eq, arith,
}
use netmeter.Prelude.Int.{ℤ, pos, ◌+ℤ◌, ◌<ℤ◌, ◌≤ℤ◌}
use netmeter.Prelude.Float.{Float}
use netmeter.Config.{Config, excluded}
use netmeter.Db.{
  Table, Traffic, no_traffic, add_traffic, add_traffic_assoc, traffic_amount, no_traffic-add,
}
use netmeter.Db.Time.{Calendar}
use netmeter.Db.Rollup.Sums.{sum_at}
use netmeter.Daemon.Delta.{u32_mod}
use netmeter.Daemon.Rate.{max_bytes_per_tick}
use netmeter.Daemon.Sample.{PerIf, sample_of, rebaseline, write_samples}
use netmeter.Daemon.Sample.Written.{IsAdded}
use netmeter.Daemon.Sample.Steps.{measured-IsAdded}
use netmeter.Daemon.History.Invariant.{All-put_sample}
use netmeter.Daemon.Loop.{Loop, Reading, tick, is_gap, sample, roll_due, retain_due}
use netmeter.Daemon.Loop.Run.{put_measured, recorded}

-- Turns, each with the bytes that went through the interface since the turn before it.
abbrev pub Turns : Type 0
Turns = List (Reading × (ℕ × ℕ))

unfoldable pub readings_of : Turns → List Reading
readings_of [] = []
readings_of ((r, d) ∷ turns) = r ∷ readings_of turns

unfoldable pub total_of : Turns → ℕ × ℕ
total_of [] = (0, 0)
total_of ((r, d) ∷ turns) = (d.0 + (total_of turns).0, d.1 + (total_of turns).1)

add_pos : (a b : ℕ) → pos a +ℤ pos b ≡ pos (b + a)
unfolding ◌+ℤ◌
add_pos a b = ground arith

IsAdded-compose :
    {d e : ℕ × ℕ} {x y z : Traffic}
    → IsAdded d x y
    → IsAdded e y z
    → IsAdded (d.0 + e.0, d.1 + e.1) x z
unfolding add_traffic
IsAdded-compose p q = record {
  part = add_traffic q.part p.part;
  part_rx = ap₂ (λ a b. a +ℤ b) q.part_rx p.part_rx ∙ add_pos _ _;
  part_tx = ap₂ (λ a b. a +ℤ b) q.part_tx p.part_tx ∙ add_pos _ _;
  is_sum = q.is_sum ∙ ap (add_traffic q.part) p.is_sum ∙ sym (add_traffic_assoc q.part p.part _);
}

module _ (f : Float) (j : Calendar) (cfg : Config f.Real) (speed : Text → Option ℕ) where
  -- A turn soon after the last one, at a later time of the bucket `b`, in which a 32-bit counter
  -- moves on by `d`, by at most one tick's worth.
  pub record IsCountedTurn (floor : ℤ → ℤ) (b : ℤ) (iface : Text) (before : ℤ) (c d : ℕ × ℕ)
      (r : Reading) (s : Loop) : Type 0 where
    pub reads : lookup iface r.totals ≡ some ((c.0 + d.0) % u32_mod, (c.1 + d.1) % u32_mod)
    pub once : IsMap r.totals
    pub rx_fits : d.0 ≤ max_bytes_per_tick f cfg speed iface
    pub tx_fits : d.1 ≤ max_bytes_per_tick f cfg speed iface
    pub rx_small : d.0 < u32_mod
    pub tx_small : d.1 < u32_mod
    pub inside : floor r.now ≡ b
    pub later : before <ℤ r.now
    pub awake : is_gap f j cfg speed r s ≡ false

  -- Every turn is so.
  unfoldable pub IsCountedRun : (ℤ → ℤ) → ℤ → Text → ℤ → ℕ × ℕ → Turns → Loop → Type 0
  IsCountedRun floor b iface before c [] s = Unit
  IsCountedRun floor b iface before c ((r, d) ∷ turns) s =
      IsCountedTurn floor b iface before c d r s
      × IsCountedRun floor b iface r.now (c.0 + d.0, c.1 + d.1) turns (tick f j cfg speed r s)

  pub tick-prev :
      (r : Reading) (s : Loop)
      → is_gap f j cfg speed r s ≡ false
      → (tick f j cfg speed r s).prev ≡ rebaseline f cfg r.totals
  unfolding tick retain_due roll_due sample
  tick-prev r s awake = rw awake (ground arith)

  pub rebaseline-lookup :
      (iface : Text) (totals : List (Text × (ℕ × ℕ)))
      → excluded cfg iface ≡ false
      → lookup iface (rebaseline f cfg totals) ≡ lookup iface totals
  unfolding rebaseline
  rebaseline-lookup iface totals counted =
      lookup-keep (λ k. not (excluded cfg k)) iface totals (rw counted refl)

  -- Rows that all are of earlier times have none of a later one.
  lookup-later :
      (before now : ℤ) (iface : Text) (t : Table)
      → before <ℤ now
      → All (λ r. r.0.0 ≤ℤ before) t
      → lookup (now, iface) t ≡ none
  unfolding lookup
  lookup-later before now iface [] later h = refl
  lookup-later before now iface ((k, v) ∷ t) later h =
      let apart : (k == (now, iface)) ≡ false = ground arith in
      rw apart (lookup-later before now iface t later h.1)

  write_samples-times :
      (now : ℤ) (lan tot : ℤ × ℤ) (per : List PerIf) (t : Table)
      → All (λ r. r.0.0 ≤ℤ now) t
      → All (λ r. r.0.0 ≤ℤ now) (write_samples f cfg now lan tot per t)
  unfolding write_samples
  write_samples-times now lan tot [] t h = h
  write_samples-times now lan tot (p ∷ per) t h =
      write_samples-times now lan tot per _
        (All-put_sample (λ ts. ts ≤ℤ now) now p.iface (sample_of f cfg lan tot p) t (omega arith) h)

  module _ (floor : ℤ → ℤ) (b : ℤ) (iface : Text) (counted : excluded cfg iface ≡ false) where
    turn-IsAdded :
        (before : ℤ) (c d : ℕ × ℕ) (r : Reading) (s : Loop) (h : Table)
        → lookup iface s.prev ≡ some (c.0 % u32_mod, c.1 % u32_mod)
        → All (λ t. t.0.0 ≤ℤ before) h
        → IsCountedTurn floor b iface before c d r s
        → IsAdded d
            (sum_at floor (b, iface) h)
            (sum_at floor (b, iface) (put_measured f j cfg speed r s h))
    unfolding put_measured
    turn-IsAdded before c d r s h known past turn =
        measured-IsAdded f cfg speed s.prev floor b r.now _ _ iface c d _ _ r.totals h
          (record {
            old_is = refl;
            new_is = refl;
            rx_fits = turn.rx_fits;
            tx_fits = turn.tx_fits;
            rx_small = turn.rx_small;
            tx_small = turn.tx_small;
          })
          counted known turn.reads turn.once turn.inside
          (lookup-later before r.now iface h turn.later past)

    put_measured-times :
        (before : ℤ) (r : Reading) (s : Loop) (h : Table)
        → before <ℤ r.now
        → All (λ t. t.0.0 ≤ℤ before) h
        → All (λ t. t.0.0 ≤ℤ r.now) (put_measured f j cfg speed r s h)
    unfolding put_measured
    put_measured-times before r s h later past =
        write_samples-times r.now _ _ _ h (All-map (λ t p. omega (arith, p, later)) h past)

    pub recorded-IsAdded :
        (before : ℤ) (c : ℕ × ℕ) (turns : Turns) (s : Loop) (h : Table)
        → lookup iface s.prev ≡ some (c.0 % u32_mod, c.1 % u32_mod)
        → All (λ t. t.0.0 ≤ℤ before) h
        → IsCountedRun floor b iface before c turns s
        → IsAdded
            (total_of turns)
            (sum_at floor (b, iface) h)
            (sum_at floor (b, iface) (recorded f j cfg speed (readings_of turns) s h))
    unfolding recorded readings_of total_of IsCountedRun
    recorded-IsAdded before c [] s h known past run_is = record {
      part = no_traffic;
      part_rx = refl;
      part_tx = refl;
      is_sum = sym (no_traffic-add _);
    }
    recorded-IsAdded before c ((r, d) ∷ turns) s h known past run_is =
        let turn = run_is.0 in
        rw (turn.awake, recorded, readings_of)
          (IsAdded-compose (turn-IsAdded before c d r s h known past turn) (
            recorded-IsAdded r.now (c.0 + d.0, c.1 + d.1) turns (tick f j cfg speed r s) _
              (ap (lookup iface) (tick-prev r s turn.awake)
                ∙ rebaseline-lookup iface r.totals counted
                ∙ turn.reads)
              (put_measured-times before r s h turn.later past) run_is.1))
