-- ===== src/Daemon/Loop/Measured.antt =====
-- What the turns of the loop in src/daemon.rs measure, as a list to which each sample is added,
-- beside the table that the upserts leave.
use netmeter.Prelude.{
  ℕ, ◌≡◌, refl, sym, ◌∙◌, ap, [], ◌∷◌, ◌++◌, List, Option, Text, codes, map, if◌then◌else◌, insert,
  text_eq, pair_eq, int_eq, inl, inr, Bool-cases,
}
use netmeter.Prelude.Int.{ℤ}
use netmeter.Prelude.Float.{Float}
use netmeter.Prelude.Puts.{put_all, put_all-append}
use netmeter.Config.{Config}
use netmeter.Db.{Table, Traffic}
use netmeter.Db.Time.{Calendar}
use netmeter.Daemon.Rate.{max_bytes_per_tick}
use netmeter.Daemon.Sample.{PerIf, lan_delta, measure_all, sample_of, write_samples, sum_rx, sum_tx}
use netmeter.Daemon.Loop.{Loop, Reading, tick, is_gap}
use netmeter.Daemon.Loop.Run.{put_measured, recorded}

module _ (f : Float) (cfg : Config f.Real) where
  abbrev sample_at : ℤ → ℤ × ℤ → ℤ × ℤ → PerIf → (ℤ × Text) × Traffic
  sample_at now lan tot p = ((now, p.iface), sample_of f cfg lan tot p)

  write_samples-put_all :
      (now : ℤ) (lan tot : ℤ × ℤ) (per : List PerIf) (t : Table)
      → write_samples f cfg now lan tot per t ≡ put_all (map (sample_at now lan tot) per) t
  unfolding write_samples put_all
  write_samples-put_all now lan tot [] t = refl
  write_samples-put_all now lan tot (p ∷ per) t =
      write_samples-put_all now lan tot per (insert (now, p.iface) (sample_of f cfg lan tot p) t)

module _ (f : Float) (j : Calendar) (cfg : Config f.Real) (speed : Text → Option ℕ) where
  -- The samples of one turn: a second, an interface, and its bytes.
  unfoldable pub measured_at : Reading → Loop → Table
  measured_at r s =
      let lan = lan_delta s.prev_lan r.lan (max_bytes_per_tick f cfg speed (codes "lan")) in
      let per = (measure_all f cfg speed s.prev r.totals).1 in
      map (sample_at f cfg r.now lan (sum_rx per, sum_tx per)) per

  -- Those of all turns, one after another. A turn after a gap measures nothing.
  unfoldable pub measured : List Reading → Loop → Table
  measured [] s = []
  measured (r ∷ rs) s =
      (if is_gap f j cfg speed r s then [] else measured_at r s)
      ++ measured rs (tick f j cfg speed r s)

  put_measured-put_all :
      (r : Reading) (s : Loop) (h : Table)
      → put_measured f j cfg speed r s h ≡ put_all (measured_at r s) h
  unfolding put_measured measured_at
  put_measured-put_all r s h = write_samples-put_all f cfg r.now _ _ _ h

  turn-put_all :
      (r : Reading) (s : Loop) (h : Table)
      → (if is_gap f j cfg speed r s then h else put_measured f j cfg speed r s h)
        ≡ put_all (if is_gap f j cfg speed r s then [] else measured_at r s) h
  turn-put_all r s h = elim (Bool-cases (is_gap f j cfg speed r s)) [
    | inl gap ↦ rw gap (unfold put_all in refl)
    | inr no_gap ↦ rw no_gap (put_measured-put_all r s h)
  ]

  -- The table of the turns is that of their list.
  pub recorded-put_all :
      (rs : List Reading) (s : Loop) (h : Table)
      → recorded f j cfg speed rs s h ≡ put_all (measured rs s) h
  unfolding recorded measured
  recorded-put_all [] s h = unfold put_all in refl
  recorded-put_all (r ∷ rs) s h =
      recorded-put_all rs (tick f j cfg speed r s) _
      ∙ ap (put_all (measured rs (tick f j cfg speed r s))) (turn-put_all r s h)
      ∙ sym (put_all-append _ (measured rs (tick f j cfg speed r s)) h)
