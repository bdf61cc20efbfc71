-- ===== src/Daemon/Loop/Refines.antt =====
-- The whole of `run` of src/daemon.rs against the history of what it measured.
use netmeter.Prelude.{
  ℕ, ◌&&◌, ◌+◌, ◌≡◌, refl, sym, ◌∙◌, subst, Bool, not, List, [], ◌∷◌, Option, none, some, Text,
  text_eq, pair_eq, int_eq, inl, inr, Bool-cases, amount_at, if◌then◌else◌, nat_beq,
}
use netmeter.Prelude.Int.{ℤ}
use netmeter.Prelude.Float.{Float}
use netmeter.Config.{Config, tz_local}
use netmeter.Db.{Table, traffic_amount, init}
use netmeter.Db.Time.{Calendar}
use netmeter.Db.Rollup.{rollup, rollup_marker}
use netmeter.Db.Rollup.Sums.{sum_at}
use netmeter.Db.Rollup.Laws.{Level, level_table, level_floor}
use netmeter.Daemon.Retention.{cut_before}
use netmeter.Daemon.History.{IsLater, Reach, here, start, IsKept}
use netmeter.Daemon.History.Invariant.{level_table-enforce_retention}
use netmeter.Daemon.History.Totals.{rollup-history, Reach-times}
use netmeter.Daemon.Loop.{
  Loop, Reading, started, publish_nft, count_missing, is_some, differs, roll_due, retain_due,
  sample, tick, is_gap, stop,
}
use netmeter.Daemon.Loop.Laws.{prepared, prepared-keeps, sample-last_retain, roll_due-last_retain}
use netmeter.Daemon.Loop.Run.{
  IsWaitingAfter, run, put_measured, recorded, cut_by, cuts_of, IsSteady, IsSteadyRun,
}
use netmeter.Daemon.Loop.Steps.{same-IsWaitingAfter, Reach-trans}
use netmeter.Daemon.Loop.Turn.{
  sample-Reach, sample-IsWaitingAfter, prepared-IsSameTraffic, prepared-Leads, roll_due-Leads,
  roll_due-IsWaitingAfter, retain_due-Reach,
}

publish-prev_lan : (b : Bool) (s : Loop) → (publish_nft b s).prev_lan ≡ s.prev_lan
unfolding publish_nft
publish-prev_lan b s = elim (Bool-cases (differs b s.nft_ok_reported)) [
  | inl new ↦ rw new
  | inr old ↦ rw old
]

missing-prev_lan :
    (subnets : List Text) (lan : Option (ℕ × ℕ)) (gone : Bool) (s : Loop)
    → (count_missing subnets lan gone s).prev_lan ≡ s.prev_lan
unfolding count_missing
missing-prev_lan subnets none gone s =
    elim (Bool-cases (nat_beq (s.nft_missing_ticks + 1) 12 && not gone)) [
      | inl twelfth ↦ rw twelfth
      | inr other ↦ rw other
    ]
missing-prev_lan subnets (some l) gone s = refl

module _ (f : Float) (j : Calendar) (cfg : Config f.Real) (speed : Text → Option ℕ) where
  prepared-put_measured :
      (r : Reading) (s : Loop) (h : Table)
      → put_measured f j cfg speed r (prepared f j cfg speed r s) h
        ≡ put_measured f j cfg speed r s h
  unfolding put_measured
  prepared-put_measured r s h =
      let timed : Loop = record s { last_tick = r.mono } in
      rw
        (
          (prepared-keeps f j cfg speed r s).1.0,
          missing-prev_lan cfg.lan_subnets r.lan r.table_exists (publish_nft (is_some r.lan) timed)
              ∙ publish-prev_lan (is_some r.lan) timed,
        )
        refl

  -- A turn without a gap, from a history that was reached.
  turn-Reach :
      (r : Reading) (s : Loop) (h : Table) (cuts : List ℤ)
      → IsSteady f j cfg speed r s
      → Reach j cfg (tz_local cfg) start (record { history = h; db = s.db; cuts = cuts })
      → Reach j cfg (tz_local cfg) start (record {
        history = put_measured f j cfg speed r s h;
        db =
            (retain_due f j cfg speed r.now r.mono (
              roll_due f j cfg speed r.mono
                (sample f j cfg speed r (prepared f j cfg speed r s)))).db;
        cuts = cut_by f j cfg speed r s.last_retain cuts;
      })
  turn-Reach r s h cuts steady reached =
      let local = tz_local cfg in
      let ready : Loop = prepared f j cfg speed r s in
      let sampled : Loop = sample f j cfg speed r ready in
      let rolled : Loop = roll_due f j cfg speed r.mono sampled in
      let cut = cut_before r.now cfg.retention_days_raw in
      let same = prepared-IsSameTraffic f j cfg speed r s in
      let later : IsLater (rollup_marker ready.db) r.now =
        subst (λ m. IsLater m r.now) (sym same.marker) steady.later in
      let measured : Table = put_measured f j cfg speed r s h in
      let to_sampled : Reach j cfg local start
          (record { history = measured; db = sampled.db; cuts = cuts }) =
        Reach-trans j cfg local
          (Reach-trans j cfg local reached (prepared-Leads f j cfg speed h cuts r s))
          (subst
            (λ t.
              Reach j cfg local (record { history = h; db = ready.db; cuts = cuts })
                (record { history = t; db = sampled.db; cuts = cuts }))
            (prepared-put_measured r s h)
            (sample-Reach f j cfg speed r ready h cuts steady.time later)) in
      let waits : IsWaitingAfter cut rolled.db =
        roll_due-IsWaitingAfter f j cfg speed cut r.mono sampled
          (Reach-times j cfg local _ to_sampled)
          (sample-IsWaitingAfter f j cfg speed cut r ready later steady.recent
            (same-IsWaitingAfter cut same steady.waiting)) in
      let due : rolled.last_retain ≡ s.last_retain =
        roll_due-last_retain f j cfg speed r.mono sampled
        ∙ sample-last_retain f j cfg speed r ready
        ∙ (prepared-keeps f j cfg speed r s).1.1 in
      Reach-trans j cfg local
        (Reach-trans j cfg local to_sampled
          (roll_due-Leads f j cfg speed measured cuts r.mono sampled))
        (subst
          (λ t.
            Reach j cfg local (record { history = measured; db = rolled.db; cuts = cuts })
              (record {
                history = measured;
                db = (retain_due f j cfg speed r.now r.mono rolled).db;
                cuts = cut_by f j cfg speed r t cuts;
              }))
          due (retain_due-Reach f j cfg speed r rolled measured cuts waits))

  pub tick-Reach :
      (r : Reading) (s : Loop) (h : Table) (cuts : List ℤ)
      → IsSteady f j cfg speed r s
      → Reach j cfg (tz_local cfg) start (record { history = h; db = s.db; cuts = cuts })
      → Reach j cfg (tz_local cfg) start (record {
        history = if is_gap f j cfg speed r s then h else put_measured f j cfg speed r s h;
        db = (tick f j cfg speed r s).db;
        cuts = if is_gap f j cfg speed r s then cuts else cut_by f j cfg speed r s.last_retain cuts;
      })
  unfolding tick
  tick-Reach r s h cuts steady reached = elim (Bool-cases (is_gap f j cfg speed r s)) [
    | inl gap ↦ rw gap reached
    | inr no_gap ↦ rw no_gap (turn-Reach r s h cuts steady reached)
  ]

  pub run-keeps :
      (rs : List Reading) (last : ℤ) (s : Loop) (h : Table) (cuts : List ℤ)
      → IsSteadyRun f j cfg speed rs s
      → Reach j cfg (tz_local cfg) start (record { history = h; db = s.db; cuts = cuts })
      → (l : Level) (b : ℤ) (iface : Text)
      → IsKept l (cut_before last cfg.retention_days_hourly ∷ cuts_of f j cfg speed rs s cuts) b
      → amount_at (b, iface) (level_table l (run f j cfg speed rs last s))
        ≡ sum_at (level_floor j l (tz_local cfg)) (b, iface) (recorded f j cfg speed rs s h)
  unfolding run recorded cuts_of IsSteadyRun stop
  run-keeps [] last s h cuts steady reached l b iface kept =
      let (same, before) =
        level_table-enforce_retention cfg last (rollup j s.db (tz_local cfg)) l cuts b iface kept in
      same
      ∙ rollup-history j cfg (tz_local cfg) (record { history = h; db = s.db; cuts = cuts }) reached
          l b iface before
  run-keeps (r ∷ rs) last s h cuts steady reached l b iface kept =
      run-keeps rs last (tick f j cfg speed r s) _ _ steady.1
        (tick-Reach r s h cuts steady.0 reached) l b iface kept

  -- From an empty database, after any turns of the daemon's loop and its stop, every hourly, daily
  -- and monthly bucket of an interface holds the sum of the samples that the turns measured in it,
  -- of those of one second the last, also of those that retention has dropped; an hourly bucket
  -- only if no cut of the turns or of the stop has dropped it. Each turn's time is one that i64 holds, later than the last rollup's
  -- newest sample, and neither it nor a sample that waits for a rollup is so old that retention
  -- drops it at that time.
  pub run_keeps_history :
      (rs : List Reading) (last : ℤ) (mono : ℕ)
      → IsSteadyRun f j cfg speed rs (started init mono)
      → (l : Level) (b : ℤ) (iface : Text)
      → IsKept l
          (cut_before last cfg.retention_days_hourly
            ∷ cuts_of f j cfg speed rs (started init mono) [])
          b
      → amount_at (b, iface) (level_table l (run f j cfg speed rs last (started init mono)))
        ≡ sum_at
            (level_floor j l (tz_local cfg))
            (b, iface)
            (recorded f j cfg speed rs (started init mono) [])
  run_keeps_history rs last mono steady l b iface kept =
      run-keeps rs last (started init mono) [] [] steady (unfold started in here) l b iface kept
