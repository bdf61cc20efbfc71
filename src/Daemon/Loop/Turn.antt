-- ===== src/Daemon/Loop/Turn.antt =====
-- What each part of a turn in src/daemon.rs adds to the history of what was measured, and what
-- waits for a rollup after it.
use netmeter.Prelude.{
  ℕ, ◌*◌, ◌≡◌, refl, sym, subst, true, List, [], ◌∷◌, Option, none, some, Map, Text, codes, text_eq,
  pair_eq, int_eq, inl, inr, Bool-cases, All,
}
use netmeter.Prelude.Int.{ℤ, pos, ◌-ℤ◌, ltb_ℤ, leb_ℤ}
use netmeter.Prelude.Float.{Float}
use netmeter.Config.{Config, tz_local}
use netmeter.Db.{Db, Table, traffic_amount}
use netmeter.Db.Time.{Calendar}
use netmeter.Db.Rollup.{pending, rollup_marker}
use netmeter.Db.Rollup.Laws.{IsTime}
use netmeter.Daemon.Rate.{max_bytes_per_tick}
use netmeter.Daemon.Sample.{
  PerIf, lan_delta, measure_all, write_samples, count_discarded, sum_rx, sum_tx,
}
use netmeter.Daemon.Retention.{cut_before}
use netmeter.Daemon.History.{Life, IsLater, retain, aside, Reach, here, next}
use netmeter.Daemon.Loop.{
  Loop, Reading, publish_nft, is_some, record_samples, record_programs, roll_due, retain_due,
  sample, six_hours, second,
}
use netmeter.Daemon.Loop.Laws.{prepared, missing-keeps}
use netmeter.Daemon.Loop.Run.{IsWaitingAfter, put_measured, cut_by}
use netmeter.Daemon.Loop.Steps.{
  discarded-IsSameTraffic, publish-IsSameTraffic, budget-IsSameTraffic, IsSameTraffic,
  same-IsWaitingAfter, Reach-trans, Leads, discarded-Leads, publish-Leads, roll-Leads, budget-Leads,
  write-Leads, write-IsWaitingAfter, rollup-IsWaitingAfter,
}

module _ (f : Float) (j : Calendar) (cfg : Config f.Real) (speed : Text → Option ℕ) where
  programs-Leads :
      (h : Table) (cuts : List ℤ) (now : ℤ) (o : Option (Map Text (ℕ × ℕ))) (db : Db)
      → Leads j cfg (tz_local cfg) h cuts db (record_programs f j cfg speed now o db)
  programs-Leads h cuts now none db = here
  programs-Leads h cuts now (some cur) db = next here (aside _ db.budget_events _)

  record_samples-Reach :
      (now : ℤ) (lan : ℤ × ℤ) (per : List PerIf) (s : Life)
      → IsTime now
      → IsLater (rollup_marker s.db) now
      → Reach j cfg (tz_local cfg) s (record s {
        history = write_samples f cfg now lan (sum_rx per, sum_tx per) per s.history;
        db = record_samples f j cfg speed now lan per s.db;
      })
  unfolding record_samples
  record_samples-Reach now lan [] s p later = unfold write_samples in here
  record_samples-Reach now lan (q ∷ per) s p later =
      Reach-trans j cfg (tz_local cfg)
        (write-Leads j cfg (tz_local cfg) f cfg now lan (sum_rx (q ∷ per), sum_tx (q ∷ per))
          (q ∷ per) s p later)
        (budget-Leads j cfg (tz_local cfg) f cfg _ s.cuts now _)

  -- What the sampling records, and what waits after it.
  pub sample-Reach :
      (r : Reading) (s : Loop) (h : Table) (cuts : List ℤ)
      → IsTime r.now
      → IsLater (rollup_marker s.db) r.now
      → Reach j cfg
          (tz_local cfg)
          (record { history = h; db = s.db; cuts = cuts })
          (record {
            history = put_measured f j cfg speed r s h;
            db = (sample f j cfg speed r s).db;
            cuts = cuts;
          })
  unfolding sample put_measured
  sample-Reach r s h cuts p later =
      let lan = lan_delta s.prev_lan r.lan (max_bytes_per_tick f cfg speed (codes "lan")) in
      let all = measure_all f cfg speed s.prev r.totals in
      Reach-trans j cfg (tz_local cfg)
        (Reach-trans j cfg (tz_local cfg) (discarded-Leads j cfg (tz_local cfg) h cuts all.0 s.db) (
          record_samples-Reach r.now lan all.1 _ p
            (subst (λ m. IsLater m r.now) (sym (discarded-IsSameTraffic all.0 s.db).marker) later)))
        (programs-Leads _ cuts r.now r.apps _)

  programs-IsSameTraffic :
      (now : ℤ) (o : Option (Map Text (ℕ × ℕ))) (db : Db)
      → IsSameTraffic (record_programs f j cfg speed now o db) db
  unfolding rollup_marker
  programs-IsSameTraffic now none db = record { samples = refl; marker = refl }
  programs-IsSameTraffic now (some cur) db = record { samples = refl; marker = refl }

  record_samples-IsWaitingAfter :
      (cut now : ℤ) (lan : ℤ × ℤ) (per : List PerIf) (db : Db)
      → IsLater (rollup_marker db) now
      → leb_ℤ cut now ≡ true
      → IsWaitingAfter cut db
      → IsWaitingAfter cut (record_samples f j cfg speed now lan per db)
  unfolding record_samples
  record_samples-IsWaitingAfter cut now lan [] db later recent h = h
  record_samples-IsWaitingAfter cut now lan (q ∷ per) db later recent h =
      same-IsWaitingAfter cut (budget-IsSameTraffic f j cfg now _) (
        write-IsWaitingAfter f cfg cut now lan (sum_rx (q ∷ per), sum_tx (q ∷ per)) (q ∷ per) db
          later recent h)

  pub sample-IsWaitingAfter :
      (cut : ℤ) (r : Reading) (s : Loop)
      → IsLater (rollup_marker s.db) r.now
      → leb_ℤ cut r.now ≡ true
      → IsWaitingAfter cut s.db
      → IsWaitingAfter cut (sample f j cfg speed r s).db
  unfolding sample
  sample-IsWaitingAfter cut r s later recent h =
      let discarded = (measure_all f cfg speed s.prev r.totals).0 in
      let same = discarded-IsSameTraffic discarded s.db in
      same-IsWaitingAfter cut (programs-IsSameTraffic r.now r.apps _) (
        record_samples-IsWaitingAfter cut r.now _ _ (count_discarded discarded s.db)
          (subst (λ m. IsLater m r.now) (sym same.marker) later) recent
          (same-IsWaitingAfter cut same h))

  pub prepared-IsSameTraffic :
      (r : Reading) (s : Loop) → IsSameTraffic (prepared f j cfg speed r s).db s.db
  prepared-IsSameTraffic r s =
      subst (λ d. IsSameTraffic d s.db)
        (sym
          (missing-keeps cfg.lan_subnets r.lan r.table_exists
            (publish_nft (is_some r.lan) (record s { last_tick = r.mono }))).0)
        (publish-IsSameTraffic (is_some r.lan) (record s { last_tick = r.mono }))

  pub prepared-Leads :
      (h : Table) (cuts : List ℤ) (r : Reading) (s : Loop)
      → Leads j cfg (tz_local cfg) h cuts s.db (prepared f j cfg speed r s).db
  prepared-Leads h cuts r s =
      subst (Leads j cfg (tz_local cfg) h cuts s.db)
        (sym
          (missing-keeps cfg.lan_subnets r.lan r.table_exists
            (publish_nft (is_some r.lan) (record s { last_tick = r.mono }))).0)
        (publish-Leads j cfg (tz_local cfg) h cuts (is_some r.lan)
          (record s { last_tick = r.mono }))

  pub roll_due-Leads :
      (h : Table) (cuts : List ℤ) (mono : ℕ) (s : Loop)
      → Leads j cfg (tz_local cfg) h cuts s.db (roll_due f j cfg speed mono s).db
  unfolding roll_due
  roll_due-Leads h cuts mono s =
      elim (Bool-cases (ltb_ℤ (pos (3600 * second)) (pos mono -ℤ s.last_rollup))) [
        | inl due ↦ rw due (roll-Leads j cfg (tz_local cfg) h cuts s.db)
        | inr early ↦ rw early here
      ]

  pub roll_due-IsWaitingAfter :
      (cut : ℤ) (mono : ℕ) (s : Loop)
      → All (λ r. IsTime r.0.0) (pending (rollup_marker s.db) s.db.samples)
      → IsWaitingAfter cut s.db
      → IsWaitingAfter cut (roll_due f j cfg speed mono s).db
  unfolding roll_due
  roll_due-IsWaitingAfter cut mono s times h =
      elim (Bool-cases (ltb_ℤ (pos (3600 * second)) (pos mono -ℤ s.last_rollup))) [
        | inl due ↦ rw due (rollup-IsWaitingAfter j (tz_local cfg) cut s.db times)
        | inr early ↦ rw early h
      ]

  pub retain_due-Reach :
      (r : Reading) (s : Loop) (h : Table) (cuts : List ℤ)
      → IsWaitingAfter (cut_before r.now cfg.retention_days_raw) s.db
      → Reach j cfg
          (tz_local cfg)
          (record { history = h; db = s.db; cuts = cuts })
          (record {
            history = h;
            db = (retain_due f j cfg speed r.now r.mono s).db;
            cuts = cut_by f j cfg speed r s.last_retain cuts;
          })
  unfolding retain_due
  retain_due-Reach r s h cuts waits =
      elim (Bool-cases (ltb_ℤ (pos six_hours) (pos r.mono -ℤ s.last_retain))) [
        | inl due ↦ rw due (next here (retain _ r.now waits))
        | inr early ↦ rw early here
      ]
