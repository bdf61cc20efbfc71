-- ===== src/Daemon/Loop/Steps.antt =====
-- The parts of a turn of the loop in src/daemon.rs as steps on the recorded traffic.
use netmeter.Prelude.{
  ℕ, ◌≡◌, refl, sym, ap, subst, Bool, true, false, List, [], ◌∷◌, lookup-insert_ne, insert, Text,
  codes, ltb, ◌==◌, text_eq, pair_eq, int_eq, inl, inr, Bool-cases, Option-cases, All,
}
use netmeter.Prelude.Int.{ℤ, pos, leb_ℤ}
use netmeter.Prelude.Float.{Float}
use netmeter.Config.{Config, effective_budget}
use netmeter.Db.{Db, Table}
use netmeter.Db.Time.{Calendar}
use netmeter.Db.Rollup.{rollup, pending, newest, rollup_marker, marker_value}
use netmeter.Db.Rollup.Laws.{
  newest-none, rollup-idle, rollup-samples, rollup-marker, IsTime, newest_All,
}
use netmeter.Daemon.Sample.{PerIf, write_samples, sample_of, count_discarded}
use netmeter.Daemon.Budget.{gib, check_budget, check_period}
use netmeter.Daemon.History.{
  Life, IsLater, put_sample, record_sample, roll, note, aside, Reach, here, next,
}
use netmeter.Daemon.History.Invariant.{
  All-put_sample, pending-put_sample, newest_covers, pending_newest,
}
use netmeter.Daemon.Loop.{Loop, publish_nft, differs}
use netmeter.Daemon.Loop.Run.{IsWaitingAfter}

-- Another key of `meta` leaves the marker.
pub marker-note :
    (k v : Text) (db : Db)
    → (k == codes "last_rollup_ts") ≡ false
    → rollup_marker (record db { meta = insert k v db.meta }) ≡ rollup_marker db
unfolding rollup_marker
marker-note k v db other =
    ap marker_value (lookup-insert_ne k (codes "last_rollup_ts") v db.meta other)

-- The database has the samples that another one has, and its marker.
pub record IsSameTraffic (a b : Db) : Type 0 where
  pub samples : a.samples ≡ b.samples
  pub marker : rollup_marker a ≡ rollup_marker b

pub same-IsWaitingAfter :
    {a b : Db} (cut : ℤ) → IsSameTraffic a b → IsWaitingAfter cut b → IsWaitingAfter cut a
same-IsWaitingAfter cut p h = rw (p.marker, p.samples) h

pub discarded-IsSameTraffic : (n : ℕ) (db : Db) → IsSameTraffic (count_discarded n db) db
unfolding count_discarded
discarded-IsSameTraffic n db = elim (Bool-cases (ltb 0 n)) [
  | inl lost ↦ rw lost (record { samples = refl; marker = marker-note _ _ db refl })
  | inr kept ↦ rw kept (record { samples = refl; marker = refl })
]

pub publish-IsSameTraffic : (b : Bool) (s : Loop) → IsSameTraffic (publish_nft b s).db s.db
unfolding publish_nft
publish-IsSameTraffic b s = elim (Bool-cases (differs b s.nft_ok_reported)) [
  | inl new ↦ rw new (record { samples = refl; marker = marker-note _ _ s.db refl })
  | inr old ↦ rw old (record { samples = refl; marker = refl })
]

check_period-frame :
    (f : Float) (j : Calendar) (cfg : Config f.Real) (now : ℤ) (budget : Text × f.Real) (db : Db)
    → check_period f j cfg now budget db
      ≡ record db { budget_events = (check_period f j cfg now budget db).budget_events }
unfolding check_period
check_period-frame f j cfg now (period, gb) db =
    elim (Bool-cases (leb_ℤ (f.trunc (f.mul gb (f.literal gib 1))) (pos 0))) [
      | inl nothing ↦ rw nothing
      | inr something ↦ rw something
    ]

pub check_budget-frame :
    (f : Float) (j : Calendar) (cfg : Config f.Real) (now : ℤ) (db : Db)
    → check_budget f j cfg now db
      ≡ record db { budget_events = (check_budget f j cfg now db).budget_events }
unfolding check_budget
check_budget-frame f j cfg now db = elim (Option-cases (effective_budget f cfg)) [
  | inl unlimited ↦ rw (unlimited, check_budget)
  | inr (budget, limited) ↦ rw (limited, check_budget) (check_period-frame f j cfg now budget db)
]

pub budget-IsSameTraffic :
    (f : Float) (j : Calendar) (cfg : Config f.Real) (now : ℤ) (db : Db)
    → IsSameTraffic (check_budget f j cfg now db) db
unfolding rollup_marker
budget-IsSameTraffic f j cfg now db =
    subst (λ d. IsSameTraffic d db) (sym (check_budget-frame f j cfg now db))
      (record { samples = refl; marker = refl })

module _ {R : Type 0} (j : Calendar) (cfg : Config R) (local : Bool) where
  pub Reach-trans :
      {s t u : Life} → Reach j cfg local s t → Reach j cfg local t u → Reach j cfg local s u
  Reach-trans p here = p
  Reach-trans p (next q step) = next (Reach-trans p q) step

  -- The steps on a database, for one history and one list of cuts.
  abbrev pub Leads : Table → List ℤ → Db → Db → Type 0
  Leads h cuts a b =
      Reach j cfg local (record { history = h; db = a; cuts = cuts })
        (record { history = h; db = b; cuts = cuts })

  pub discarded-Leads :
      (h : Table) (cuts : List ℤ) (n : ℕ) (db : Db) → Leads h cuts db (count_discarded n db)
  unfolding count_discarded
  discarded-Leads h cuts n db = elim (Bool-cases (ltb 0 n)) [
    | inl lost ↦ rw lost (next here (note _ _ _ refl))
    | inr kept ↦ rw kept here
  ]

  pub publish-Leads :
      (h : Table) (cuts : List ℤ) (b : Bool) (s : Loop) → Leads h cuts s.db (publish_nft b s).db
  unfolding publish_nft
  publish-Leads h cuts b s = elim (Bool-cases (differs b s.nft_ok_reported)) [
    | inl new ↦ rw new (next here (note _ _ _ refl))
    | inr old ↦ rw old here
  ]

  pub roll-Leads : (h : Table) (cuts : List ℤ) (db : Db) → Leads h cuts db (rollup j db local)
  roll-Leads h cuts db = next here (roll _)

  pub budget-Leads :
      (f : Float) (c : Config f.Real) (h : Table) (cuts : List ℤ) (now : ℤ) (db : Db)
      → Leads h cuts db (check_budget f j c now db)
  budget-Leads f c h cuts now db =
      rw (check_budget-frame f j c now db) (next here (aside _ _ db.proc_hourly))

  -- The upserts of one turn's rows, all at one time.
  pub write-Leads :
      (f : Float) (c : Config f.Real) (now : ℤ) (lan tot : ℤ × ℤ) (per : List PerIf) (s : Life)
      → IsTime now
      → IsLater (rollup_marker s.db) now
      → Reach j cfg local s (record s {
        history = write_samples f c now lan tot per s.history;
        db = record s.db { samples = write_samples f c now lan tot per s.db.samples };
      })
  unfolding write_samples rollup_marker
  write-Leads f c now lan tot [] s p later = here
  write-Leads f c now lan tot (r ∷ per) s p later =
      Reach-trans (next here (record_sample s now r.iface (sample_of f c lan tot r) p later))
        (write-Leads f c now lan tot per _ p later)

-- The rows of one turn are as late as a cut before its time.
pub write-IsWaitingAfter :
    (f : Float) (c : Config f.Real) (cut now : ℤ) (lan tot : ℤ × ℤ) (per : List PerIf) (db : Db)
    → IsLater (rollup_marker db) now
    → leb_ℤ cut now ≡ true
    → IsWaitingAfter cut db
    → IsWaitingAfter cut (record db { samples = write_samples f c now lan tot per db.samples })
unfolding write_samples rollup_marker
write-IsWaitingAfter f c cut now lan tot [] db later recent h = h
write-IsWaitingAfter f c cut now lan tot (r ∷ per) db later recent h =
    write-IsWaitingAfter f c cut now lan tot per
      (record db { samples = put_sample (now, r.iface) (sample_of f c lan tot r) db.samples }) later
      recent
      (rw
        (pending-put_sample (rollup_marker db) now r.iface (sample_of f c lan tot r) db.samples
          later)
        (All-put_sample (λ ts. leb_ℤ cut ts ≡ true) now r.iface (sample_of f c lan tot r) _ recent
          h))

-- A rollup leaves nothing that waits.
pub rollup-IsWaitingAfter :
    (j : Calendar) (local : Bool) (cut : ℤ) (db : Db)
    → All (λ r. IsTime r.0.0) (pending (rollup_marker db) db.samples)
    → IsWaitingAfter cut (rollup j db local)
rollup-IsWaitingAfter j local cut db times =
    elim (Option-cases (newest (pending (rollup_marker db) db.samples))) [
      | inl idle ↦ rw (rollup-idle j db local idle, newest-none _ idle) tt
      | inr (m, found) ↦
          rw
            (
              rollup-marker j db local m found (newest_All IsTime _ m found times),
              rollup-samples j db local m found,
              pending_newest m db.samples (newest_covers (rollup_marker db) db.samples m found),
            )
            tt
    ]
