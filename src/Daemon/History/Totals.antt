-- ===== src/Daemon/History/Totals.antt =====
-- What the tables of src/daemon.rs and src/db.rs add up to, whatever steps the daemon took.
use netmeter.Prelude.Puts.{put_all, put_all-append, put_all_new}
use netmeter.Prelude.{
  IsMap, ◌≡◌, refl, sym, ◌∙◌, ap, Bool, Text, codes, [], add-nil, lookup, lookup-insert_ne, insert,
  upsert, amount_at, subst, text_eq, pair_eq, int_eq, Option-cases, inl, inr,
}
use netmeter.Prelude.Int.{ℤ}
use netmeter.Config.{Config}
use netmeter.Db.{no_traffic, add_traffic, traffic_amount, init}
use netmeter.Db.Time.{Calendar}
use netmeter.Db.Rollup.{marker_value, rollup_marker, pending, newest, rollup}
use netmeter.Db.Rollup.Sums.{sum_at}
use netmeter.Db.Rollup.Laws.{
  folded, sum_at-split, newest-none, amount_at-fold_into, Level, level_table, level_floor,
  rollup-idle, rollup-table, IsTime, HasTimes,
}
use netmeter.Daemon.Retention.{enforce_retention, cut_before}
use netmeter.Daemon.History.{
  Life, put_sample, Step, record_sample, roll, retain, note, aside, Reach, here, next, IsKept,
  IsRolledUp, start, sample_in, samples_in,
}
use netmeter.Daemon.History.Invariant.{
  All-put_sample, pending-put_sample, folded-put_sample, level_table-samples, level_table-meta,
  level_table-aside, pending-times, pending-delete_before, level_table-enforce_retention,
  rollup-IsRolledUp,
}

module _ {R : Type 0} (j : Calendar) (cfg : Config R) (local : Bool) where
  Step-IsRolledUp :
      {s t : Life} → Step j cfg local s t → IsRolledUp j local s → IsRolledUp j local t
  unfolding rollup_marker
  Step-IsRolledUp (record_sample s ts i v p later) h = record {
    times = All-put_sample IsTime ts i v s.history p h.times;
    waiting =
        pending-put_sample (rollup_marker s.db) ts i v s.db.samples later
        ∙ ap (put_sample (ts, i) v) h.waiting
        ∙ sym (pending-put_sample (rollup_marker s.db) ts i v s.history later);
    buckets = λ l b i' kept.
        rw
          (
            level_table-samples l s.db (put_sample (ts, i) v s.db.samples),
            folded-put_sample (rollup_marker s.db) ts i v s.history later,
          )
          (h.buckets l b i' kept);
  }
  Step-IsRolledUp (roll s) h = rollup-IsRolledUp j local s h
  Step-IsRolledUp (retain s now safe) h = record {
    times = h.times;
    waiting =
        unfold enforce_retention in
        pending-delete_before (rollup_marker s.db) (cut_before now cfg.retention_days_raw)
          s.db.samples safe
        ∙ h.waiting;
    buckets = λ l b i kept.
        let (same, before) = level_table-enforce_retention cfg now s.db l s.cuts b i kept in
        same ∙ (unfold enforce_retention in h.buckets l b i before);
  }
  Step-IsRolledUp (note s k v other) h =
      let same : rollup_marker (record s.db { meta = insert k v s.db.meta }) ≡ rollup_marker s.db =
        ap marker_value (lookup-insert_ne k (codes "last_rollup_ts") v s.db.meta other) in
      record {
        times = h.times;
        waiting = rw same h.waiting;
        buckets = λ l b i kept.
            rw (level_table-meta l s.db (insert k v s.db.meta), same) (h.buckets l b i kept);
      }
  Step-IsRolledUp (aside s events apps) h = record {
    times = h.times;
    waiting = h.waiting;
    buckets = λ l b i kept. rw (level_table-aside l s.db events apps) (h.buckets l b i kept);
  }

  Reach-IsRolledUp :
      {s t : Life} → IsRolledUp j local s → Reach j cfg local s t → IsRolledUp j local t
  Reach-IsRolledUp h here = h
  Reach-IsRolledUp h (next r step) = Step-IsRolledUp step (Reach-IsRolledUp h r)

pub sum_at-none : (floor : ℤ → ℤ) (key : ℤ × Text) → sum_at floor key [] ≡ no_traffic
unfolding sum_at
sum_at-none floor key = refl

module _ (j : Calendar) (local : Bool) where
  start-IsRolledUp : IsRolledUp j local start
  unfolding init lookup upsert rollup_marker pending folded sum_at
  start-IsRolledUp = record { times = tt; waiting = refl; buckets = λ l b i kept. empty l b i }
    where
      empty : (l : Level) (b : ℤ) (i : Text) → amount_at (b, i) (level_table l init) ≡ no_traffic
      empty Level.hour b i = refl
      empty Level.day b i = refl
      empty Level.month b i = refl

  -- After a rollup every bucket that was kept holds the sum of the uncut table.
  rolled-history :
      (s : Life)
      → IsRolledUp j local s
      → (l : Level) (b : ℤ) (i : Text) → IsKept l s.cuts b
      → amount_at (b, i) (level_table l (rollup j s.db local))
        ≡ sum_at (level_floor j l local) (b, i) s.history
  rolled-history s h l b i kept =
      elim (Option-cases (newest (pending (rollup_marker s.db) s.db.samples))) [
        | inl idle ↦
            let floor = level_floor j l local in
            let none_waits : pending (rollup_marker s.db) s.history ≡ [] =
              sym h.waiting ∙ newest-none (pending (rollup_marker s.db) s.db.samples) idle in
            rw (rollup-idle j s.db local idle) (
              h.buckets l b i kept
              ∙ sym (add-nil _)
              ∙ ap (add_traffic (sum_at floor (b, i) (folded (rollup_marker s.db) s.history)))
                  (sym (ap (sum_at floor (b, i)) none_waits ∙ sum_at-none floor (b, i)))
              ∙ sym (sum_at-split floor (b, i) (rollup_marker s.db) s.history))
        | inr (m, found) ↦
            rw (rollup-table j s.db local m found l, h.waiting)
              (amount_at-fold_into (level_floor j l local) (b, i) (rollup_marker s.db) s.history
                (level_table l s.db) (h.buckets l b i kept))
      ]

-- The times of the samples that wait.
pub Reach-times :
    {R : Type 0} (j : Calendar) (cfg : Config R) (local : Bool) (s : Life)
    → Reach j cfg local start s
    → HasTimes (pending (rollup_marker s.db) s.db.samples)
Reach-times j cfg local s r =
    let h = Reach-IsRolledUp j cfg local (start-IsRolledUp j local) r in
    subst HasTimes (sym h.waiting) (pending-times (rollup_marker s.db) s.history h.times)

module _ {R : Type 0} (j : Calendar) (cfg : Config R) (local : Bool) where
  -- The table that is never cut is that of the samples on the way.
  Step-put_all :
      {s t : Life} (step : Step j cfg local s t)
      → t.history ≡ put_all (sample_in j cfg local step) s.history
  unfolding put_all
  Step-put_all (record_sample s ts i v p later) = refl
  Step-put_all (roll s) = refl
  Step-put_all (retain s now safe) = refl
  Step-put_all (note s k v other) = refl
  Step-put_all (aside s events apps) = refl

  history-put_all :
      {s t : Life} (r : Reach j cfg local s t)
      → t.history ≡ put_all (samples_in j cfg local r) s.history
  unfolding samples_in
  history-put_all here = unfold put_all in refl
  history-put_all {s} (next r step) =
      Step-put_all step
      ∙ ap (put_all (sample_in j cfg local step)) (history-put_all r)
      ∙ sym (put_all-append (samples_in j cfg local r) (sample_in j cfg local step) s.history)

  history-samples_in :
      (s : Life) (r : Reach j cfg local start s)
      → IsMap (samples_in j cfg local r)
      → s.history ≡ samples_in j cfg local r
  history-samples_in s r distinct =
      history-put_all r ∙ put_all_new (samples_in j cfg local r) [] distinct

  -- A rollup leaves in every bucket the sum of the table that is never cut.
  pub rollup-history :
      (s : Life)
      → Reach j cfg local start s
      → (l : Level) (b : ℤ) (iface : Text) → IsKept l s.cuts b
      → amount_at (b, iface) (level_table l (rollup j s.db local))
        ≡ sum_at (level_floor j l local) (b, iface) s.history
  rollup-history s r =
      rolled-history j local s (Reach-IsRolledUp j cfg local (start-IsRolledUp j local) r)

  -- From an empty database, after any sequence of recorded samples (each later than the rollup's
  -- marker, and no two of one interface and second), rollups, retention runs (none before the
  -- rollup of what it drops) and writes of other meta keys, of budget events and of programs'
  -- bytes, a rollup leaves in every hourly, daily and monthly bucket of an interface the sum of all
  -- samples ever recorded in it, also of those that retention has dropped; an hourly bucket only if
  -- retention has not dropped it itself.
  pub rollup_keeps_history :
      (s : Life) (r : Reach j cfg local start s)
      → IsMap (samples_in j cfg local r)
      → (l : Level) (b : ℤ) (iface : Text) → IsKept l s.cuts b
      → amount_at (b, iface) (level_table l (rollup j s.db local))
        ≡ sum_at (level_floor j l local) (b, iface) (samples_in j cfg local r)
  rollup_keeps_history s r distinct l b iface kept =
      rollup-history s r l b iface kept
      ∙ ap (sum_at (level_floor j l local) (b, iface)) (history-samples_in s r distinct)

  -- From an empty database, after any sequence of recorded samples (each later than the rollup's
  -- marker, and no two of one interface and second), rollups, retention runs (none before the
  -- rollup of what it drops) and writes of other meta keys, of budget events and of programs'
  -- bytes, every daily and monthly bucket, and every hourly one that retention has not dropped,
  -- holds the sum of all recorded samples up to the marker, and the samples after the marker that
  -- the table holds are exactly all that were recorded, in their order.
  pub buckets_up_to_marker :
      (s : Life) (r : Reach j cfg local start s)
      → IsMap (samples_in j cfg local r)
      → (l : Level) (b : ℤ) (iface : Text) → IsKept l s.cuts b
      → let samples = samples_in j cfg local r in
        let marker = rollup_marker s.db in
        (amount_at (b, iface) (level_table l s.db)
          ≡ sum_at (level_floor j l local) (b, iface) (folded marker samples))
        × (pending marker s.db.samples ≡ pending marker samples)
  buckets_up_to_marker s r distinct l b iface kept =
      let h = Reach-IsRolledUp j cfg local (start-IsRolledUp j local) r in
      let same = history-samples_in s r distinct in
      (
        h.buckets l b iface kept
            ∙ ap (λ t. sum_at (level_floor j l local) (b, iface) (folded (rollup_marker s.db) t))
                same,
        h.waiting ∙ ap (pending (rollup_marker s.db)) same,
      )
