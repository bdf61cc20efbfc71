-- ===== src/Daemon/History/Invariant.antt =====
-- The invariant of the recorded traffic, kept by every step of the daemon.
use netmeter.Prelude.{
  ◌≡◌, refl, sym, ◌∙◌, ap, subst, Bool, true, Text, Map, List, [], ◌∷◌, Option, none, some, keep,
  All, All-keep, All-map, keep-All, keep-keep, keep-none, keep_passes, keep-upsert,
  keep-upsert_dropped, lookup-keep, upsert, amount_at, get_or, ◌==◌, text_eq, pair_eq, int_eq,
  Bool-cases, Option-cases, inl, inr, arith,
}
use netmeter.Prelude.Int.{ℤ, ltb_ℤ, leb_ℤ, ◌≤ℤ◌, ◌<ℤ◌}
use netmeter.Config.{Config}
use netmeter.Db.{Db, Table, Traffic, no_traffic, traffic_amount}
use netmeter.Db.Time.{Calendar}
use netmeter.Db.Rollup.{rollup_marker, pending, newest, rollup}
use netmeter.Db.Rollup.Laws.{
  folded, newest_bounds, newest_All, amount_at-fold_into, Level, level_table, level_floor, IsTime,
  HasTimes, rollup-idle, rollup-table, rollup-samples, rollup-marker,
}
use netmeter.Daemon.Retention.{enforce_retention, cut_before, delete_before}
use netmeter.Daemon.History.{Life, IsLater, put_sample, IsKept, IsRolledUp}

-- What holds of a new sample's time and of those in the table holds after the upsert.
pub All-put_sample :
    (P : ℤ → Type 0) (ts : ℤ) (i : Text) (v : Traffic) (t : Table)
    → P ts
    → All (λ r. P r.0.0) t
    → All (λ r. P r.0.0) (put_sample (ts, i) v t)
unfolding upsert
All-put_sample P ts i v [] p h = (p, tt)
All-put_sample P ts i v ((k, w) ∷ t) p h = elim (Bool-cases (k == (ts, i))) [
  | inl same ↦ rw same (h.0, h.1)
  | inr other ↦ rw other (h.0, All-put_sample P ts i v t p h.1)
]

-- A later sample is pending, and is not among the folded ones.
pub pending-put_sample :
    (last : Option ℤ) (ts : ℤ) (i : Text) (v : Traffic) (t : Table)
    → IsLater last ts
    → pending last (put_sample (ts, i) v t) ≡ put_sample (ts, i) v (pending last t)
unfolding pending
pending-put_sample none ts i v t h = refl
pending-put_sample (some last) ts i v t h =
    keep-upsert (λ k. ltb_ℤ last k.0) (ts, i) v (λ _. v) t (ground arith)

pub folded-put_sample :
    (last : Option ℤ) (ts : ℤ) (i : Text) (v : Traffic) (t : Table)
    → IsLater last ts
    → folded last (put_sample (ts, i) v t) ≡ folded last t
unfolding folded
folded-put_sample none ts i v t h = refl
folded-put_sample (some last) ts i v t h =
    keep-upsert_dropped (λ k. leb_ℤ k.0 last) (ts, i) v (λ _. v) t (ground arith)

-- The newest pending time bounds every row's time.
pub newest_covers :
    (last : Option ℤ) (t : Table) (m : ℤ)
    → newest (pending last t) ≡ some m
    → All (λ s. s.0.0 ≤ℤ m) t
unfolding pending
newest_covers none t m h = newest_bounds t m h
newest_covers (some last) t m h =
    covers t
      (newest_All (λ ts. last <ℤ ts) (keep (λ s. ltb_ℤ last s.0.0) t) m h
        (All-map (λ s p. ground arith) (keep (λ s. ltb_ℤ last s.0.0) t)
          (keep_passes (λ s. ltb_ℤ last s.0.0) t)))
      (newest_bounds (keep (λ s. ltb_ℤ last s.0.0) t) m h)
  where
    covers :
        (t : Table)
        → last <ℤ m
        → All (λ s. s.0.0 ≤ℤ m) (keep (λ s. ltb_ℤ last s.0.0) t)
        → All (λ s. s.0.0 ≤ℤ m) t
    covers [] l h = tt
    covers (s ∷ t) l h = elim (Bool-cases (ltb_ℤ last s.0.0)) [
      | inl later ↦
          let h' : All (λ s. s.0.0 ≤ℤ m) (s ∷ keep (λ s. ltb_ℤ last s.0.0) t) = rw later at h in
          (h'.0, covers t l h'.1)
      | inr early ↦ (ground arith, covers t l (rw early at h))
    ]

folded_newest : (m : ℤ) (t : Table) → All (λ s. s.0.0 ≤ℤ m) t → folded (some m) t ≡ t
unfolding folded
folded_newest m t h = keep-All (λ s. leb_ℤ s.0.0 m) t (All-map (λ s p. ground arith) t h)

pub pending_newest : (m : ℤ) (t : Table) → All (λ s. s.0.0 ≤ℤ m) t → pending (some m) t ≡ []
unfolding pending
pending_newest m t h = keep-none (λ s. ltb_ℤ m s.0.0) t (All-map (λ s p. ground arith) t h)

pub pending-times : (last : Option ℤ) (t : Table) → HasTimes t → HasTimes (pending last t)
unfolding pending
pending-times none t h = h
pending-times (some last) t h = All-keep (λ s. IsTime s.0.0) (λ s. ltb_ℤ last s.0.0) t h

pub level_table-samples :
    (l : Level) (db : Db) (t : Table) → level_table l (record db { samples = t }) ≡ level_table l db
level_table-samples Level.hour db t = refl
level_table-samples Level.day db t = refl
level_table-samples Level.month db t = refl

pub level_table-meta :
    (l : Level) (db : Db) (m : Map Text Text)
    → level_table l (record db { meta = m }) ≡ level_table l db
level_table-meta Level.hour db m = refl
level_table-meta Level.day db m = refl
level_table-meta Level.month db m = refl

pub level_table-aside :
    (l : Level) (db : Db) (events : Map Text (ℤ × ℤ)) (apps : Map (ℤ × Text) (ℤ × ℤ))
    → level_table l (record db { budget_events = events; proc_hourly = apps }) ≡ level_table l db
level_table-aside Level.hour db events apps = refl
level_table-aside Level.day db events apps = refl
level_table-aside Level.month db events apps = refl

-- Rows that all come after a cut stay pending after it.
pub pending-delete_before :
    (last : Option ℤ) (cut : ℤ) (t : Table)
    → All (λ r. leb_ℤ cut r.0.0 ≡ true) (pending last t)
    → pending last (delete_before cut t) ≡ pending last t
unfolding pending
pending-delete_before none cut t h = keep-All (λ r. leb_ℤ cut r.0.0) t h
pending-delete_before (some last) cut t h =
    keep-keep (λ r. ltb_ℤ last r.0.0) (λ r. leb_ℤ cut r.0.0) t h

-- Retention drops no bucket that lies after all cuts.
pub level_table-enforce_retention :
    {R : Type 0} (cfg : Config R) (now : ℤ) (db : Db) (l : Level) (cuts : List ℤ) (b : ℤ) (i : Text)
    → IsKept l (cut_before now cfg.retention_days_hourly ∷ cuts) b
    → (amount_at (b, i) (level_table l (enforce_retention cfg now db))
        ≡ amount_at (b, i) (level_table l db))
      × IsKept l cuts b
unfolding enforce_retention
level_table-enforce_retention cfg now db Level.hour cuts b i h = (
  ap (λ o. get_or o no_traffic)
      (lookup-keep (λ k. leb_ℤ (cut_before now cfg.retention_days_hourly) k.0) (b, i) db.hourly
        h.0),
  h.1,
)
level_table-enforce_retention cfg now db Level.day cuts b i h = (refl, tt)
level_table-enforce_retention cfg now db Level.month cuts b i h = (refl, tt)

module _ (j : Calendar) (local : Bool) where
  pub rollup-IsRolledUp :
      (s : Life) → IsRolledUp j local s → IsRolledUp j local (record s { db = rollup j s.db local })
  rollup-IsRolledUp s h = elim (Option-cases (newest (pending (rollup_marker s.db) s.db.samples))) [
    | inl idle ↦
        subst (λ d. IsRolledUp j local (record s { db = d })) (sym (rollup-idle j s.db local idle))
          h
    | inr (m, found) ↦
        let found' : newest (pending (rollup_marker s.db) s.history) ≡ some m =
          subst (λ t. newest t ≡ some m) h.waiting found in
        let all : All (λ r. r.0.0 ≤ℤ m) s.history =
          newest_covers (rollup_marker s.db) s.history m found' in
        let all_db : All (λ r. r.0.0 ≤ℤ m) s.db.samples =
          newest_covers (rollup_marker s.db) s.db.samples m found in
        let marker : rollup_marker (rollup j s.db local) ≡ some m =
          rollup-marker j s.db local m found (
            newest_All IsTime (pending (rollup_marker s.db) s.history) m found'
              (pending-times (rollup_marker s.db) s.history h.times)) in
        record {
          times = h.times;
          waiting =
              rw (marker, rollup-samples j s.db local m found)
                (pending_newest m s.db.samples all_db ∙ sym (pending_newest m s.history all));
          buckets = λ l b i kept.
              rw
                (
                  marker,
                  folded_newest m s.history all,
                  rollup-table j s.db local m found l,
                  h.waiting,
                )
                (amount_at-fold_into (level_floor j l local) (b, i) (rollup_marker s.db) s.history
                  (level_table l s.db) (h.buckets l b i kept));
        }
  ]
