-- ===== src/Show/Published.antt =====
-- What the daemon's loop of src/daemon.rs publishes in `meta.nft_ok`, for the status of src/main.rs.
use mathlib.Core.Option.{some-injective}
use netmeter.Prelude.{
  Map, ◌*◌, ℕ, ◌≡◌, refl, sym, ◌∙◌, ap, Bool, true, false, ◌||◌, List, [], ◌∷◌, Option, none, some,
  Text, codes, lookup, lookup-insert_self, lookup-insert_ne, text_eq, ltb, Bool-cases, Option-cases,
  inl, inr, arith,
}
use netmeter.Prelude.Int.{ℤ, pos, ◌-ℤ◌, ltb_ℤ}
use netmeter.Prelude.Float.{Float}
use netmeter.Config.{Config, tz_local}
use netmeter.Db.{Db}
use netmeter.Db.Time.{Calendar}
use netmeter.Db.Rollup.{rollup, rollup_marker, pending, newest}
use netmeter.Daemon.Sample.{count_discarded, PerIf}
use netmeter.Daemon.Retention.{enforce_retention}
use netmeter.Daemon.Loop.{
  Loop, Reading, started, tick, is_gap, sample, roll_due, retain_due, record_samples,
  record_programs, count_missing, publish_nft, second, six_hours, is_some, is_empty, differs,
  on_off,
}
use netmeter.Daemon.Loop.Reinstall.{turns}
use netmeter.Daemon.Loop.Steps.{check_budget-frame}
use netmeter.Daemon.Loop.Laws.{prepared}
use netmeter.Show.Status.{nft_ok, split_known, lan_seen}

abbrev flag : Db → Option Text
flag db = lookup (codes "nft_ok") db.meta

-- What the loop has last reported stands in the database.
abbrev IsPublished : Loop → Type 0
IsPublished s = (b : Bool) → s.nft_ok_reported ≡ some b → flag s.db ≡ some (on_off b)

flag-rollup : (j : Calendar) (db : Db) (local : Bool) → flag (rollup j db local) ≡ flag db
unfolding rollup
flag-rollup j db local = elim (Option-cases (newest (pending (rollup_marker db) db.samples))) [
  | inl nothing ↦ rw (nothing, rollup) refl
  | inr (ts, e) ↦
      rw (e, rollup) (lookup-insert_ne (codes "last_rollup_ts") (codes "nft_ok") _ db.meta refl)
]

flag-discarded : (n : ℕ) (db : Db) → flag (count_discarded n db) ≡ flag db
unfolding count_discarded
flag-discarded n db = elim (Bool-cases (ltb 0 n)) [
  | inl lost ↦
      rw lost (lookup-insert_ne (codes "discarded_samples") (codes "nft_ok") _ db.meta refl)
  | inr kept ↦ rw kept refl
]

differs_iff : (b : Bool) (o : Option Bool) → differs b o ≡ false → o ≡ some b
differs_iff b none h = absurd cc
differs_iff true (some true) h = refl
differs_iff true (some false) h = absurd cc
differs_iff false (some true) h = absurd cc
differs_iff false (some false) h = refl

publish_lem :
    (b : Bool) (s : Loop)
    → IsPublished s
    → (flag (publish_nft b s).db ≡ some (on_off b)) × ((publish_nft b s).nft_ok_reported ≡ some b)
unfolding publish_nft
publish_lem b s h = elim (Bool-cases (differs b s.nft_ok_reported)) [
  | inl new ↦ rw new (lookup-insert_self (codes "nft_ok") (on_off b) s.db.meta, refl)
  | inr same ↦ let known = differs_iff b s.nft_ok_reported same in rw same (h b known, known)
]

missing-same :
    (subnets : List Text) (lan : Option (ℕ × ℕ)) (table : Bool) (s : Loop)
    → ((count_missing subnets lan table s).db ≡ s.db)
      × ((count_missing subnets lan table s).nft_ok_reported ≡ s.nft_ok_reported)
unfolding count_missing
missing-same subnets none table s = (ground arith, ground arith)
missing-same subnets (some n) table s = (refl, refl)

started-IsPublished : (db : Db) (mono : ℕ) → IsPublished (started db mono)
unfolding started
started-IsPublished db mono b h = absurd cc

read_on_off : (b : Bool) (seen : ℤ) → split_known (some (on_off b)) seen ≡ b
read_on_off true seen = refl
read_on_off false seen = refl

module _ (f : Float) (j : Calendar) (cfg : Config f.Real) (speed : Text → Option ℕ) where
  flag-samples :
      (now : ℤ) (lan : ℤ × ℤ) (per : List PerIf) (db : Db)
      → flag (record_samples f j cfg speed now lan per db) ≡ flag db
  unfolding record_samples
  flag-samples now lan per db = elim (Bool-cases (is_empty per)) [
    | inl idle ↦ rw idle refl
    | inr busy ↦ rw busy (ap flag (check_budget-frame f j cfg now _))
  ]

  flag-programs :
      (now : ℤ) (apps : Option (Map Text (ℕ × ℕ))) (db : Db)
      → flag (record_programs f j cfg speed now apps db) ≡ flag db
  flag-programs now none db = refl
  flag-programs now (some cur) db = refl

  flag-sample : (r : Reading) (s : Loop) → flag (sample f j cfg speed r s).db ≡ flag s.db
  unfolding sample
  flag-sample r s = flag-programs r.now r.apps _ ∙ flag-samples r.now _ _ _ ∙ flag-discarded _ s.db

  flag-roll_due : (mono : ℕ) (s : Loop) → flag (roll_due f j cfg speed mono s).db ≡ flag s.db
  unfolding roll_due
  flag-roll_due mono s =
      elim (Bool-cases (ltb_ℤ (pos (3600 * second)) (pos mono -ℤ s.last_rollup))) [
        | inl due ↦ rw due (flag-rollup j s.db (tz_local cfg))
        | inr early ↦ rw early refl
      ]

  flag-retain_due :
      (now : ℤ) (mono : ℕ) (s : Loop) → flag (retain_due f j cfg speed now mono s).db ≡ flag s.db
  unfolding retain_due enforce_retention
  flag-retain_due now mono s =
      elim (Bool-cases (ltb_ℤ (pos six_hours) (pos mono -ℤ s.last_retain))) [
        | inl due ↦ rw due refl
        | inr early ↦ rw early refl
      ]

  -- A turn without a gap.
  tick-flag :
      (r : Reading) (s : Loop)
      → is_gap f j cfg speed r s ≡ false
      → IsPublished s
      → flag (tick f j cfg speed r s).db ≡ some (on_off (is_some r.lan))
  unfolding tick
  tick-flag r s awake h =
      let timed : Loop = record s { last_tick = r.mono } in
      let published = publish_nft (is_some r.lan) timed in
      rw awake (
        flag-retain_due r.now r.mono _
        ∙ flag-roll_due r.mono _
        ∙ flag-sample r (prepared f j cfg speed r s)
        ∙ ap flag (missing-same cfg.lan_subnets r.lan r.table_exists published).0
        ∙ (publish_lem (is_some r.lan) timed h).0)

  roll_due-reported :
      (mono : ℕ) (s : Loop) → (roll_due f j cfg speed mono s).nft_ok_reported ≡ s.nft_ok_reported
  unfolding roll_due
  roll_due-reported mono s = ground arith

  retain_due-reported :
      (now : ℤ) (mono : ℕ) (s : Loop)
      → (retain_due f j cfg speed now mono s).nft_ok_reported ≡ s.nft_ok_reported
  unfolding retain_due
  retain_due-reported now mono s = ground arith

  tick-reported :
      (r : Reading) (s : Loop)
      → is_gap f j cfg speed r s ≡ false
      → IsPublished s
      → (tick f j cfg speed r s).nft_ok_reported ≡ some (is_some r.lan)
  unfolding tick sample
  tick-reported r s awake h =
      let timed : Loop = record s { last_tick = r.mono } in
      let published = publish_nft (is_some r.lan) timed in
      let kept = (missing-same cfg.lan_subnets r.lan r.table_exists published).1 in
      rw awake (
        retain_due-reported r.now r.mono _
        ∙ roll_due-reported r.mono _
        ∙ kept
        ∙ (publish_lem (is_some r.lan) timed h).1)

  tick-IsPublished : (r : Reading) (s : Loop) → IsPublished s → IsPublished (tick f j cfg speed r s)
  tick-IsPublished r s h = elim (Bool-cases (is_gap f j cfg speed r s)) [
    | inl gap ↦ unfold tick in rw gap h
    | inr awake ↦ λ b known.
        tick-flag r s awake h
        ∙ ap (λ c. some (on_off c)) (some-injective _ _ (sym (tick-reported r s awake h) ∙ known))
  ]

  turns-IsPublished :
      (rs : List Reading) (s : Loop) → IsPublished s → IsPublished (turns f j cfg speed rs s)
  turns-IsPublished [] s h = h
  turns-IsPublished (r ∷ rs) s h =
      turns-IsPublished rs (tick f j cfg speed r s) (tick-IsPublished r s h)

  -- After any turns of a daemon that started on any database, and a turn without a gap, status says
  -- that the split works exactly where it sees the table of nftables itself or this turn found the
  -- counters.
  pub nft_ok-tick :
      (db : Db) (mono : ℕ) (rs : List Reading) (r : Reading) (direct : Bool)
      → is_gap f j cfg speed r (turns f j cfg speed rs (started db mono)) ≡ false
      → nft_ok direct (some (tick f j cfg speed r (turns f j cfg speed rs (started db mono))).db)
        ≡ (direct || is_some r.lan)
  unfolding nft_ok
  nft_ok-tick db mono rs r direct awake =
      let s : Loop = turns f j cfg speed rs (started db mono) in
      let published : IsPublished s =
        turns-IsPublished rs (started db mono) (started-IsPublished db mono) in
      let seen : ℤ = lan_seen (tick f j cfg speed r s).db.samples in
      ap (λ o. direct || split_known o seen) (tick-flag r s awake published)
      ∙ ap (λ b. direct || b) (read_on_off (is_some r.lan) seen)
