-- ===== src/Daemon/Loop/Laws.antt =====
-- What a tick of the loop in src/daemon.rs records after a gap, and what it publishes.
use netmeter.Prelude.{
  ℕ, ◌+◌, ◌*◌, ◌&&◌, ◌≡◌, refl, ap, ◌∙◌, Bool, true, false, not, List, [], ◌∷◌, Option, none, some,
  Map, lookup, Text, ltb, nat_beq, text_eq, pair_eq, int_eq, inl, inr, Bool-cases, arith,
}
use netmeter.Prelude.Int.{ℤ, pos, ◌-ℤ◌, ltb_ℤ}
use netmeter.Prelude.Float.{Float}
use netmeter.Config.{Config, excluded, tz_local}
use netmeter.Db.{Db}
use netmeter.Db.Time.{Calendar}
use netmeter.Db.Query.{bytes_amount}
use netmeter.Db.Rollup.{rollup, pending, newest, rollup_marker}
use netmeter.Db.Rollup.Laws.{rollup-idle, rollup-samples}
use netmeter.Daemon.Sample.{measure_all, measure_iface, count_discarded, Totals}
use netmeter.Daemon.Loop.{
  Loop, Reading, tick, sample, is_gap, record_samples, record_programs, roll_due, retain_due,
  count_missing, publish_nft, is_some, differs, six_hours, second,
}

module _ (f : Float) (cfg : Config f.Real) (speed : Text → Option ℕ) where
  -- Without an earlier reading there is no delta.
  pub measure_all-first : (totals : Totals) → measure_all f cfg speed [] totals ≡ (0, [])
  unfolding measure_all measure_iface lookup
  measure_all-first [] = refl
  measure_all-first ((iface, now) ∷ totals) = elim (Bool-cases (excluded cfg iface)) [
    | inl yes_e ↦ rw (yes_e, measure_all-first totals)
    | inr no_e ↦ rw (no_e, measure_all-first totals)
  ]

publish-samples : (b : Bool) (s : Loop) → (publish_nft b s).db.samples ≡ s.db.samples
unfolding publish_nft
publish-samples b s = elim (Bool-cases (differs b s.nft_ok_reported)) [
  | inl new ↦ rw new
  | inr old ↦ rw old
]

publish-prev : (b : Bool) (s : Loop) → (publish_nft b s).prev ≡ s.prev
unfolding publish_nft
publish-prev b s = elim (Bool-cases (differs b s.nft_ok_reported)) [
  | inl new ↦ rw new
  | inr old ↦ rw old
]

publish-last_retain : (b : Bool) (s : Loop) → (publish_nft b s).last_retain ≡ s.last_retain
unfolding publish_nft
publish-last_retain b s = elim (Bool-cases (differs b s.nft_ok_reported)) [
  | inl new ↦ rw new
  | inr old ↦ rw old
]

module _ (subnets : List Text) (lan : Option (ℕ × ℕ)) (gone : Bool) (s : Loop) where
  pub missing-keeps :
      ((count_missing subnets lan gone s).db ≡ s.db)
      × (((count_missing subnets lan gone s).prev ≡ s.prev)
          × ((count_missing subnets lan gone s).last_retain ≡ s.last_retain))
  unfolding count_missing
  missing-keeps = by_lan lan
    where
      by_lan :
          (o : Option (ℕ × ℕ))
          → ((count_missing subnets o gone s).db ≡ s.db)
            × (((count_missing subnets o gone s).prev ≡ s.prev)
                × ((count_missing subnets o gone s).last_retain ≡ s.last_retain))
      by_lan none = elim (Bool-cases (nat_beq (s.nft_missing_ticks + 1) 12 && not gone)) [
        | inl twelfth ↦ rw twelfth (refl, (refl, refl))
        | inr other ↦ rw other (refl, (refl, refl))
      ]
      by_lan (some l) = (refl, (refl, refl))

discarded-samples : (n : ℕ) (db : Db) → (count_discarded n db).samples ≡ db.samples
unfolding count_discarded
discarded-samples n db = elim (Bool-cases (ltb 0 n)) [
  | inl some_lost ↦ rw some_lost
  | inr none_lost ↦ rw none_lost
]

rollup-keeps_samples :
    (j : Calendar) (db : Db) (local : Bool) → (rollup j db local).samples ≡ db.samples
rollup-keeps_samples j db local = by_newest (newest (pending (rollup_marker db) db.samples)) refl
  where
    by_newest :
        (o : Option ℤ)
        → newest (pending (rollup_marker db) db.samples) ≡ o
        → (rollup j db local).samples ≡ db.samples
    by_newest none e = ap (λ d. d.samples) (rollup-idle j db local e)
    by_newest (some m) e = rollup-samples j db local m e

module _ (f : Float) (j : Calendar) (cfg : Config f.Real) (speed : Text → Option ℕ) where
  programs-samples :
      (now : ℤ) (o : Option (Map Text (ℕ × ℕ))) (db : Db)
      → (record_programs f j cfg speed now o db).samples ≡ db.samples
  programs-samples now none db = refl
  programs-samples now (some cur) db = refl

  sample-first :
      (r : Reading) (s : Loop) → s.prev ≡ [] → (sample f j cfg speed r s).db.samples ≡ s.db.samples
  unfolding sample
  sample-first r s h =
      rw (h, measure_all-first f cfg speed r.totals)
        (programs-samples r.now r.apps _ ∙ (unfold record_samples in discarded-samples 0 s.db))

  roll_due-samples :
      (mono : ℕ) (s : Loop) → (roll_due f j cfg speed mono s).db.samples ≡ s.db.samples
  unfolding roll_due
  roll_due-samples mono s =
      elim (Bool-cases (ltb_ℤ (pos (3600 * second)) (pos mono -ℤ s.last_rollup))) [
        | inl due ↦ rw due (rollup-keeps_samples j s.db (tz_local cfg))
        | inr early ↦ rw early
      ]

  pub roll_due-last_retain :
      (mono : ℕ) (s : Loop) → (roll_due f j cfg speed mono s).last_retain ≡ s.last_retain
  unfolding roll_due
  roll_due-last_retain mono s = ground arith

  retain_due-early :
      (now : ℤ) (mono : ℕ) (s : Loop)
      → ltb_ℤ (pos six_hours) (pos mono -ℤ s.last_retain) ≡ false
      → (retain_due f j cfg speed now mono s).db.samples ≡ s.db.samples
  unfolding retain_due
  retain_due-early now mono s early = rw early

  -- What `tick` does to the readings before it samples.
  abbrev pub prepared : Reading → Loop → Loop
  prepared r s =
      count_missing cfg.lan_subnets r.lan r.table_exists
        (publish_nft (is_some r.lan) (record s { last_tick = r.mono }))

  pub prepared-keeps :
      (r : Reading) (s : Loop)
      → ((prepared r s).db.samples ≡ s.db.samples)
        × (((prepared r s).prev ≡ s.prev) × ((prepared r s).last_retain ≡ s.last_retain))
  prepared-keeps r s =
      let timed : Loop = record s { last_tick = r.mono } in
      let kept =
        missing-keeps cfg.lan_subnets r.lan r.table_exists (publish_nft (is_some r.lan) timed) in
      (
        ap (λ d. d.samples) kept.0 ∙ publish-samples (is_some r.lan) timed,
        (
          kept.1.0 ∙ publish-prev (is_some r.lan) timed,
          kept.1.1 ∙ publish-last_retain (is_some r.lan) timed,
        ),
      )

  pub sample-last_retain :
      (r : Reading) (s : Loop) → (sample f j cfg speed r s).last_retain ≡ s.last_retain
  unfolding sample
  sample-last_retain r s = refl

  pub slept :
      (r : Reading) (s : Loop)
      → is_gap f j cfg speed r s ≡ true
      → tick f j cfg speed r s ≡ record s { last_tick = r.mono; prev = []; prev_lan = r.lan }
  unfolding tick
  slept r s gap = rw gap

  tick-first :
      (r : Reading) (s : Loop)
      → s.prev ≡ []
      → ltb_ℤ (pos six_hours) (pos r.mono -ℤ s.last_retain) ≡ false
      → (tick f j cfg speed r s).db.samples ≡ s.db.samples
  unfolding tick
  tick-first r s first early = elim (Bool-cases (is_gap f j cfg speed r s)) [
    | inl gap ↦ rw gap
    | inr no_gap ↦ rw no_gap (
        let kept = prepared-keeps r s in
        let sampled : Loop = sample f j cfg speed r (prepared r s) in
        retain_due-early r.now r.mono _ (
          rw (roll_due-last_retain r.mono sampled, sample-last_retain r (prepared r s), kept.1.1)
            early)
        ∙ roll_due-samples r.mono sampled
        ∙ sample-first r (prepared r s) (kept.1.0 ∙ first)
        ∙ kept.0)
  ]

  -- The tick that comes after a gap in which the machine slept, and the next one, leave the samples
  -- as they are, provided that the next tick is not due for retention.
  pub tick-gap :
      (r q : Reading) (s : Loop)
      → is_gap f j cfg speed r s ≡ true
      → ltb_ℤ (pos six_hours) (pos q.mono -ℤ s.last_retain) ≡ false
      → (tick f j cfg speed q (tick f j cfg speed r s)).db.samples ≡ s.db.samples
  tick-gap r q s gap early =
      tick-first q (tick f j cfg speed r s) (ap (λ t. t.prev) (slept r s gap))
        (rw (ap (λ t. t.last_retain) (slept r s gap)) early)
      ∙ ap (λ t. t.db.samples) (slept r s gap)
