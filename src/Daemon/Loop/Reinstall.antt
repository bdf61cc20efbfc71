-- ===== src/Daemon/Loop/Reinstall.antt =====
-- When the loop of src/daemon.rs installs the table of nftables anew.
use netmeter.Prelude.{
  ℕ, ◌+◌, ◌≡◌, refl, ◌∙◌, ap, ap₂, Bool, false, ◌&&◌, List, [], ◌∷◌, Option, none, Text, length,
  ltb, leb, nat_beq, if◌then◌else◌, Bool-cases, inl, inr, arith,
}
use netmeter.Prelude.Float.{Float}
use netmeter.Config.{Config}
use netmeter.Capture.Ruleset.{render_ruleset}
use netmeter.Db.Time.{Calendar}
use netmeter.Daemon.Loop.{
  Loop, Reading, tick, is_gap, sample, roll_due, retain_due, count_missing, publish_nft, is_some,
  differs,
}
use netmeter.Daemon.Loop.Laws.{prepared}

publish-missing :
    (b : Bool) (s : Loop)
    → ((publish_nft b s).nft_missing_ticks ≡ s.nft_missing_ticks)
      × ((publish_nft b s).rulesets ≡ s.rulesets)
unfolding publish_nft
publish-missing b s = elim (Bool-cases (differs b s.nft_ok_reported)) [
  | inl new ↦ rw new (refl, refl)
  | inr old ↦ rw old (refl, refl)
]

-- The rulesets after `n` more readings without counters, while the table is gone.
abbrev pub reinstalled : List Text → ℕ → ℕ → List Text → List Text
reinstalled subnets missing n rulesets =
    if ltb missing 12 && leb 12 (missing + n) then render_ruleset subnets ∷ rulesets else rulesets

missing-counts :
    (subnets : List Text) (s : Loop)
    → ((count_missing subnets none false s).nft_missing_ticks ≡ s.nft_missing_ticks + 1)
      × ((count_missing subnets none false s).rulesets
          ≡ reinstalled subnets s.nft_missing_ticks 1 s.rulesets)
unfolding count_missing
missing-counts subnets s = elim (Bool-cases (nat_beq (s.nft_missing_ticks + 1) 12)) [
  | inl twelfth ↦ rw twelfth (refl, ground arith)
  | inr other ↦ rw other (refl, ground arith)
]

module _ (f : Float) (j : Calendar) (cfg : Config f.Real) (speed : Text → Option ℕ) where
  after_missing :
      (r : Reading) (s : Loop)
      → is_gap f j cfg speed r s ≡ false
      → ((tick f j cfg speed r s).nft_missing_ticks
          ≡ (prepared f j cfg speed r s).nft_missing_ticks)
        × ((tick f j cfg speed r s).rulesets ≡ (prepared f j cfg speed r s).rulesets)
  unfolding tick retain_due roll_due sample
  after_missing r s awake = rw awake (ground arith, ground arith)

  -- The turns in a row.
  abbrev pub turns : List Reading → Loop → Loop
  turns [] s = s
  turns (r ∷ rs) s = turns rs (tick f j cfg speed r s)

  -- Turns without a gap that find neither counters nor the table.
  unfoldable pub IsWithoutTable : List Reading → Loop → Type 0
  IsWithoutTable [] s = Unit
  IsWithoutTable (r ∷ rs) s =
      (is_gap f j cfg speed r s ≡ false)
      × (r.lan ≡ none)
      × (r.table_exists ≡ false)
      × IsWithoutTable rs (tick f j cfg speed r s)

  turn-missing :
      (r : Reading) (s : Loop)
      → is_gap f j cfg speed r s ≡ false
      → r.lan ≡ none
      → r.table_exists ≡ false
      → ((tick f j cfg speed r s).nft_missing_ticks ≡ s.nft_missing_ticks + 1)
        × ((tick f j cfg speed r s).rulesets
            ≡ reinstalled cfg.lan_subnets s.nft_missing_ticks 1 s.rulesets)
  turn-missing r s awake lost gone =
      let timed : Loop = record s { last_tick = r.mono } in
      let same = publish-missing (is_some r.lan) timed in
      let counted = missing-counts cfg.lan_subnets (publish_nft (is_some r.lan) timed) in
      let after = after_missing r s awake in
      let here : prepared f j cfg speed r s
          ≡ count_missing cfg.lan_subnets none false (publish_nft (is_some r.lan) timed) =
        ap₂ (λ l b. count_missing cfg.lan_subnets l b (publish_nft (is_some r.lan) timed)) lost
          gone in
      (
        after.0 ∙ ap (λ t. t.nft_missing_ticks) here ∙ counted.0 ∙ ap (λ n. n + 1) same.0,
        after.1
            ∙ ap (λ t. t.rulesets) here
            ∙ counted.1
            ∙ ap₂ (λ n l. reinstalled cfg.lan_subnets n 1 l) same.0 same.1,
      )

  -- In a run of turns without a gap that find neither the counters nor the table of nftables, the
  -- table is installed anew exactly once, with the configured subnets, when the twelfth turn in a
  -- row without counters is among them, and not otherwise.
  pub turns-reinstalled :
      (rs : List Reading) (s : Loop)
      → IsWithoutTable rs s
      → (turns rs s).rulesets
        ≡ reinstalled cfg.lan_subnets s.nft_missing_ticks (length rs) s.rulesets
  unfolding IsWithoutTable
  turns-reinstalled [] s h = ground arith
  turns-reinstalled (r ∷ rs) s h =
      let now = turn-missing r s h.0 h.1 h.2 in
      turns-reinstalled rs (tick f j cfg speed r s) h.3
      ∙ ap₂ (λ n l. reinstalled cfg.lan_subnets n (length rs) l) now.0 now.1
      ∙ ground arith
