-- ===== src/Daemon/Sample.antt =====
-- The sampling part of the loop in `run` of src/daemon.rs: the deltas of the interfaces, the LAN
-- bytes shared out among them, and the rows that are written.
pub mod Laws
pub mod Written
pub mod Steps
use netmeter.Prelude.{
  ℕ, ◌+◌, Bool, true, false, not, ◌||◌, List, [], ◌∷◌, Option, none, some, ◌++◌, map, keep, lookup,
  insert, get_or, Map, Text, codes, if◌then◌else◌, ltb, text_eq, pair_eq, int_eq,
}
use netmeter.Prelude.Int.{ℤ, pos, ◌+ℤ◌, ltb_ℤ, min_ℤ, as_i64}
use netmeter.Prelude.Decimal.{parse_i64, print_int}
use netmeter.Prelude.Float.{Float}
use netmeter.Config.{Config, excluded, forced_lan}
use netmeter.Db.{Db, Table, Traffic}
use netmeter.Daemon.Delta.{delta}
use netmeter.Daemon.Rate.{max_bytes_per_tick}

-- Received and sent bytes of each interface, as the kernel counts them.
abbrev pub Totals : Type 0
Totals = Map Text (ℕ × ℕ)

-- `PerIf`: the bytes of one interface in this interval.
pub record PerIf : Type 0 where
  pub iface : Text
  pub rx : ℤ
  pub tx : ℤ

-- The LAN bytes of the interval, where both readings of the counters are there.
unfoldable pub lan_delta : Option (ℕ × ℕ) → Option (ℕ × ℕ) → ℕ → ℤ × ℤ
lan_delta (some (pr, pt)) (some (nr, nt)) maxb =
    (as_i64 (delta pr nr maxb).0, as_i64 (delta pt nt maxb).0)
lan_delta (some p) none maxb = (pos 0, pos 0)
lan_delta none now maxb = (pos 0, pos 0)

-- What one interface with an earlier reading adds: the number of discarded spikes and its row.
unfoldable pub measure : Text → ℕ × ℕ → ℕ × ℕ → ℕ → ℕ × List PerIf
measure iface (orx, otx) (rx, tx) maxb =
    let (drx, dx1) = delta orx rx maxb in
    let (dtx, dx2) = delta otx tx maxb in
    (
      (if dx1 || dx2 then 1 else 0),
      (if ltb 0 drx || ltb 0 dtx
          then record { iface = iface; rx = as_i64 drx; tx = as_i64 dtx } ∷ []
          else []),
    )

abbrev pub sum_rx : List PerIf → ℤ
sum_rx [] = pos 0
sum_rx (p ∷ ps) = p.rx +ℤ sum_rx ps

abbrev pub sum_tx : List PerIf → ℤ
sum_tx [] = pos 0
sum_tx (p ∷ ps) = p.tx +ℤ sum_tx ps

abbrev pub both_parts : ℕ × List PerIf → ℕ × List PerIf → ℕ × List PerIf
both_parts (d, p) (ds, ps) = (d + ds, p ++ ps)

module _ (f : Float) (cfg : Config f.Real) (speed : Text → Option ℕ) where
  -- An interface that is excluded, or seen for the first time, adds nothing.
  unfoldable pub measure_iface : Totals → Text → ℕ × ℕ → ℕ × List PerIf
  measure_iface prev iface now = if excluded cfg iface then (0, []) else elim (lookup iface prev) [
    | none ↦ (0, [])
    | some old ↦ measure iface old now (max_bytes_per_tick f cfg speed iface)
  ]

  -- `for (iface, (rx, tx)) in &totals`: the discarded spikes and the rows.
  unfoldable pub measure_all : Totals → Totals → ℕ × List PerIf
  measure_all prev [] = (0, [])
  measure_all prev ((iface, now) ∷ totals) =
      both_parts (measure_iface prev iface now) (measure_all prev totals)

module _ (f : Float) where
  -- `lan as f64 * (part as f64 / tot as f64)`, and nothing where the total is not positive.
  unfoldable pub pro_rate : ℤ → ℤ → ℤ → ℤ
  pro_rate lan part tot =
      f.trunc (
        f.mul (f.of lan) (if ltb_ℤ (pos 0) tot then f.div (f.of part) (f.of tot) else f.of (pos 0)))

module _ (f : Float) (cfg : Config f.Real) where
  -- The new baseline: the readings of the interfaces that are not excluded.
  unfoldable pub rebaseline : Totals → Totals
  rebaseline totals = keep (λ t. not (excluded cfg t.0)) totals

  -- The LAN bytes of one row, before they are held to the row's own bytes.
  unfoldable pub lan_share : ℤ × ℤ → ℤ × ℤ → PerIf → ℤ × ℤ
  lan_share lan tot p =
      if forced_lan cfg p.iface
      then (p.rx, p.tx)
      else if ltb_ℤ (pos 0) tot.0 || ltb_ℤ (pos 0) tot.1
      then (pro_rate f lan.0 p.rx tot.0, pro_rate f lan.1 p.tx tot.1)
      else (pos 0, pos 0)

  -- The row of `samples` for one interface.
  unfoldable pub sample_of : ℤ × ℤ → ℤ × ℤ → PerIf → Traffic
  sample_of lan tot p =
      let (lrx, ltx) = lan_share lan tot p in
      record { rx = p.rx; tx = p.tx; lan_rx = min_ℤ lrx p.rx; lan_tx = min_ℤ ltx p.tx }

  -- The upserts, which replace a row of the same time and interface.
  unfoldable pub write_samples : ℤ → ℤ × ℤ → ℤ × ℤ → List PerIf → Table → Table
  write_samples now lan tot [] t = t
  write_samples now lan tot (p ∷ ps) t =
      write_samples now lan tot ps (insert (now, p.iface) (sample_of lan tot p) t)

-- The value of `meta.discarded_samples` as a number.
abbrev pub discarded_before : Option Text → ℤ
discarded_before none = pos 0
discarded_before (some v) = get_or (parse_i64 v) (pos 0)

-- `meta.discarded_samples` grows, where there was a discarded spike.
unfoldable pub count_discarded : ℕ → Db → Db
count_discarded discarded db =
    let old = discarded_before (lookup (codes "discarded_samples") db.meta) in
    if ltb 0 discarded
    then record db {
      meta = insert (codes "discarded_samples") (print_int (old +ℤ as_i64 discarded)) db.meta;
    }
    else db
