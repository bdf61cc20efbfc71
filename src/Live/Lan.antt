-- ===== src/Live/Lan.antt =====
-- The LAN rate in the header of the dashboard of src/live.rs.
use netmeter.Prelude.{ℕ, ◌-◌, ◌++◌, Bool, Option, none, some, Text, codes, if◌then◌else◌}
use netmeter.Prelude.Float.{Float, Printing}
use netmeter.Live.Texts.{fmt_rate}

-- `prev_lan` and `lan_rate`.
pub record LanRate : Type 0 where
  pub prev_lan : Option (ℕ × ℕ)
  pub lan_rate : Text

-- Before the first turn.
unfoldable pub unread : Option (ℕ × ℕ) → LanRate
unread lan = record { prev_lan = lan; lan_rate = codes "…" }

module _ (f : Float) (p : Printing f) where
  -- The text for the counters of the last turn and of this one; where either is missing, it stays
  -- while the table of nftables exists.
  abbrev pub lan_text : f.Real → Bool → Bool → Text → Option (ℕ × ℕ) → Option (ℕ × ℕ) → Text
  lan_text per_sec decimal table_exists old (some (pr, pt)) (some (nr, nt)) =
      codes "+"
      ++ fmt_rate f p (nr - pr) per_sec decimal
      ++ codes "/+"
      ++ fmt_rate f p (nt - pt) per_sec decimal
      ++ codes "B"
  lan_text per_sec decimal table_exists old (some prev) none =
      if table_exists then old else codes "n/a TOTAL-only"
  lan_text per_sec decimal table_exists old none now =
      if table_exists then old else codes "n/a TOTAL-only"

  -- Lines 81 to 91.
  unfoldable pub read_lan : f.Real → Bool → Bool → Option (ℕ × ℕ) → LanRate → LanRate
  read_lan per_sec decimal table_exists now s = record {
    prev_lan = now;
    lan_rate = lan_text per_sec decimal table_exists s.lan_rate s.prev_lan now;
  }
