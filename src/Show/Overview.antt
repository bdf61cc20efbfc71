-- ===== src/Show/Overview.antt =====
-- What `cmd_today` and `cmd_status` of src/main.rs print.
use netmeter.Prelude.{
  ℕ, ◌++◌, Bool, true, false, List, [], ◌∷◌, Option, none, some, Text, codes, if◌then◌else◌,
}
use netmeter.Prelude.Int.{ℤ, pos, ◌+ℤ◌, ◌-ℤ◌, max_ℤ}
use netmeter.Prelude.Decimal.{print_nat}
use netmeter.Prelude.Float.{Float, Printing}
use netmeter.Config.{Config, tz_local}
use netmeter.Capture.Nft.{Json, field, stop, string, number}
use netmeter.Db.{Db, Traffic, no_traffic}
use netmeter.Db.Time.{Calendar}
use netmeter.Fmt.{fmt_bytes}
use netmeter.Show.Status.{today, nft_ok, discarded, wal_hint}
use netmeter.Show.Print.{Line, out, int_json, api_version}
use netmeter.Show.Reports.{no_data, install_hint, is_decimal}

-- The object of the day's sums.
unfoldable pub today_json : Traffic → Json
today_json v = Json.object (
    field (codes "api_version") api_version (
      field (codes "rx") (int_json v.rx) (
        field (codes "tx") (int_json v.tx) (
          field (codes "total") (int_json (v.rx +ℤ v.tx)) (
            field (codes "lan_rx") (int_json v.lan_rx) (
              field (codes "lan_tx") (int_json v.lan_tx) (
                field (codes "wan_rx") (int_json (max_ℤ (v.rx -ℤ v.lan_rx) (pos 0)))
                  (field (codes "wan_tx") (int_json (max_ℤ (v.tx -ℤ v.lan_tx) (pos 0))) stop))))))))

module _ (f : Float) (p : Printing f) (j : Calendar) where
  -- `cmd_today`; the database is none where it cannot be opened.
  unfoldable pub cmd_today : Config f.Real → ℤ → Bool → Option Db → List Line
  cmd_today cfg now true none = Line.json (today_json no_traffic) ∷ []
  cmd_today cfg now false none = no_data install_hint ∷ []
  cmd_today cfg now true (some db) = Line.json (today_json (today j db now (tz_local cfg))) ∷ []
  cmd_today cfg now false (some db) =
      let v = today j db now (tz_local cfg) in
      let dec = is_decimal cfg in
      out (
        codes "Today  ↓ "
        ++ fmt_bytes f p v.rx dec
        ++ codes "  ↑ "
        ++ fmt_bytes f p v.tx dec
        ++ codes "  total "
        ++ fmt_bytes f p (v.rx +ℤ v.tx) dec)
      ∷ []

-- What `cmd_status` finds besides the database: the version of the build, the sizes of the files,
-- the answer of nft and that of systemctl.
pub record Machine : Type 0 where
  pub version : Text
  pub db_path : Text
  pub db_size : ℕ
  pub wal_size : ℕ
  pub nft_direct : Bool
  pub daemon_alive : Bool

-- `cmd_status`.
unfoldable pub cmd_status : Machine → Bool → Option Db → List Line
cmd_status m true db =
    let ok = nft_ok m.nft_direct db in
    Line.json (
      Json.object (
        field (codes "api_version") api_version (
          field (codes "version") (string m.version) (
            field (codes "daemon_active") (Json.boolean m.daemon_alive) (
              field (codes "nft_split") (Json.boolean ok) (
                field (codes "lan_split")
                  (string (if ok then codes "available" else codes "unavailable (TOTAL-only)"))
                  (field (codes "db_path") (string m.db_path) (
                    field (codes "db_bytes") (number m.db_size) (
                      field (codes "wal_bytes") (number m.wal_size)
                        (field (codes "discarded_samples") (string (discarded db)) stop))))))))))
    ∷ []
cmd_status m false db =
    out (codes "netmeter " ++ m.version)
    ∷ out (
        codes "daemon:  "
        ++ (if m.daemon_alive
            then codes "active"
            else codes "inactive (run `netmeter daemon install`)"))
    ∷ out (
        codes "nft:     "
        ++ (if nft_ok m.nft_direct db
            then codes "split available (LAN/WAN/TOTAL)"
            else codes "unavailable → TOTAL-only"))
    ∷ out (
        codes "db:      "
        ++ m.db_path
        ++ codes " ("
        ++ print_nat m.db_size
        ++ codes " bytes, wal "
        ++ print_nat m.wal_size
        ++ codes " bytes)"
        ++ (if wal_hint m.wal_size
            then codes "  (checkpoint starvation — a long-lived reader is pinning the WAL)"
            else []))
    ∷ out (codes "discarded spike samples: " ++ discarded db)
    ∷ []
