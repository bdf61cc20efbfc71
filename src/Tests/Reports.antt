-- ===== src/Tests/Reports.antt =====
-- The theorems on the queries and reports of src/db.rs, src/main.rs and src/live.rs at concrete
-- inputs.
use netmeter.Prelude.{
  ◌∷◌, ◌≡◌, refl, false, ◌&&◌, [], Option, none, some, codes, lookup, pair_eq, int_eq, text_eq,
  arith,
}
use netmeter.Prelude.Int.{ℤ, pos, ◌+ℤ◌, leb_ℤ}
use netmeter.Db.{Db}
use netmeter.Db.Time.{Date, floor_day, floor_week}
use netmeter.Db.Window.{window_sum, used_bytes}
use netmeter.Db.Query.{query_range, in_range, table_of}
use netmeter.Db.Query.Laws.{sum_rows, sum_table, query_range-sum_rows}
use netmeter.Db.Query.{query_proc}
use netmeter.Db.Query.Top.{IsTop, query_proc-IsTop}
use netmeter.Show.{Period, bucket_samples, budget_used}
use netmeter.Show.Laws.{bucket_samples-week, budget_used-used_bytes}
use netmeter.Prelude.{true}
use netmeter.Show.Print.{Line}
use netmeter.Show.Overview.{Machine}
use netmeter.Cli.Command.{Commands}
use netmeter.Show.Status.{today, export_rows}
use netmeter.Show.Export.{export_rows-All}
use netmeter.Prelude.{All, ◌*◌}
use netmeter.Prelude.Int.{◌≤ℤ◌, ◌<ℤ◌}
use netmeter.Db.Time.{midnight}
use netmeter.Show.Totals.{today-window_sum}
use netmeter.Show.Import.{cmd_import, cmd_import_idem}
use netmeter.Capture.Nft.{Json, number, string, array, object, item, end, field, stop}
use netmeter.Live.{Live, opened, Key, on_key}
use netmeter.Live.Laws.{IsLive, Input, Reaches, begun, turned, turn, Reaches-IsLive}
use netmeter.Live.Session.{add_counts, counted, ticks, gains, ticks-gains}
use netmeter.Daemon.Sample.{Totals}
use netmeter.Prelude.{IsMap, amount_at, List}
use netmeter.Tests.Values.{
  tenths, even_calendar, even_weeks, eth0, settings, small_db, two_rows, date_of,
}

query_range-sum_rows_example :
    sum_rows (leb_ℤ (pos 150)) (query_range small_db (codes "samples") (pos 0) (pos 200) none)
    ≡ sum_table
        (λ ts. in_range (pos 0) (pos 200) ts && leb_ℤ (pos 150) ts)
        (table_of (codes "samples") small_db)
query_range-sum_rows_example =
    query_range-sum_rows small_db (codes "samples") (pos 0) (pos 200) (leb_ℤ (pos 150))

-- Two programs in one hour.
abbrev programs_db : Db
programs_db = record small_db {
  proc_hourly =
      ((pos 3600, codes "ssh"), (pos 10, pos 5))
      ∷ ((pos 3600, codes "curl"), (pos 900, pos 20))
      ∷ [];
}

query_proc-IsTop_example :
    IsTop programs_db.proc_hourly (pos 0) 1 (query_proc programs_db (pos 0) 1)
query_proc-IsTop_example = query_proc-IsTop programs_db (pos 0) 1

abbrev host : Machine
host = record {
  version = codes "0.1.0";
  db_path = codes "/var/lib/netmeter/netmeter.db";
  db_size = 4096;
  wal_size = 0;
  nft_direct = false;
  daemon_alive = true;
}

-- The commands that print no report.
abbrev silent : Commands (List Line)
silent = record {
  run_live = λ iface. [];
  run_show = λ period from iface json. [];
  run_top = λ by limit. [];
  run_status = λ json. [];
  run_today = λ json. [];
  run_config = λ op. [];
  run_export = λ from to format. [];
  run_import = λ path. [];
  run_completions = λ shell. [];
  run_manpage = [];
  run_daemon = λ op. [];
  run_top_apps = λ period limit json. [];
  run_top_proc = λ period. [];
  run_user_agent = λ once. [];
}

abbrev day_of : ℤ → ℤ
day_of ts = floor_day even_calendar ts false

bucket_samples-week_example :
    sum_rows (leb_ℤ (pos 100)) (bucket_samples even_calendar two_rows Period.week false)
    ≡ sum_rows (λ ts. leb_ℤ (pos 100) (floor_week even_calendar ts false)) two_rows
bucket_samples-week_example =
    bucket_samples-week even_calendar false even_weeks (leb_ℤ (pos 100)) two_rows

budget_used-used_bytes_example :
    budget_used (codes "wan") (pos 100_000) two_rows
    ≡ used_bytes (codes "wan") (sum_rows (leb_ℤ (pos 100_000)) two_rows)
budget_used-used_bytes_example =
    budget_used-used_bytes (codes "wan") (pos 100_000) two_rows
      ((omega arith, omega arith), ((omega arith, omega arith), tt))

today-window_sum_example :
    today even_calendar small_db (pos 500) false
    ≡ window_sum (floor_day even_calendar (pos 500) false) small_db.samples
unfolding ◌+ℤ◌
today-window_sum_example =
    today-window_sum even_calendar small_db (pos 500) false (refl, (refl, tt))

-- One day of vnstat's output.
abbrev vnstat_day : Json
vnstat_day = object (
    field (codes "date")
      (object (
        field (codes "year") (number 2024)
          (field (codes "month") (number 5) (field (codes "day") (number 9) stop))))
      (field (codes "rx") (number 7000) (field (codes "tx") (number 300) stop)))

abbrev vnstat : Json
vnstat = object (
    field (codes "interfaces")
      (array (
        item
          (object (
            field (codes "name") (string eth0) (
              field (codes "traffic")
                (object (field (codes "days") (array (item vnstat_day end)) stop)) stop)))
          end))
      stop)

abbrev any_date : ℤ → ℤ → ℤ → Option Date
any_date y m d = some (date_of 728_640)

cmd_import_idem_example :
    lookup
      (pos 100, eth0)
      (cmd_import even_calendar any_date settings vnstat
        (cmd_import even_calendar any_date settings vnstat []).0).0
    ≡ lookup (pos 100, eth0) (cmd_import even_calendar any_date settings vnstat []).0
cmd_import_idem_example = cmd_import_idem even_calendar any_date settings vnstat [] (pos 100, eth0)

-- The dashboard after one press of the key that shortens the interval.
abbrev hurried : Live
hurried = record (opened false []) { interval_ms = 750 }

hurried_reached : Reaches tenths even_calendar settings none false [] hurried
unfolding opened turn on_key
hurried_reached = turned (Input.pressed Key.faster) hurried begun refl

Reaches-IsLive_example : IsLive hurried
Reaches-IsLive_example =
    Reaches-IsLive tenths even_calendar settings none false [] hurried hurried_reached

-- Two readings of one interface.
abbrev rising : List Totals
rising = ((eth0, (10, 5)) ∷ []) ∷ ((eth0, (30, 5)) ∷ []) ∷ []

rising-IsMap : All IsMap rising
unfolding lookup
rising-IsMap = ((refl, tt), ((refl, tt), tt))

ticks-gains_example :
    amount_at eth0 (ticks tenths settings none rising (opened false ((eth0, (4, 4)) ∷ []))).session
    ≡ add_counts
        (amount_at eth0 (opened false ((eth0, (4, 4)) ∷ [])).session)
        (gains tenths settings none (opened false ((eth0, (4, 4)) ∷ [])).prev rising eth0)
ticks-gains_example =
    ticks-gains tenths settings none rising (opened false ((eth0, (4, 4)) ∷ [])) eth0 rising-IsMap

-- The first and the second day.
abbrev day_one : Date
day_one = date_of 0

abbrev day_two : Date
day_two = date_of 1

export_rows-All_example :
    All
      (λ r.
        (even_calendar.timestamp false (midnight day_one) +ℤ pos 86_400 ≤ℤ r.ts)
        × (r.ts <ℤ even_calendar.timestamp false (midnight day_two) +ℤ pos (2 * 86_400)))
      (export_rows even_calendar small_db day_one day_two false)
export_rows-All_example = export_rows-All even_calendar small_db day_one day_two false
