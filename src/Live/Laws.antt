-- ===== src/Live/Laws.antt =====
-- What the dashboard of src/live.rs keeps between any two turns.
use netmeter.Prelude.{
  ℕ, ◌+◌, ◌-◌, ◌≤◌, ◌%◌, ◌≡◌, refl, subst, Bool, List, [], ◌∷◌, ◌++◌, Option, none, some, length,
  drop, length-append, arith, nat_beq, min, max, zero, suc, inl, inr, Bool-cases,
}
use mathlib.Core.Option.{some-injective}
use netmeter.Prelude.Int.{ℤ}
use netmeter.Prelude.Float.{Float}
use netmeter.Prelude.{Text}
use netmeter.Config.{Config}
use netmeter.Db.{Db}
use netmeter.Db.Time.{Calendar}
use netmeter.Daemon.Sample.{Totals}
use netmeter.Live.{Live, Key, on_key, opened, push_hist, live_tick, refresh, sub_u64}

-- The refresh interval is between a quarter of a second and five seconds, and both histories hold
-- two minutes' worth of values.
pub record IsLive (s : Live) : Type 0 where
  pub slow_enough : 250 ≤ s.interval_ms
  pub fast_enough : s.interval_ms ≤ 5000
  pub downs : length s.hist_down ≡ 120
  pub ups : length s.hist_up ≡ 120

length-drop : (n : ℕ) (xs : List ℕ) → length (drop n xs) ≡ length xs - n
length-drop zero xs = omega arith
length-drop (suc n) [] = omega arith
length-drop (suc n) (x ∷ xs) = omega (arith, length-drop n xs)

length-push_hist :
    (over n : ℕ) (xs : List ℕ) → length xs ≡ 120 → over ≡ 1 → length (push_hist over n xs) ≡ 120
unfolding push_hist
length-push_hist over n xs h one =
    omega (arith, h, one, length-append xs (n ∷ []), length-drop over (xs ++ n ∷ []))

faster_bounds :
    (n : ℕ)
    → 250 ≤ n
    → n ≤ 5000
    → (250 ≤ max (sub_u64 n 250) 250) × (max (sub_u64 n 250) 250 ≤ 5000)
faster_bounds n a b = (omega arith, omega arith)

slower_bounds : (n : ℕ) → 250 ≤ n → (250 ≤ min (n + 250) 5000) × (min (n + 250) 5000 ≤ 5000)
slower_bounds n a = (omega arith, omega arith)

-- What a turn of the loop reads: a key, or the counters, the clock and the database.
pub data Input : Type 0 where
  pressed : Key → Input
  ticked : Totals → ℤ → Option Db → Input

module _ (f : Float) (j : Calendar) (cfg : Config f.Real) (only : Option Text) where
  -- One turn; none where the loop has ended.
  unfoldable pub turn : Input → Live → Option Live
  turn (Input.pressed k) s = on_key k s
  turn (Input.ticked cur now db) s = some (refresh f j cfg now db (live_tick f cfg only cur s).1)

  -- The turns that lead from the opened dashboard to a state.
  pub data Reaches (decimal : Bool) (prev : Totals) : Live → Type 0 where
    begun : Reaches decimal prev (opened decimal prev)
    turned :
        {s : Live} (i : Input) (t : Live)
        → Reaches decimal prev s
        → turn i s ≡ some t
        → Reaches decimal prev t

  refresh-IsLive :
      (now : ℤ) (db : Option Db) (s : Live) → IsLive s → IsLive (refresh f j cfg now db s)
  unfolding refresh
  refresh-IsLive now none s h = elim (Bool-cases (nat_beq (s.tick_n % 5) 1)) [
    | inl due ↦ rw due (record {
      slow_enough = h.slow_enough;
      fast_enough = h.fast_enough;
      downs = h.downs;
      ups = h.ups;
    })
    | inr early ↦ rw early h
  ]
  refresh-IsLive now (some db) s h = elim (Bool-cases (nat_beq (s.tick_n % 5) 1)) [
    | inl due ↦ rw due (record {
      slow_enough = h.slow_enough;
      fast_enough = h.fast_enough;
      downs = h.downs;
      ups = h.ups;
    })
    | inr early ↦ rw early h
  ]

  live_tick-IsLive : (cur : Totals) (s : Live) → IsLive s → IsLive (live_tick f cfg only cur s).1
  unfolding live_tick
  live_tick-IsLive cur s h = record {
    slow_enough = h.slow_enough;
    fast_enough = h.fast_enough;
    downs = length-push_hist _ _ s.hist_down h.downs (omega (arith, h.downs));
    ups = length-push_hist _ _ s.hist_up h.ups (omega (arith, h.downs));
  }

  on_key-IsLive : (k : Key) (s t : Live) → IsLive s → on_key k s ≡ some t → IsLive t
  unfolding on_key
  on_key-IsLive Key.quit s t h e = ground arith
  on_key-IsLive Key.units s t h e = subst IsLive (some-injective _ _ e) (record {
    slow_enough = h.slow_enough;
    fast_enough = h.fast_enough;
    downs = h.downs;
    ups = h.ups;
  })
  on_key-IsLive Key.faster s t h e =
      let b = faster_bounds s.interval_ms h.slow_enough h.fast_enough in
      subst IsLive (some-injective _ _ e)
        (record { slow_enough = b.0; fast_enough = b.1; downs = h.downs; ups = h.ups })
  on_key-IsLive Key.slower s t h e =
      let b = slower_bounds s.interval_ms h.slow_enough in
      subst IsLive (some-injective _ _ e)
        (record { slow_enough = b.0; fast_enough = b.1; downs = h.downs; ups = h.ups })
  on_key-IsLive Key.other_key s t h e = subst IsLive (some-injective _ _ e) h

  turn-IsLive : (i : Input) (s t : Live) → IsLive s → turn i s ≡ some t → IsLive t
  unfolding turn
  turn-IsLive (Input.pressed k) s t h e = on_key-IsLive k s t h e
  turn-IsLive (Input.ticked cur now db) s t h e =
      subst IsLive (some-injective _ _ e) (refresh-IsLive now db _ (live_tick-IsLive cur s h))

  -- In every state that the dashboard reaches from its start by keys and ticks, the interval is
  -- between 250 and 5000 ms and both histories hold 120 values.
  pub Reaches-IsLive :
      (decimal : Bool) (prev : Totals) (s : Live) → Reaches decimal prev s → IsLive s
  unfolding opened
  Reaches-IsLive decimal prev s begun = record {
    slow_enough = omega arith;
    fast_enough = omega arith;
    downs = refl;
    ups = refl;
  }
  Reaches-IsLive decimal prev s (turned i t r e) =
      turn-IsLive i _ t (Reaches-IsLive decimal prev _ r) e
