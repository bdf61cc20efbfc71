-- ===== src/ProcCap/Recorder/Launch/Laws.antt =====
-- No byte that the capture thread of src/proc_cap.rs has accounted is lost or handed over twice,
-- but for those that it has not folded when it dies.
use netmeter.Prelude.{
  ℕ, ◌+◌, ◌-◌, ◌≡◌, refl, ◌∙◌, ap, Bool, true, false, ◌||◌, List, [], ◌∷◌, Text, length,
  if◌then◌else◌, ltb, Bool-cases, inl, inr, arith,
}
use netmeter.ProcCap.Address.{IpAddr}
use netmeter.ProcCap.Owners.{Owners}
use netmeter.ProcCap.Account.{Cum, Pnet, Next, drain_one, max_drain_frames}
use netmeter.ProcCap.Account.Laws.{sum_cum, counted_all, frames, drain_one-sum_cum}
use netmeter.ProcCap.Recorder.{flush, drain_deltas, locals, drain_all}
use netmeter.ProcCap.Recorder.Laws.{sum_shared, sum_shared-fold_comms}
use netmeter.ProcCap.Recorder.Receivers.{Receivers, is_none_open, is_look_due, look_every, look}
use netmeter.ProcCap.Recorder.Launch.{
  Capture, Sight, flush_every, launch, ensure_running, snap_due, flush_due, capture, turn,
}

-- What happens: a turn of the thread, its end in a panic, a check that it runs, and a drain by the
-- daemon.
pub data Happening (R : Type 0) : Type 0 where
  turned : Sight R → Happening R
  died : Happening R
  checked : Sight R → Happening R
  taken : Happening R

-- A thread that panics leaves only the shared counters.
abbrev pub die : {R : Type 0} → Capture R → Capture R
die c = record c { is_running = false; recorder = record c.recorder { cum = []; receivers = [] } }

-- The bytes of a side that the daemon can still be handed.
abbrev pub stock : {R : Type 0} → Bool → Capture R → ℕ
stock s c = sum_shared s c.recorder.shared + sum_cum s c.recorder.cum

snap_due-recorder :
    {R : Type 0} (v : Sight R) (c : Capture R) → (snap_due v c).recorder ≡ c.recorder
unfolding snap_due
snap_due-recorder v c = elim (Bool-cases (ltb look_every (v.snapped_at - c.last_snap))) [
  | inl due ↦ rw due refl
  | inr early ↦ rw early refl
]

stock-flush_due :
    {R : Type 0} (s : Bool) (v : Sight R) (c : Capture R) → stock s (flush_due v c) ≡ stock s c
unfolding flush_due flush sum_cum
stock-flush_due s v c =
    elim (Bool-cases
      (ltb flush_every (v.flushed_at - c.last_flush) || ltb 5000 (length c.recorder.cum))) [
        | inl due ↦ rw due (omega (arith, sum_shared-fold_comms s c.recorder.cum c.recorder.shared))
        | inr early ↦ rw early refl
      ]

module _ {R : Type 0} (n : Pnet) (next : R → Next × R) where
  -- The bytes of the frames that a round over the receivers takes, until one of them fails.
  unfoldable pub received : Bool → Owners → List IpAddr → Receivers R → Cum → ℕ
  received s owners local [] cum = 0
  received s owners local ((name, (ips, rx)) ∷ rs) cum =
      let (dead, (rx', cum')) = drain_one n next owners local rx cum in
      counted_all n owners local s (frames n owners local next max_drain_frames rx)
      + (if dead then 0 else received s owners local rs cum')

  drain_all-received :
      (s : Bool) (owners : Owners) (local : List IpAddr) (rs : Receivers R) (cum : Cum)
      → sum_cum s (drain_all n next owners local rs cum).1.1
        ≡ sum_cum s cum + received s owners local rs cum
  unfolding drain_all received
  drain_all-received s owners local [] cum = omega arith
  drain_all-received s owners local ((name, (ips, rx)) ∷ rs) cum =
      elim (Bool-cases (drain_one n next owners local rx cum).0) [
        | inl dead ↦ rw dead (omega (arith, (drain_one-sum_cum n owners local next s rx cum).0))
        | inr alive ↦ rw alive (
            omega (
              arith,
              (drain_one-sum_cum n owners local next s rx cum).0,
              drain_all-received s owners local rs (drain_one n next owners local rx cum).1.1,
            ))
      ]

  -- The same for the receivers that the thread has.
  abbrev pub received_by : Bool → Capture R → ℕ
  received_by s c =
      received s c.owners (locals c.recorder.receivers) c.recorder.receivers c.recorder.cum

  stock-capture :
      (s : Bool) (v : Sight R) (c : Capture R)
      → stock s (capture n next v c) ≡ stock s c + received_by s c
  unfolding capture
  stock-capture s v c =
      let r = c.recorder in
      let drained = drain_all n next c.owners (locals r.receivers) r.receivers r.cum in
      let grown = drain_all-received s c.owners (locals r.receivers) r.receivers r.cum in
      elim (Bool-cases drained.0) [
        | inl dead ↦ rw dead (omega (arith, grown))
        | inr alive ↦ rw alive (
            let kept : Capture R = record c {
              recorder = record r { cum = drained.1.1; receivers = drained.1.0 };
            } in
            stock-flush_due s v (snap_due v kept)
            ∙ ap (λ q. sum_shared s q.shared + sum_cum s q.cum) (snap_due-recorder v kept)
            ∙ omega (arith, grown))
      ]

  -- The receivers that a turn drains: after the look at the interfaces, where one is due.
  abbrev pub looking : List Text → Sight R → Capture R → Capture R
  looking exclude v c =
      if is_look_due (v.opened_at - c.last_open) c.recorder.receivers
      then record c {
        recorder = record c.recorder {
          receivers = look v.channel exclude v.interfaces c.recorder.receivers;
        };
      }
      else c

  none_received :
      (s : Bool) (owners : Owners) (rs : Receivers R) (cum : Cum)
      → is_none_open rs ≡ true
      → received s owners (locals rs) rs cum ≡ 0
  unfolding received
  none_received s owners [] cum h = refl
  none_received s owners (r ∷ rs) cum h = absurd cc

  stock-turn :
      (s : Bool) (exclude : List Text) (v : Sight R) (c : Capture R)
      → stock s (turn n next exclude v c) ≡ stock s c + received_by s (looking exclude v c)
  unfolding turn
  stock-turn s exclude v c =
      let r = c.recorder in
      let rs = look v.channel exclude v.interfaces r.receivers in
      elim (Bool-cases (is_look_due (v.opened_at - c.last_open) r.receivers)) [
        | inr early ↦ rw early (stock-capture s v c)
        | inl due ↦ rw due (elim (Bool-cases (is_none_open rs)) [
          | inl nothing ↦ rw nothing (omega (arith, none_received s c.owners rs r.cum nothing))
          | inr some_open ↦ rw some_open (
              stock-capture s v
                (record c { recorder = record r { receivers = rs }; last_open = v.opened_at }))
        ])
      ]

  module _ (exclude : List Text) where
    unfoldable pub happen : Happening R → Capture R → Capture R
    happen (Happening.turned v) c = if c.is_running then turn n next exclude v c else c
    happen Happening.died c = die c
    happen (Happening.checked v) c = ensure_running v c
    happen Happening.taken c = record c { recorder = (drain_deltas c.recorder).1 }

    -- What the daemon is handed.
    abbrev pub handed_in : Bool → Happening R → Capture R → ℕ
    handed_in s (Happening.turned v) c = 0
    handed_in s Happening.died c = 0
    handed_in s (Happening.checked v) c = 0
    handed_in s Happening.taken c = sum_shared s (drain_deltas c.recorder).0

    -- What is taken from the receivers.
    abbrev pub received_in : Bool → Happening R → Capture R → ℕ
    received_in s (Happening.turned v) c =
        if c.is_running then received_by s (looking exclude v c) else 0
    received_in s Happening.died c = 0
    received_in s (Happening.checked v) c = 0
    received_in s Happening.taken c = 0

    -- What is lost: the scratch counters of a thread that dies.
    abbrev pub lost_in : Bool → Happening R → Capture R → ℕ
    lost_in s (Happening.turned v) c = 0
    lost_in s Happening.died c = sum_cum s c.recorder.cum
    lost_in s (Happening.checked v) c = if c.is_running then 0 else sum_cum s c.recorder.cum
    lost_in s Happening.taken c = 0

    stock_turned :
        (s : Bool) (v : Sight R) (c : Capture R) (runs : Bool)
        → 0 + stock s (if runs then turn n next exclude v c else c) + 0
          ≡ stock s c + (if runs then received_by s (looking exclude v c) else 0)
    stock_turned s v c true = omega (arith, stock-turn s exclude v c)
    stock_turned s v c false = omega arith

    stock_checked :
        (s : Bool) (v : Sight R) (c : Capture R) (runs : Bool)
        → 0
            + stock s (if runs then c else launch v c.recorder.shared)
            + (if runs then 0 else sum_cum s c.recorder.cum)
          ≡ stock s c + 0
    unfolding launch sum_cum
    stock_checked s v c true = omega arith
    stock_checked s v c false = omega arith

    pub stock-happen :
        (s : Bool) (h : Happening R) (c : Capture R)
        → handed_in s h c + stock s (happen h c) + lost_in s h c ≡ stock s c + received_in s h c
    unfolding happen ensure_running drain_deltas sum_cum sum_shared
    stock-happen s (Happening.turned v) c = stock_turned s v c c.is_running
    stock-happen s Happening.died c = omega arith
    stock-happen s (Happening.checked v) c = stock_checked s v c c.is_running
    stock-happen s Happening.taken c = omega arith
