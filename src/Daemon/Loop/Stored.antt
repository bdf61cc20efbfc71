-- ===== src/Daemon/Loop/Stored.antt =====
-- From the frames that the capture thread of src/proc_cap.rs takes to the rows of proc_hourly that
-- the loop of src/daemon.rs writes: no byte is lost on the way but by a crash of the thread.
use netmeter.Prelude.{
  ℕ, ◌+◌, ◌≡◌, refl, sym, ◌∙◌, ap, Bool, true, false, ◌||◌, List, [], ◌∷◌, Map, Text, upsert,
  add_at, All, if◌then◌else◌, ◌==◌, text_eq, pair_eq, int_eq, arith, inl, inr, Bool-cases,
}
use netmeter.Prelude.Int.{ℤ, pos, ◌+ℤ◌, +ℤ_assoc, ltb_ℤ, int_laws}
use netmeter.Db.Query.{bytes_amount, add_bytes}
use netmeter.ProcCap.Account.{Pnet, Next}
use netmeter.ProcCap.Account.Laws.{side}
use netmeter.ProcCap.Recorder.{Shared, drain_deltas}
use netmeter.ProcCap.Recorder.Laws.{sum_shared}
use netmeter.ProcCap.Recorder.Launch.{Capture, Sight, ensure_running}
use netmeter.ProcCap.Recorder.Launch.Laws.{
  Happening, happen, lost_in, received_in, stock, stock-happen,
}
use netmeter.Daemon.Loop.{record_apps}
use netmeter.Daemon.Loop.Programs.{IsCount, as_i64-small, put_app}

abbrev side_ℤ : Bool → ℤ × ℤ → ℤ
side_ℤ up (rx, tx) = if up then tx else rx

-- The bytes of one side that a table of programs holds.
unfoldable pub stored : Bool → Map (ℤ × Text) (ℤ × ℤ) → ℤ
stored s [] = pos 0
stored s ((k, b) ∷ t) = side_ℤ s b +ℤ stored s t

side_ℤ-add_bytes : (s : Bool) (a b : ℤ × ℤ) → side_ℤ s (add_bytes a b) ≡ side_ℤ s a +ℤ side_ℤ s b
unfolding add_bytes
side_ℤ-add_bytes true a b = refl
side_ℤ-add_bytes false a b = refl

swap_add : (a b c : ℤ) → a +ℤ b +ℤ c ≡ a +ℤ c +ℤ b
swap_add a b c = omega int_laws

add_pos : (a : ℤ) (m n : ℕ) → a +ℤ pos m +ℤ pos n ≡ a +ℤ pos (m + n)
add_pos a m n = omega int_laws

add_nothing : (a : ℤ) → a ≡ a +ℤ pos 0
add_nothing a = omega int_laws

stored-add_at :
    (s : Bool) (k : ℤ × Text) (b : ℤ × ℤ) (t : Map (ℤ × Text) (ℤ × ℤ))
    → stored s (add_at k b t) ≡ stored s t +ℤ side_ℤ s b
unfolding stored add_at upsert
stored-add_at s k b [] = omega int_laws
stored-add_at s k b ((i, e) ∷ t) = elim (Bool-cases (i == k)) [
  | inl same ↦ rw same (
      ap (λ x. x +ℤ stored s t) (side_ℤ-add_bytes s e b)
      ∙ swap_add (side_ℤ s e) (side_ℤ s b) (stored s t))
  | inr other ↦ rw other (
      ap (λ x. side_ℤ s e +ℤ x) (stored-add_at s k b t)
      ∙ sym (+ℤ_assoc (side_ℤ s e) (stored s t) (side_ℤ s b)))
]

side_ℤ-pos : (s : Bool) (b : ℕ × ℕ) → side_ℤ s (pos b.0, pos b.1) ≡ pos (side s b)
side_ℤ-pos true b = refl
side_ℤ-pos false b = refl

zero_side : (s : Bool) (rx tx : ℕ) → rx ≡ 0 → tx ≡ 0 → side s (rx, tx) ≡ 0
zero_side true rx tx p q = q
zero_side false rx tx p q = p

stored-put_app :
    (s : Bool) (k : ℤ × Text) (b : ℕ × ℕ) (t : Map (ℤ × Text) (ℤ × ℤ))
    → IsCount b
    → stored s (put_app k b t) ≡ stored s t +ℤ pos (side s b)
stored-put_app s k (rx, tx) t c =
    rw (as_i64-small rx c.0, as_i64-small tx c.1)
      (elim (Bool-cases (ltb_ℤ (pos 0) (pos rx) || ltb_ℤ (pos 0) (pos tx))) [
        | inl any_bytes ↦ rw any_bytes (
            stored-add_at s k (pos rx, pos tx) t
            ∙ ap (λ n. stored s t +ℤ n) (side_ℤ-pos s (rx, tx)))
        | inr no_bytes ↦
            let zero_rx : rx ≡ 0 = ground arith in
            let zero_tx : tx ≡ 0 = ground arith in
            rw no_bytes (
              add_nothing (stored s t)
              ∙ ap (λ n. stored s t +ℤ pos n) (sym (zero_side s rx tx zero_rx zero_tx)))
      ])

stored-record_apps :
    (s : Bool) (hour : ℤ) (cur : Shared) (t : Map (ℤ × Text) (ℤ × ℤ))
    → All (λ e. IsCount e.1) cur
    → stored s (record_apps hour cur t) ≡ stored s t +ℤ pos (sum_shared s cur)
unfolding record_apps sum_shared
stored-record_apps s hour [] t h = omega int_laws
stored-record_apps s hour ((comm, b) ∷ cur) t h =
    stored-record_apps s hour cur (put_app (hour, comm) b t) h.1
    ∙ ap (λ x. x +ℤ pos (sum_shared s cur)) (stored-put_app s (hour, comm) b t h.0)
    ∙ add_pos (stored s t) (side s b) (sum_shared s cur)

-- The sums of a first step and of those that follow it.
add_lost :
    (last mid first : ℤ)
    (stock_last lost_later lost_now stock_mid taken_later stock_first taken_now : ℕ)
    → last +ℤ pos (stock_last + lost_later) ≡ mid +ℤ pos (stock_mid + taken_later)
    → mid +ℤ pos (stock_mid + lost_now) ≡ first +ℤ pos (stock_first + taken_now)
    → last +ℤ pos (stock_last + (lost_now + lost_later))
      ≡ first +ℤ pos (stock_first + (taken_now + taken_later))
add_lost last mid first sl ll ln sm tl sf tn later now =
    split last (sl + ll) ln (sl + (ln + ll)) (omega arith)
    ∙ ap (λ x. x +ℤ pos ln) later
    ∙ sym (split mid (sm + tl) ln (sm + ln + tl) (omega arith))
    ∙ split mid (sm + ln) tl (sm + ln + tl) refl
    ∙ ap (λ x. x +ℤ pos tl) now
    ∙ sym (split first (sf + tn) tl (sf + (tn + tl)) (omega arith))
  where
    split : (a : ℤ) (m n k : ℕ) → k ≡ m + n → a +ℤ pos k ≡ a +ℤ pos m +ℤ pos n
    split a m n k e = ap (λ x. a +ℤ pos x) e ∙ sym (add_pos a m n)

-- A turn of the thread, its end in a panic, and a tick of the daemon in an hour, with what a thread
-- that the tick launches anew would read.
pub data Moment (R : Type 0) : Type 0 where
  captured : Sight R → Moment R
  crashed : Moment R
  ticked : Sight R → ℤ → Moment R

module _ {R : Type 0} (n : Pnet) (next : R → Next × R) (exclude : List Text) where
  -- The thread after a moment; what the daemon drains there; and the table.
  unfoldable pub thread_after : Moment R → Capture R → Capture R
  thread_after (Moment.captured v) c = happen n next exclude (Happening.turned v) c
  thread_after Moment.crashed c = happen n next exclude Happening.died c
  thread_after (Moment.ticked v hour) c =
      happen n next exclude Happening.taken (happen n next exclude (Happening.checked v) c)

  abbrev pub drained : Sight R → Capture R → Shared
  drained v c = (drain_deltas (ensure_running v c).recorder).0

  unfoldable pub rows_after : Moment R → Capture R → Map (ℤ × Text) (ℤ × ℤ) → Map (ℤ × Text) (ℤ × ℤ)
  rows_after (Moment.captured v) c t = t
  rows_after Moment.crashed c t = t
  rows_after (Moment.ticked v hour) c t = record_apps hour (drained v c) t

  abbrev pub taken_at : Bool → Moment R → Capture R → ℕ
  taken_at s (Moment.captured v) c = received_in n next exclude s (Happening.turned v) c
  taken_at s Moment.crashed c = 0
  taken_at s (Moment.ticked v hour) c = 0

  abbrev pub lost_at : Bool → Moment R → Capture R → ℕ
  lost_at s (Moment.captured v) c = 0
  lost_at s Moment.crashed c = lost_in n next exclude s Happening.died c
  lost_at s (Moment.ticked v hour) c = lost_in n next exclude s (Happening.checked v) c

  -- No drained counter has reached 2 ^ 63.
  abbrev pub IsSmall : Moment R → Capture R → Type 0
  IsSmall (Moment.captured v) c = Unit
  IsSmall Moment.crashed c = Unit
  IsSmall (Moment.ticked v hour) c = All (λ e. IsCount e.1) (drained v c)

  stored-rows_after :
      (s : Bool) (m : Moment R) (c : Capture R) (t : Map (ℤ × Text) (ℤ × ℤ))
      → IsSmall m c
      → stored s (rows_after m c t) +ℤ pos (stock s (thread_after m c) + lost_at s m c)
        ≡ stored s t +ℤ pos (stock s c + taken_at s m c)
  unfolding rows_after thread_after happen
  stored-rows_after s (Moment.captured v) c t h =
      ap (λ x. stored s t +ℤ pos x)
        (omega (arith, stock-happen n next exclude s (Happening.turned v) c))
  stored-rows_after s Moment.crashed c t h =
      ap (λ x. stored s t +ℤ pos x) (omega (arith, stock-happen n next exclude s Happening.died c))
  stored-rows_after s (Moment.ticked v hour) c t h =
      let checked = happen n next exclude (Happening.checked v) c in
      let rest =
        stock s (happen n next exclude Happening.taken checked)
        + lost_at s (Moment.ticked v hour) c in
      ap (λ x. x +ℤ pos rest) (stored-record_apps s hour (drained v c) t h)
      ∙ add_pos (stored s t) (sum_shared s (drained v c)) rest
      ∙ ap (λ x. stored s t +ℤ pos x)
          (omega (
            arith,
            stock-happen n next exclude s Happening.taken checked,
            stock-happen n next exclude s (Happening.checked v) c,
          ))

  -- The thread and the table after all moments.
  unfoldable pub rows_of :
      List (Moment R) → Capture R → Map (ℤ × Text) (ℤ × ℤ) → Map (ℤ × Text) (ℤ × ℤ)
  rows_of [] c t = t
  rows_of (m ∷ ms) c t = rows_of ms (thread_after m c) (rows_after m c t)

  unfoldable pub thread_of : List (Moment R) → Capture R → Capture R
  thread_of [] c = c
  thread_of (m ∷ ms) c = thread_of ms (thread_after m c)

  unfoldable pub over : (Moment R → Capture R → ℕ) → List (Moment R) → Capture R → ℕ
  over f [] c = 0
  over f (m ∷ ms) c = f m c + over f ms (thread_after m c)

  unfoldable pub AreSmall : List (Moment R) → Capture R → Type 0
  AreSmall [] c = Unit
  AreSmall (m ∷ ms) c = IsSmall m c × AreSmall ms (thread_after m c)

  -- However turns of the capture thread, its crashes and the daemon's ticks follow each other, if
  -- no counter that a tick drains has reached 2^63, the bytes that proc_hourly gained, those that
  -- are still shared or in the scratch counters, and those that a crash took with the scratch
  -- counters add up to what was shared and in the scratch counters before and the lengths of those
  -- frames that the turns took from the receivers and that hold an IP packet, received and sent
  -- apart.
  pub stored-rows_of :
      (s : Bool) (ms : List (Moment R)) (c : Capture R) (t : Map (ℤ × Text) (ℤ × ℤ))
      → AreSmall ms c
      → stored s (rows_of ms c t) +ℤ pos (stock s (thread_of ms c) + over (lost_at s) ms c)
        ≡ stored s t +ℤ pos (stock s c + over (taken_at s) ms c)
  unfolding rows_of thread_of over AreSmall
  stored-rows_of s [] c t h = refl
  stored-rows_of s (m ∷ ms) c t h =
      let c' = thread_after m c in
      let t' = rows_after m c t in
      let later = stored-rows_of s ms c' t' h.1 in
      let now = stored-rows_after s m c t h.0 in
      add_lost (stored s (rows_of ms c' t')) (stored s t') (stored s t) (stock s (thread_of ms c'))
        (over (lost_at s) ms c') (lost_at s m c) (stock s c') (over (taken_at s) ms c') (stock s c)
        (taken_at s m c) later now
