-- ===== src/Live/Session.antt =====
-- What the session totals of src/live.rs count over the turns of the dashboard.
use netmeter.Prelude.{
  ℕ, ◌+◌, ◌-◌, ◌≡◌, refl, sym, ◌∙◌, ap, false, List, [], ◌∷◌, Option, none, some, Text, lookup,
  IsMap, if◌then◌else◌, ◌==◌, text_eq, text_beq_iff, inl, inr, Bool-cases, arith, All, Amount,
  add-nil, beq_refl, amount_at, amount_at-add_at, add_at, subst, ap₂,
}
use netmeter.Prelude.Float.{Float}
use netmeter.Config.{Config}
use netmeter.Daemon.Sample.{Totals}
use netmeter.Live.{Live, IfRow, is_shown, show_iface, measure_rows, live_tick}

abbrev pub add_counts : ℕ × ℕ → ℕ × ℕ → ℕ × ℕ
add_counts a b = (a.0 + b.0, a.1 + b.1)

pub add_counts_comm : (a b : ℕ × ℕ) → add_counts a b ≡ add_counts b a
add_counts_comm a b =
    let p : a.0 + b.0 ≡ b.0 + a.0 = omega arith in
    let q : a.1 + b.1 ≡ b.1 + a.1 = omega arith in λ i. (p i, q i)

pub add_counts_assoc :
    (a b c : ℕ × ℕ) → add_counts (add_counts a b) c ≡ add_counts a (add_counts b c)
add_counts_assoc a b c =
    let p : a.0 + b.0 + c.0 ≡ a.0 + (b.0 + c.0) = omega arith in
    let q : a.1 + b.1 + c.1 ≡ a.1 + (b.1 + c.1) = omega arith in λ i. (p i, q i)

pub no_counts-add : (a : ℕ × ℕ) → add_counts (0, 0) a ≡ a
no_counts-add a =
    let p : 0 + a.0 ≡ a.0 = omega arith in let q : 0 + a.1 ≡ a.1 = omega arith in λ i. (p i, q i)

instance abbrev pub counted : Amount (ℕ × ℕ)
counted = record {
  nil = (0, 0);
  add = add_counts;
  add_comm = add_counts_comm;
  add_assoc = add_counts_assoc;
  nil-add = no_counts-add;
}

abbrev pub risen : Option (ℕ × ℕ) → Option (ℕ × ℕ) → ℕ × ℕ
risen none old = (0, 0)
risen (some now) none = (0, 0)
risen (some (rx, tx)) (some (orx, otx)) = (rx - orx, tx - otx)

-- By how much the counters of an interface have risen between two readings, where it is shown.
abbrev pub gain : {R : Type 0} → Config R → Option Text → Totals → Totals → Text → ℕ × ℕ
gain cfg only prev cur name =
    if is_shown cfg only name then risen (lookup name cur) (lookup name prev) else (0, 0)

module _ (f : Float) (cfg : Config f.Real) (only : Option Text) where
  show_iface_self :
      (ms : ℕ) (name : Text) (now : ℕ × ℕ) (old : Option (ℕ × ℕ)) (acc : List IfRow × Totals)
      → amount_at name (show_iface f cfg only ms name now old acc).1
        ≡ add_counts (amount_at name acc.1) (risen (some now) old)
  unfolding add_at
  show_iface_self ms name now none acc = sym (add-nil (amount_at name acc.1))
  show_iface_self ms name (rx, tx) (some (orx, otx)) (rows, session) =
      amount_at-add_at name name (rx - orx, tx - otx) session ∙ (rw (beq_refl name) refl)

  show_iface-other :
      (ms : ℕ) (iface name : Text) (now : ℕ × ℕ) (old : Option (ℕ × ℕ)) (acc : List IfRow × Totals)
      → (iface == name) ≡ false
      → amount_at name (show_iface f cfg only ms iface now old acc).1 ≡ amount_at name acc.1
  unfolding add_at
  show_iface-other ms iface name now none acc h = refl
  show_iface-other ms iface name (rx, tx) (some (orx, otx)) (rows, session) h =
      amount_at-add_at iface name (rx - orx, tx - otx) session ∙ rw h refl

  -- One turn of the loop over the interfaces.
  abbrev shown_iface : ℕ → Text → ℕ × ℕ → Option (ℕ × ℕ) → List IfRow × Totals → List IfRow × Totals
  shown_iface ms iface now old acc =
      if is_shown cfg only iface then show_iface f cfg only ms iface now old acc else acc

  shown_iface_self :
      (ms : ℕ) (name : Text) (now : ℕ × ℕ) (old : Option (ℕ × ℕ)) (acc : List IfRow × Totals)
      → amount_at name (shown_iface ms name now old acc).1
        ≡ add_counts
            (amount_at name acc.1)
            (if is_shown cfg only name then risen (some now) old else (0, 0))
  shown_iface_self ms name now old acc = elim (Bool-cases (is_shown cfg only name)) [
    | inl shown ↦ rw shown (show_iface_self ms name now old acc)
    | inr hidden ↦ rw hidden (sym (add-nil (amount_at name acc.1)))
  ]

  shown_iface-other :
      (ms : ℕ) (iface name : Text) (now : ℕ × ℕ) (old : Option (ℕ × ℕ)) (acc : List IfRow × Totals)
      → (iface == name) ≡ false
      → amount_at name (shown_iface ms iface now old acc).1 ≡ amount_at name acc.1
  shown_iface-other ms iface name now old acc h = elim (Bool-cases (is_shown cfg only iface)) [
    | inl shown ↦ rw shown (show_iface-other ms iface name now old acc h)
    | inr hidden ↦ rw hidden refl
  ]

  gain-none :
      (prev cur : Totals) (name : Text)
      → lookup name cur ≡ none
      → gain cfg only prev cur name ≡ (0, 0)
  gain-none prev cur name h = elim (Bool-cases (is_shown cfg only name)) [
    | inl shown ↦ rw (shown, h) refl
    | inr hidden ↦ rw hidden refl
  ]

  gain-first :
      (prev cur : Totals) (name : Text) (now : ℕ × ℕ)
      → gain cfg only prev ((name, now) ∷ cur) name
        ≡ (if is_shown cfg only name then risen (some now) (lookup name prev) else (0, 0))
  unfolding lookup
  gain-first prev cur name now = rw (beq_refl name) refl

  gain-later :
      (prev cur : Totals) (iface name : Text) (now : ℕ × ℕ)
      → (iface == name) ≡ false
      → gain cfg only prev ((iface, now) ∷ cur) name ≡ gain cfg only prev cur name
  unfolding lookup
  gain-later prev cur iface name now h = rw h refl

  measure_rows-gain :
      (ms : ℕ) (prev cur : Totals) (acc : List IfRow × Totals) (name : Text)
      → IsMap cur
      → amount_at name (measure_rows f cfg only ms prev cur acc).1
        ≡ add_counts (amount_at name acc.1) (gain cfg only prev cur name)
  unfolding measure_rows lookup
  measure_rows-gain ms prev [] acc name h = elim (Bool-cases (is_shown cfg only name)) [
    | inl shown ↦ rw shown (sym (add-nil (amount_at name acc.1)))
    | inr hidden ↦ rw hidden (sym (add-nil (amount_at name acc.1)))
  ]
  measure_rows-gain ms prev ((iface, now) ∷ cur) acc name h = elim (Bool-cases (iface == name)) [
    | inl same ↦
        let is_name : iface ≡ name = (text_beq_iff iface name).0 same in
        let next = shown_iface ms iface now (lookup iface prev) acc in
        subst
          (λ n.
            amount_at n (measure_rows f cfg only ms prev cur next).1
            ≡ add_counts (amount_at n acc.1) (gain cfg only prev ((iface, now) ∷ cur) n))
          is_name
          (measure_rows-gain ms prev cur next iface h.1
            ∙ ap (add_counts (amount_at iface next.1)) (gain-none prev cur iface h.0)
            ∙ add-nil (amount_at iface next.1)
            ∙ shown_iface_self ms iface now (lookup iface prev) acc
            ∙ ap (add_counts (amount_at iface acc.1)) (sym (gain-first prev cur iface now)))
    | inr differs ↦
        measure_rows-gain ms prev cur (shown_iface ms iface now (lookup iface prev) acc) name h.1
        ∙ ap₂ add_counts (shown_iface-other ms iface name now (lookup iface prev) acc differs)
            (sym (gain-later prev cur iface name now differs))
  ]

  -- The turns of one session, each with what it reads.
  unfoldable pub ticks : List Totals → Live → Live
  ticks [] s = s
  ticks (cur ∷ later) s = ticks later (live_tick f cfg only cur s).1

  -- By how much an interface's counters have risen from each reading to the next.
  unfoldable pub gains : Totals → List Totals → Text → ℕ × ℕ
  gains prev [] name = (0, 0)
  gains prev (cur ∷ later) name = add_counts (gain cfg only prev cur name) (gains cur later name)

  -- Over any turns in whose readings no interface stands twice, the session's total of an interface
  -- grows by exactly what its counters have risen from each reading to the next, 0 where a counter
  -- fell or has no earlier reading, and stays as it is where the interface is not shown.
  pub ticks-gains :
      (readings : List Totals) (s : Live) (name : Text)
      → All IsMap readings
      → amount_at name (ticks readings s).session
        ≡ add_counts (amount_at name s.session) (gains s.prev readings name)
  unfolding ticks gains live_tick
  ticks-gains [] s name h = sym (add-nil (amount_at name s.session))
  ticks-gains (cur ∷ later) s name h =
      ticks-gains later (live_tick f cfg only cur s).1 name h.1
      ∙ ap (λ a. add_counts a (gains cur later name))
          (measure_rows-gain s.interval_ms s.prev cur ([], s.session) name h.0)
      ∙ add_counts_assoc _ _ _
