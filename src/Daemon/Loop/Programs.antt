-- ===== src/Daemon/Loop/Programs.antt =====
-- What the loop in src/daemon.rs records of each program.
use netmeter.Prelude.{
  ℕ, ◌≡◌, sym, ◌∙◌, [], ◌∷◌, Option, none, some, Map, lookup, Text, if◌then◌else◌, text_eq, pair_eq,
  int_eq, amount_at, amount_at-add_at, add_at, inl, inr, Bool-cases, IsMap, subst, text_beq_iff,
  ◌||◌, All, add-nil, ◌<◌, ◌^◌, ◌==◌, beq_refl, arith,
}
use netmeter.Prelude.Int.{ℤ, pos, as_i64, ltb_ℤ}
use netmeter.Db.Query.{bytes_amount, add_bytes}
use netmeter.Daemon.Loop.{record_apps}

-- The bytes of one program, as the columns hold them.
abbrev pub as_bytes : Option (ℕ × ℕ) → ℤ × ℤ
as_bytes none = (pos 0, pos 0)
as_bytes (some (rx, tx)) = (pos rx, pos tx)

abbrev pub IsCount : ℕ × ℕ → Type 0
IsCount (rx, tx) = (rx < 2 ^ 63) × (tx < 2 ^ 63)

pub as_i64-small : (n : ℕ) → n < 2 ^ 63 → as_i64 n ≡ pos n
unfolding as_i64
as_i64-small n h = ground arith

-- One program's counters.
abbrev pub put_app : ℤ × Text → ℕ × ℕ → Map (ℤ × Text) (ℤ × ℤ) → Map (ℤ × Text) (ℤ × ℤ)
put_app key (rx, tx) t =
    if ltb_ℤ (pos 0) (as_i64 rx) || ltb_ℤ (pos 0) (as_i64 tx)
    then add_at key (as_i64 rx, as_i64 tx) t
    else t

put_app-amount_at :
    (key k : ℤ × Text) (b : ℕ × ℕ) (t : Map (ℤ × Text) (ℤ × ℤ))
    → IsCount b
    → amount_at k (put_app key b t)
      ≡ (if key == k then add_bytes (amount_at k t) (pos b.0, pos b.1) else amount_at k t)
put_app-amount_at key k (rx, tx) t c =
    rw (as_i64-small rx c.0, as_i64-small tx c.1)
      (elim (Bool-cases (ltb_ℤ (pos 0) (pos rx) || ltb_ℤ (pos 0) (pos tx))) [
        | inl any_bytes ↦ rw any_bytes (amount_at-add_at key k (pos rx, pos tx) t)
        | inr no_bytes ↦
            let zero_rx : rx ≡ 0 = ground arith in
            let zero_tx : tx ≡ 0 = ground arith in
            rw (no_bytes, zero_rx, zero_tx)
              (elim (Bool-cases (key == k)) [
                | inl same ↦ rw same (sym (add-nil (amount_at k t)))
                | inr other ↦ rw other
              ])
      ])

-- What the daemon adds to proc_hourly for a program and an hour is what it was handed for that
-- program, if the drained map has each program once and counts below 2^63.
pub record_apps-amount_at :
    (hour : ℤ) (comm : Text) (cur : Map Text (ℕ × ℕ)) (t : Map (ℤ × Text) (ℤ × ℤ))
    → IsMap cur
    → All (λ e. IsCount e.1) cur
    → amount_at (hour, comm) (record_apps hour cur t)
      ≡ add_bytes (amount_at (hour, comm) t) (as_bytes (lookup comm cur))
unfolding record_apps lookup
record_apps-amount_at hour comm [] t m c = sym (add-nil _)
record_apps-amount_at hour comm ((name, b) ∷ cur) t m c =
    record_apps-amount_at hour comm cur (put_app (hour, name) b t) m.1 c.1
    ∙ rw (put_app-amount_at (hour, name) (hour, comm) b t c.0, beq_refl hour)
        (elim (Bool-cases (name == comm)) [
          | inl same ↦
              let p : name ≡ comm = (text_beq_iff name comm).0 same in
              let none_later : lookup comm cur ≡ none = subst (λ x. lookup x cur ≡ none) p m.0 in
              rw (same, none_later) (add-nil _)
          | inr other ↦ rw other
        ])
