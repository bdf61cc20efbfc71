-- ===== src/Daemon/Serve/Laws.antt =====
-- The daemon of src/daemon.rs ends when it is told to, and waits for the clock no longer than it
-- must.
use native.Mathlib.Nat.{suc-mul, div-add-mod', mod-lt, zero-div}
use netmeter.Prelude.{
  ℕ, zero, suc, ◌+◌, ◌-◌, ◌*◌, ◌/◌, ◌%◌, ◌≤◌, ◌<◌, ◌≡◌, refl, ◌∙◌, Bool, true, false, List, [], ◌∷◌,
  Option, some, Text, if◌then◌else◌, nat_beq, ltb, leb, Bool-cases, inl, inr, arith, ◌⊎◌,
}
use netmeter.Prelude.Int.{ℤ, ltb_ℤ}
use netmeter.Prelude.Float.{Float}
use netmeter.Config.{Config}
use netmeter.Db.Time.{Calendar}
use netmeter.Daemon.Loop.{Loop, Reading, tick}
use netmeter.Daemon.Loop.Run.{run}
use netmeter.Daemon.Serve.{synced_after, await_clock, nap_until, naps_of, serve}

-- AWAIT
pub await_clock_lem :
    (clock : ℕ → ℤ) (rounds slept : ℕ)
    → (slept ≤ await_clock clock rounds slept)
      × (await_clock clock rounds slept ≤ slept + rounds)
      × ((i : ℕ)
          → slept ≤ i
          → i < await_clock clock rounds slept
          → ltb_ℤ synced_after (clock i) ≡ false)
      × (await_clock clock rounds slept < slept + rounds
          → ltb_ℤ synced_after (clock (await_clock clock rounds slept)) ≡ true)
unfolding await_clock
await_clock_lem clock zero slept =
    (omega arith, omega arith, λ i a b. absurd (omega arith), λ h. absurd (omega arith))
await_clock_lem clock (suc rounds) slept = elim (Bool-cases (ltb_ℤ synced_after (clock slept))) [
  | inl synced ↦ rw synced (omega arith, omega arith, λ i a b. absurd (omega arith), λ h. synced)
  | inr early ↦ rw early (
      let (a, b, c, d) = await_clock_lem clock rounds (slept + 1) in
      (
        omega arith,
        omega arith,
        λ i p q. elim (Bool-cases (nat_beq i slept)) [
          | inl first ↦ let same : i ≡ slept = ground arith in rw same early
          | inr later ↦ c i (ground arith) (omega arith)
        ],
        λ h. d (omega arith),
      ))
]

-- The stop flag is set at a moment and stays set.
abbrev pub IsSetAt : ℕ → (ℕ → Bool) → Type 0
IsSetAt moment stopped = (t : ℕ) → stopped t ≡ leb moment t

nap_until_lem :
    (moment : ℕ) (stopped : ℕ → Bool) (naps t : ℕ)
    → IsSetAt moment stopped
    → t ≤ moment
    → nap_until stopped naps t ≡ (if ltb (t + naps) moment then t + naps else moment)
unfolding nap_until
nap_until_lem moment stopped zero t h le = ground arith
nap_until_lem moment stopped (suc naps) t h le = elim (Bool-cases (stopped t)) [
  | inl set ↦ rw set (ground (arith, h t))
  | inr unset ↦ rw unset (
      let before : t < moment = ground (arith, h t) in
      nap_until_lem moment stopped naps (t + 1) h (omega arith) ∙ ground arith)
]

ltb→lt : {a b : ℕ} → ltb a b ≡ true → a < b
ltb→lt h = ground arith

none_before : (moment n : ℕ) → moment ≡ 0 → (moment - 1) / n ≡ 0
none_before moment n h = rw h (zero-div n)

-- The readings of `n` turns from the turn `i` on.
abbrev pub first_readings : (ℕ → Reading) → ℕ → ℕ → List Reading
first_readings reads i zero = []
first_readings reads i (suc n) = reads i ∷ first_readings reads (suc i) n

module _ (f : Float) (j : Calendar) (cfg : Config f.Real) (speed : Text → Option ℕ) where
  module _ (stopped : ℕ → Bool) (reads : ℕ → Reading) (last : ℕ → ℤ) where
    serve_turns :
        (moment k fuel t i : ℕ) (s : Loop)
        → IsSetAt moment stopped
        → k < fuel
        → t ≤ moment
        → k * naps_of cfg + t < moment ⊎ (k ≡ 0)
        → moment ≤ suc k * naps_of cfg + t
        → serve f j cfg speed stopped reads last fuel t i s
          ≡ some (moment, run f j cfg speed (first_readings reads i k) (last moment) s)
    unfolding serve run
    serve_turns moment k zero t i s h enough le more most = absurd (omega arith)
    serve_turns moment zero (suc fuel) t i s h enough le more most =
        let woken : nap_until stopped (naps_of cfg) t ≡ moment =
          nap_until_lem moment stopped (naps_of cfg) t h le ∙ ground arith in
        let set : stopped moment ≡ true = h moment ∙ ground arith in rw (woken, set) refl
    serve_turns moment (suc k) (suc fuel) t i s h enough le more most =
        let later : suc k * naps_of cfg + t < moment = elim more [
          | inl p ↦ p
          | inr none_left ↦ absurd (omega arith)
        ] in
        let early : t + naps_of cfg < moment = omega (arith, later, suc-mul k (naps_of cfg)) in
        let woken : nap_until stopped (naps_of cfg) t ≡ t + naps_of cfg =
          nap_until_lem moment stopped (naps_of cfg) t h le ∙ ground arith in
        let unset : stopped (t + naps_of cfg) ≡ false = h (t + naps_of cfg) ∙ ground arith in
        rw (woken, unset)
          (serve_turns moment k fuel (t + naps_of cfg) (suc i) (tick f j cfg speed (reads i) s) h
            (omega arith) (omega arith) (inl (omega (arith, later, suc-mul k (naps_of cfg))))
            (omega (arith, suc-mul k (naps_of cfg), suc-mul (suc k) (naps_of cfg))))

    -- If the stop flag is set at a moment, counted in naps of 200 ms, and stays set, the daemon's
    -- loop ends at this very moment, without another nap, after the turns whose intervals had
    -- passed before it, with the database that these turns and the stop leave; any fuel above the
    -- number of these turns is enough.
    pub serve_stops :
        (moment fuel : ℕ) (s : Loop)
        → IsSetAt moment stopped
        → (moment - 1) / naps_of cfg < fuel
        → serve f j cfg speed stopped reads last fuel 0 0 s
          ≡ some (
            moment,
            run f j cfg speed (first_readings reads 0 ((moment - 1) / naps_of cfg)) (last moment) s,
          )
    serve_stops moment fuel s h enough =
        let n : ℕ = naps_of cfg in
        let rounds : ℕ = (moment - 1) / n in
        let exact : rounds * n + (moment - 1) % n ≡ moment - 1 = div-add-mod' (moment - 1) n in
        let below : (moment - 1) % n < n = mod-lt (moment - 1) (omega arith) in
        serve_turns moment rounds fuel 0 0 s h enough (omega arith)
          (elim (Bool-cases (ltb 0 moment)) [
            | inl asked ↦ inl (omega (arith, exact, ltb→lt asked))
            | inr at_once ↦ inr (none_before moment n (ground arith))
          ])
          (omega (arith, exact, below, suc-mul rounds n))
