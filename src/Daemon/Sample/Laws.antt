-- ===== src/Daemon/Sample/Laws.antt =====
-- What the sampling of src/daemon.rs writes: rows within their bounds, the LAN bytes shared out.
use netmeter.Prelude.{
  ℕ, ◌≤◌, ◌<◌, ◌≡◌, true, false, Text, text_eq, pair_eq, int_eq, arith, Bool-cases, inl, inr,
}
use netmeter.Prelude.Int.{ℤ, pos, negsuc, ◌≤ℤ◌, ltb_ℤ, min_ℤ}
use netmeter.Prelude.Float.{Float, FloatLaws, exact_limit, word_limit}
use netmeter.Prelude.Decimal.{i64_max}
use netmeter.Config.{Config, forced_lan}
use netmeter.Db.{Traffic}
use netmeter.Daemon.Sample.{PerIf, pro_rate, lan_share, sample_of}

-- LAN bytes between nothing and the whole, in both directions.
pub record IsSplit (v : Traffic) : Type 0 where
  pub rx_low : pos 0 ≤ℤ v.lan_rx
  pub rx_high : v.lan_rx ≤ℤ v.rx
  pub tx_low : pos 0 ≤ℤ v.lan_tx
  pub tx_high : v.lan_tx ≤ℤ v.tx

-- A count of bytes in an i64.
abbrev pub IsCounted : ℤ → Type 0
IsCounted n = (pos 0 ≤ℤ n) × (n ≤ℤ pos i64_max)

module _ (f : Float) (laws : FloatLaws f) where
  -- What converts from the integers of the program.
  is_nonneg : (n : ℕ) → f.le (f.of (pos 0)) (f.of (pos n)) ≡ true
  is_nonneg n = laws.of_mono 0 n (omega arith)

  is_word : (n : ℕ) → n ≤ i64_max → f.le (f.of (pos n)) (f.of (pos word_limit)) ≡ true
  is_word n h = laws.of_mono n word_limit (omega (arith, h))

  share_nonneg :
      (lan : ℕ) (x : f.Real)
      → lan ≤ i64_max
      → f.le (f.of (pos 0)) x ≡ true
      → f.le x (f.of (pos word_limit)) ≡ true
      → pos 0 ≤ℤ f.trunc (f.mul (f.of (pos lan)) x)
  share_nonneg lan x h low high =
      laws.trunc_nonneg _ (laws.mul_nonneg _ _ (is_nonneg lan) (is_word lan h) low high)

  pro_rate_nonneg :
      (lan part tot : ℤ)
      → IsCounted lan
      → IsCounted part
      → tot ≤ℤ pos i64_max
      → pos 0 ≤ℤ pro_rate f lan part tot
  unfolding pro_rate
  pro_rate_nonneg (negsuc lan) part tot hl hp ht = absurd (omega (arith, hl.0))
  pro_rate_nonneg (pos lan) (negsuc part) tot hl hp ht = absurd (omega (arith, hp.0))
  pro_rate_nonneg (pos lan) (pos part) (negsuc n) hl hp ht =
      let h : ltb_ℤ (pos 0) (negsuc n) ≡ false = ground arith in
      rw (h, pro_rate)
        (share_nonneg lan _ (omega (arith, hl.1)) (is_nonneg 0) (is_word 0 (omega arith)))
  pro_rate_nonneg (pos lan) (pos part) (pos n) hl hp ht =
      let few : n ≤ word_limit = omega (arith, ht) in
      let part_word = is_word part (omega (arith, hp.1)) in
      elim (Bool-cases (ltb_ℤ (pos 0) (pos n))) [
        | inl h ↦
            let some : 0 < n = ground (arith, h) in
            rw (h, pro_rate)
              (share_nonneg lan _ (omega (arith, hl.1))
                (laws.div_nonneg _ n (is_nonneg part) part_word some few)
                (laws.le_trans _ _ _ (laws.div_below _ n (is_nonneg part) part_word some few)
                  part_word))
        | inr h ↦
            rw (h, pro_rate)
              (share_nonneg lan _ (omega (arith, hl.1)) (is_nonneg 0) (is_word 0 (omega arith)))
      ]

  pro_rate_whole :
      (lan n : ℕ)
      → 0 < n
      → n ≤ word_limit
      → lan ≤ exact_limit
      → pro_rate f (pos lan) (pos n) (pos n) ≡ pos lan
  unfolding pro_rate
  pro_rate_whole lan n h w e =
      let t : ltb_ℤ (pos 0) (pos n) ≡ true = ground arith in
      rw (t, pro_rate, laws.div_self n h w, laws.mul_one lan) (laws.trunc-of lan e)

  -- Where floating point obeys its laws and the LAN bytes and the row's bytes are counts from 0 to
  -- 2^63 - 1, and the sums over the rows are at most that, the LAN bytes of every row that is
  -- written lie between nothing and the row's own bytes, in both directions.
  pub sample_of-IsSplit :
      (cfg : Config f.Real) (lan tot : ℤ × ℤ) (p : PerIf)
      → IsCounted lan.0
      → IsCounted lan.1
      → IsCounted p.rx
      → IsCounted p.tx
      → tot.0 ≤ℤ pos i64_max
      → tot.1 ≤ℤ pos i64_max
      → IsSplit (sample_of f cfg lan tot p)
  unfolding sample_of lan_share min_ℤ
  sample_of-IsSplit cfg lan tot p h0 h1 hr ht t0 t1 = ground (
    arith,
    hr.0,
    ht.0,
    pro_rate_nonneg lan.0 p.rx tot.0 h0 hr t0,
    pro_rate_nonneg lan.1 p.tx tot.1 h1 ht t1,
  )

  -- Where floating point obeys its laws and one interface that is not forced to LAN alone had
  -- traffic in both directions, its row is given all LAN bytes that floating point holds exactly,
  -- up to its own bytes.
  sample_of-alone :
      (cfg : Config f.Real) (iface : Text) (lan_rx lan_tx rx tx : ℕ)
      → forced_lan cfg iface ≡ false
      → 0 < rx
      → 0 < tx
      → rx ≤ word_limit
      → tx ≤ word_limit
      → lan_rx ≤ exact_limit
      → lan_tx ≤ exact_limit
      → sample_of f cfg
          (pos lan_rx, pos lan_tx)
          (pos rx, pos tx)
          (record { iface = iface; rx = pos rx; tx = pos tx })
        ≡ record {
          rx = pos rx;
          tx = pos tx;
          lan_rx = min_ℤ (pos lan_rx) (pos rx);
          lan_tx = min_ℤ (pos lan_tx) (pos tx);
        }
  unfolding sample_of lan_share
  sample_of-alone cfg iface lan_rx lan_tx rx tx plain hr ht wr wt er et =
      let t : ltb_ℤ (pos 0) (pos rx) ≡ true = ground arith in
      rw (plain, t, pro_rate_whole lan_rx rx hr wr er, pro_rate_whole lan_tx tx ht wt et)
