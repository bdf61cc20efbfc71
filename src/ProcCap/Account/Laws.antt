-- ===== src/ProcCap/Account/Laws.antt =====
-- The bytes that the accounting of src/proc_cap.rs keeps.
use netmeter.Prelude.{
  ℕ, zero, suc, ◌+◌, ◌≤◌, ◌≡◌, refl, Bool, true, false, List, [], ◌∷◌, Option, none, some, Text,
  length, if◌then◌else◌, upsert, inl, inr, Bool-cases, arith, ◌==◌, nat_eq,
}
use netmeter.ProcCap.Address.{IpAddr}
use netmeter.ProcCap.Owners.{Owners}
use netmeter.ProcCap.Account.{
  Cum, Pnet, Ends, Next, account, account_ends, ends, is_up, charge, add_frame, drain, drain_one,
  max_drain_frames,
}

-- The received or the sent bytes.
abbrev pub side : Bool → ℕ × ℕ → ℕ
side up (rx, tx) = if up then tx else rx

-- The bytes of all processes.
unfoldable pub sum_cum : Bool → Cum → ℕ
sum_cum up [] = 0
sum_cum up ((pid, e) ∷ cum) = side up e.1 + sum_cum up cum

abbrev same_side : Bool → Bool → ℕ → ℕ
same_side true true n = n
same_side true false n = 0
same_side false true n = 0
same_side false false n = n

side-add_frame :
    (s up : Bool) (n : ℕ) (e : ℕ × ℕ) → side s (add_frame up n e) ≡ side s e + same_side s up n
side-add_frame true true n e = omega arith
side-add_frame true false n e = omega arith
side-add_frame false true n e = omega arith
side-add_frame false false n e = omega arith

sum_cum-charge :
    (s up : Bool) (n : ℕ) (who : ℕ × Text) (cum : Cum)
    → sum_cum s (charge up n who cum) ≡ sum_cum s cum + same_side s up n
unfolding sum_cum charge upsert
sum_cum-charge s up n who [] = omega (arith, side-add_frame s up n (0, 0), zero_side s)
  where
    zero_side : (s : Bool) → side s (0, 0) ≡ 0
    zero_side true = refl
    zero_side false = refl
sum_cum-charge s up n (pid, comm) ((k, e) ∷ cum) = elim (Bool-cases (k == pid)) [
  | inl same ↦ rw same (omega (arith, side-add_frame s up n e.1))
  | inr other ↦ rw other (omega (arith, sum_cum-charge s up n (pid, comm) cum))
]

module _ (n : Pnet) (owners : Owners) (local : List IpAddr) where
  -- The bytes of a frame on one side, nothing where the frame is passed over.
  unfoldable pub counted : Bool → Text → Option Ends → ℕ
  counted s f none = 0
  counted s f (some e) = same_side s (is_up local e) (length f)

  -- The same for a list of frames.
  unfoldable pub counted_all : Bool → List Text → ℕ
  counted_all s [] = 0
  counted_all s (f ∷ fs) = counted s f (ends n f) + counted_all s fs

  pub sum_cum-account :
      (s : Bool) (f : Text) (cum : Cum)
      → sum_cum s (account n f owners local cum) ≡ sum_cum s cum + counted s f (ends n f)
  unfolding account counted
  sum_cum-account s f cum = by_ends (ends n f)
    where
      by_ends :
          (o : Option Ends)
          → sum_cum s (account_ends f owners local o cum) ≡ sum_cum s cum + counted s f o
      by_ends none = omega arith
      by_ends (some e) = sum_cum-charge s (is_up local e) (length f) _ cum

  module _ {R : Type 0} (next : R → Next × R) where
    -- The frames that a receiver gives in up to k calls, until it fails or has none.
    unfoldable pub frames : ℕ → R → List Text
    frames zero rx = []
    frames (suc k) rx =
        let (got, rest) = next rx in
        elim got [ Next.captured f ↦ f ∷ frames k rest | Next.timed_out ↦ [] | Next.failed ↦ [] ]

    length-frames : (k : ℕ) (rx : R) → length (frames k rx) ≤ k
    unfolding frames
    length-frames zero rx = omega arith
    length-frames (suc k) rx = by_next (length-frames k (next rx).1) (next rx).0 refl
      where
        by_next :
            length (frames k (next rx).1) ≤ k
            → (got : Next) → (next rx).0 ≡ got
            → length (frames (suc k) rx) ≤ suc k
        by_next ih (Next.captured f) e = rw (frames, e) (omega (arith, ih))
        by_next ih Next.timed_out e = rw (frames, e) (omega arith)
        by_next ih Next.failed e = rw (frames, e) (omega arith)

    sum_cum-drain :
        (s : Bool) (k : ℕ) (rx : R) (cum : Cum)
        → sum_cum s (drain n next owners local k rx cum).1.1
          ≡ sum_cum s cum + counted_all s (frames k rx)
    unfolding drain frames counted_all
    sum_cum-drain s zero rx cum = omega arith
    sum_cum-drain s (suc k) rx cum = by_next (λ c. sum_cum-drain s k (next rx).1 c) (next rx).0 refl
      where
        by_next :
            ((c : Cum)
              → sum_cum s (drain n next owners local k (next rx).1 c).1.1
                ≡ sum_cum s c + counted_all s (frames k (next rx).1))
            → (got : Next) → (next rx).0 ≡ got
            → sum_cum s (drain n next owners local (suc k) rx cum).1.1
              ≡ sum_cum s cum + counted_all s (frames (suc k) rx)
        by_next ih (Next.captured f) e =
            rw (drain, frames, e)
              (omega (arith, ih (account n f owners local cum), sum_cum-account s f cum))
        by_next ih Next.timed_out e = rw (drain, frames, e) (omega arith)
        by_next ih Next.failed e = rw (drain, frames, e) (omega arith)

    -- One call of drain_one takes at most 4096 frames, and the received or sent bytes of all
    -- processes grow by the lengths of exactly the frames that the receiver gave before it failed
    -- or had none and that hold an IP packet, on the side that the packet's source tells.
    pub drain_one-sum_cum :
        (s : Bool) (rx : R) (cum : Cum)
        → (sum_cum s (drain_one n next owners local rx cum).1.1
            ≡ sum_cum s cum + counted_all s (frames max_drain_frames rx))
          × (length (frames max_drain_frames rx) ≤ 4096)
    unfolding drain_one
    drain_one-sum_cum s rx cum = (sum_cum-drain s 4096 rx cum, length-frames 4096 rx)
