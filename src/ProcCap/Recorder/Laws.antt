-- ===== src/ProcCap/Recorder/Laws.antt =====
-- The bytes that the recorder of src/proc_cap.rs hands to the daemon, and when it opens its
-- receivers anew.
use netmeter.Prelude.{
  ℕ, ◌+◌, ◌≡◌, refl, Bool, true, false, List, [], ◌∷◌, Text, upsert, ◌==◌, text_eq, inl, inr,
  Bool-cases, arith,
}
use netmeter.ProcCap.Address.{IpAddr}
use netmeter.ProcCap.Owners.{Owners}
use netmeter.ProcCap.Account.{Cum, Pnet, account}
use netmeter.ProcCap.Account.Laws.{side, sum_cum, counted, sum_cum-account}
use netmeter.ProcCap.Account.{ends}
use netmeter.ProcCap.Recorder.{Shared, Recorder, add_pair, fold_comms, flush, drain_deltas}

-- The bytes of all programs.
unfoldable pub sum_shared : Bool → Shared → ℕ
sum_shared up [] = 0
sum_shared up ((comm, b) ∷ t) = side up b + sum_shared up t

side-add_pair : (up : Bool) (a b : ℕ × ℕ) → side up (add_pair a b) ≡ side up a + side up b
side-add_pair true a b = refl
side-add_pair false a b = refl

sum_shared-upsert :
    (up : Bool) (comm : Text) (b : ℕ × ℕ) (t : Shared)
    → sum_shared up (upsert comm (add_pair (0, 0) b) (λ e. add_pair e b) t)
      ≡ sum_shared up t + side up b
unfolding sum_shared upsert
sum_shared-upsert up comm b [] = omega (arith, start up)
  where
    start : (s : Bool) → side s (add_pair (0, 0) b) ≡ side s b
    start true = omega arith
    start false = omega arith
sum_shared-upsert up comm b ((k, e) ∷ t) = elim (Bool-cases (k == comm)) [
  | inl same ↦ rw same (omega (arith, side-add_pair up e b))
  | inr other ↦ rw other (omega (arith, sum_shared-upsert up comm b t))
]

pub sum_shared-fold_comms :
    (up : Bool) (cum : Cum) (t : Shared)
    → sum_shared up (fold_comms cum t) ≡ sum_shared up t + sum_cum up cum
unfolding fold_comms sum_cum
sum_shared-fold_comms up [] t = omega arith
sum_shared-fold_comms up ((pid, (comm, b)) ∷ cum) t = omega (
  arith,
  sum_shared-fold_comms up cum (upsert comm (add_pair (0, 0) b) (λ e. add_pair e b) t),
  sum_shared-upsert up comm b t,
)

-- What happens to the counters: a frame is accounted, the thread flushes, the daemon drains.
pub data Event : Type 0 where
  framed : Text → Event
  flushed taken : Event

module _ (n : Pnet) (owners : Owners) (local : List IpAddr) where
  -- The bytes of the frames among the events.
  unfoldable pub framed_bytes : Bool → List Event → ℕ
  framed_bytes s [] = 0
  framed_bytes s (Event.framed f ∷ es) = counted n owners local s f (ends n f) + framed_bytes s es
  framed_bytes s (Event.flushed ∷ es) = framed_bytes s es
  framed_bytes s (Event.taken ∷ es) = framed_bytes s es

module _ {R : Type 0} (n : Pnet) (owners : Owners) (local : List IpAddr) where
  -- The recorder after some events, and the deltas that the daemon was handed.
  unfoldable pub play : List Event → Recorder R → List Shared × Recorder R
  play [] r = ([], r)
  play (Event.framed f ∷ es) r = play es (record r { cum = account n f owners local r.cum })
  play (Event.flushed ∷ es) r = play es (flush r)
  play (Event.taken ∷ es) r =
      let (shared, rest) = drain_deltas r in
      let (later, last) = play es rest in (shared ∷ later, last)

abbrev pub handed : Bool → List Shared → ℕ
handed s [] = 0
handed s (d ∷ ds) = sum_shared s d + handed s ds

module _ {R : Type 0} (n : Pnet) (owners : Owners) (local : List IpAddr) where
  -- However accounted frames, flushes and the daemon's drains are interleaved, what the daemon was
  -- handed, what is shared and what is in the scratch counters add up to what was there and the
  -- bytes of the accounted frames, received and sent apart: no byte is lost or handed over twice.
  play-handed :
      (s : Bool) (es : List Event) (r : Recorder R)
      → handed s (play n owners local es r).0
          + (sum_shared s (play n owners local es r).1.shared
              + sum_cum s (play n owners local es r).1.cum)
        ≡ sum_shared s r.shared + sum_cum s r.cum + framed_bytes n owners local s es
  unfolding play framed_bytes flush drain_deltas sum_shared sum_cum
  play-handed s [] r = omega arith
  play-handed s (Event.framed f ∷ es) r = omega (
    arith,
    play-handed s es (record r { cum = account n f owners local r.cum }),
    sum_cum-account n owners local s f r.cum,
  )
  play-handed s (Event.flushed ∷ es) r =
      omega (arith, play-handed s es (flush r), sum_shared-fold_comms s r.cum r.shared)
  play-handed s (Event.taken ∷ es) r = omega (arith, play-handed s es (record r { shared = [] }))
