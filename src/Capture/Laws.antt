-- ===== src/Capture/Laws.antt =====
-- Which counters src/capture.rs reads from the output of nft.
use netmeter.Prelude.{
  ℕ, ◌≡◌, refl, ◌∙◌, Option, none, some, Text, codes, if◌then◌else◌, ◌==◌, text_eq, inl, inr,
  Bool-cases, text_beq_iff,
}
use netmeter.Capture.Nft.{
  Json, Items, end, item, get, counter_of, note_counter, scan, items_of, both, parse_nft_counters,
}

abbrev keep_last : Option ℕ → Option ℕ → Option ℕ
keep_last old none = old
keep_last old (some b) = some b

-- The bytes of an object, if its counter has the name.
abbrev bytes_of : Text → Option (Text × ℕ) → Option ℕ
bytes_of name none = none
bytes_of name (some (n, b)) = if n == name then some b else none

-- The bytes of the last counter of a name in the list.
unfoldable pub last_counter : Text → Items → Option ℕ → Option ℕ
last_counter name end old = old
last_counter name (item obj rest) old =
    last_counter name rest (keep_last old (bytes_of name (counter_of (get (codes "counter") obj))))

note_counter_lem :
    (c : Option (Text × ℕ)) (found : Option ℕ × Option ℕ)
    → note_counter c found ≡ (
      keep_last found.0 (bytes_of (codes "lan_rx_bytes") c),
      keep_last found.1 (bytes_of (codes "lan_tx_bytes") c),
    )
unfolding note_counter
note_counter_lem none found = refl
note_counter_lem (some (n, b)) found = elim (Bool-cases (n == codes "lan_rx_bytes")) [
  | inl rx ↦ let p : n ≡ codes "lan_rx_bytes" = (text_beq_iff n (codes "lan_rx_bytes")).0 rx in rw p
  | inr not_rx ↦ elim (Bool-cases (n == codes "lan_tx_bytes")) [
    | inl tx ↦ rw (not_rx, tx)
    | inr not_tx ↦ rw (not_rx, not_tx)
  ]
]

scan_lem :
    (is : Items) (found : Option ℕ × Option ℕ)
    → scan is found ≡ (
      last_counter (codes "lan_rx_bytes") is found.0,
      last_counter (codes "lan_tx_bytes") is found.1,
    )
unfolding scan last_counter
scan_lem end found = refl
scan_lem (item obj rest) found =
    scan_lem rest (note_counter (counter_of (get (codes "counter") obj)) found)
    ∙ rw (note_counter_lem (counter_of (get (codes "counter") obj)) found)

-- The reading of nft's output is the pair of the last counters named lan_rx_bytes and lan_tx_bytes
-- in the list, and none where either is missing.
pub parse_nft_counters_lem :
    (v : Json)
    → parse_nft_counters (some v)
      ≡ both (
        last_counter (codes "lan_rx_bytes") (items_of (get (codes "nftables") v)) none,
        last_counter (codes "lan_tx_bytes") (items_of (get (codes "nftables") v)) none,
      )
unfolding parse_nft_counters
parse_nft_counters_lem v = rw (scan_lem (items_of (get (codes "nftables") v)) (none, none))
