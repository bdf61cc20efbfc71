-- ===== src/Capture/Ruleset.antt =====
-- `render_ruleset` of src/capture.rs: the configured subnets, split by address family, as the text
-- of an nft ruleset.
use netmeter.Prelude.{Bool, List, [], ◌∷◌, ◌++◌, any, keep, not, nat_beq, Text, codes, String}

-- `s.contains(':')`.
abbrev pub has_colon : Text → Bool
has_colon s = any (λ c. nat_beq c b':') s

-- The loop over the subnets: the IPv4 and the IPv6 ones, each in order.
unfoldable pub v4_subnets : List Text → List Text
v4_subnets subnets = keep (λ s. not (has_colon s)) subnets

unfoldable pub v6_subnets : List Text → List Text
v6_subnets subnets = keep has_colon subnets

-- `v.join(", ")`.
unfoldable pub join : List Text → Text
join [] = []
join (s ∷ []) = s
join (s ∷ t ∷ rest) = s ++ (codes ", " ++ join (t ∷ rest))

-- The elements of a set, or the default where there are none.
unfoldable pub elements : Text → List Text → Text
elements default [] = default
elements default (s ∷ rest) = join (s ∷ rest)

abbrev line : String → Text
line s = codes s ++ 10 ∷ []

unfoldable pub render_ruleset : List Text → Text
render_ruleset subnets =
    line "table inet netmeter {"
    ++ (codes "    set lan4 { type ipv4_addr; flags interval; elements = { "
        ++ (elements (codes "10.0.0.0/8") (v4_subnets subnets)
            ++ (line " } }"
                ++ (codes "    set lan6 { type ipv6_addr; flags interval; elements = { "
                    ++ (elements (codes "fe80::/10") (v6_subnets subnets)
                        ++ (line " } }"
                            ++ (line "    counter lan_rx_bytes { }"
                                ++ (line "    counter lan_tx_bytes { }"
                                    ++ (line "    counter lan_rx_pkts { }"
                                        ++ (line "    counter lan_tx_pkts { }"
                                            ++ (line
                                                  "    chain acct_in { type filter hook input priority filter; policy accept;"
                                                ++ (line
                                                      "        ip saddr @lan4 counter name lan_rx_bytes accept"
                                                    ++ (line
                                                          "        ip6 saddr @lan6 counter name lan_rx_bytes accept"
                                                        ++ (line "    }"
                                                            ++ (line
                                                            "    chain acct_out { type filter hook output priority filter; policy accept;"
                                                            ++ (line
                                                            "        ip daddr @lan4 counter name lan_tx_bytes accept"
                                                            ++ (line
                                                            "        ip6 daddr @lan6 counter name lan_tx_bytes accept"
                                                            ++ (line "    }"
                                                            ++ line "}"))))))))))))))))))
