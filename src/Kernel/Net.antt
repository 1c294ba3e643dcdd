-- ===== src/Kernel/Net.antt =====
-- kernel/network.c: the way of a packet to the network card. A frame is the list of its bytes. The
-- card is the sequence of its answers to the reads of NIC_STATUS and the frames given to it.
use oxalyn.Base.{
  ℕ, zero, suc, ◌+◌, ◌-◌, ◌*◌, ◌/◌, ◌%◌, ◌^◌, Bool, true, false, not, ◌&&◌, ◌||◌, none, some, List,
  [], ◌∷◌, ◌==◌, ltb, if◌then◌else◌, has, update, length, u8, add32, shr,
}
use oxalyn.Kernel.Search.{find}

abbrev pub net_mtu : ℕ
net_mtu = 1518

abbrev pub net_hdr_eth : ℕ
net_hdr_eth = 14

abbrev pub net_hdr_ip : ℕ
net_hdr_ip = 20

abbrev pub arp_table_size : ℕ
arp_table_size = 8

abbrev pub ethertype_ip : ℕ
ethertype_ip = 0x0800

-- `uint8_t mac[6]`.
pub record Mac : Type 0 where
  pub b0 : ℕ
  pub b1 : ℕ
  pub b2 : ℕ
  pub b3 : ℕ
  pub b4 : ℕ
  pub b5 : ℕ

abbrev pub mac_bytes : Mac → List ℕ → List ℕ
mac_bytes m rest = m.b0 ∷ m.b1 ∷ m.b2 ∷ m.b3 ∷ m.b4 ∷ m.b5 ∷ rest

abbrev pub broadcast : Mac
broadcast = record { b0 = 255; b1 = 255; b2 = 255; b3 = 255; b4 = 255; b5 = 255 }

pub record ArpEntry : Type 0 where
  pub ip : ℕ
  pub mac : Mac
  pub valid : Bool

-- `net`, the ARP table, and the card: `status` holds its answers, of which `reads` are used up, and
-- `sent` the frames given to it, the last one first.
pub record Net : Type 0 where
  pub ip : ℕ
  pub mac : Mac
  pub arp_table : ℕ → ArpEntry
  pub tx_packets : ℕ
  pub tx_errors : ℕ
  pub status : ℕ → ℕ
  pub reads : ℕ
  pub sent : List (List ℕ)

-- A word in network order, before other bytes.
abbrev pub be16 : ℕ → List ℕ → List ℕ
be16 v rest = u8 (v / 2 ^ 8) ∷ u8 v ∷ rest

abbrev pub be32 : ℕ → List ℕ → List ℕ
be32 v rest = u8 (v / 2 ^ 24) ∷ u8 (v / 2 ^ 16) ∷ u8 (v / 2 ^ 8) ∷ u8 v ∷ rest

-- The sum of the 16-bit words of some bytes, from `sum` on. `hi << 8 | lo` of two bytes is their sum.
unfoldable pub sum_words : ℕ → List ℕ → ℕ
sum_words sum [] = sum
sum_words sum (hi ∷ []) = add32 sum (hi * 2 ^ 8)
sum_words sum (hi ∷ lo ∷ rest) = sum_words (add32 sum (hi * 2 ^ 8 + lo)) rest

-- `while (sum >> 16)`, with fuel.
unfoldable pub fold_carry : ℕ → ℕ → ℕ
fold_carry zero sum = sum
fold_carry (suc fuel) sum =
    let rest = fold_carry fuel (sum % 2 ^ 16 + shr sum 16) in if shr sum 16 == 0 then sum else rest

abbrev pub complement16 : ℕ → ℕ
complement16 sum = 2 ^ 16 - 1 - sum % 2 ^ 16

unfoldable pub inet_checksum : List ℕ → ℕ
unfolding sum_words fold_carry
inet_checksum bytes = complement16 (fold_carry 3 (sum_words 0 bytes))

unfoldable pub arp_lookup : Net → ℕ → Mac
unfolding find
arp_lookup n ip =
    elim (find arp_table_size 0 (λ i. (n.arp_table i).valid && (n.arp_table i).ip == ip)) [
      | none ↦ broadcast
      | some i ↦ (n.arp_table i).mac
    ]

-- The first entry that is free or has the address, or else entry 0.
unfoldable pub arp_learn : Net → ℕ → Mac → Net
unfolding find
arp_learn n ip mac =
    let slot : ℕ =
      elim (find arp_table_size 0 (λ i. not (n.arp_table i).valid || (n.arp_table i).ip == ip)) [
        | none ↦ 0
        | some i ↦ i
      ] in
    record n { arp_table = update n.arp_table slot (record { ip = ip; mac = mac; valid = true }) }

abbrev pub frame : Net → Mac → ℕ → List ℕ → List ℕ
frame n dst_mac ethertype payload = mac_bytes dst_mac (mac_bytes n.mac (be16 ethertype payload))

-- `false` is -1. Bit 0 of the status says that the card is ready, bit 3 that it is sending.
unfoldable pub eth_send : Net → Mac → ℕ → List ℕ → Bool × Net
eth_send n dst_mac ethertype payload =
    let status = n.status n.reads in
    let asked = record n { reads = n.reads + 1 } in
    if ltb (net_mtu - net_hdr_eth) (length payload)
    then (false, n)
    else if not (has status 1) || has status 8
    then (false, record asked { tx_errors = n.tx_errors + 1 })
    else (
      true,
      record asked {
        sent = frame n dst_mac ethertype payload ∷ n.sent;
        tx_packets = n.tx_packets + 1;
      },
    )

-- The IPv4 header with the given checksum.
abbrev pub ip_header : Net → ℕ → ℕ → ℕ → ℕ → List ℕ → List ℕ
ip_header n dst_ip proto total_len csum rest =
    0x45
    ∷ 0
    ∷ be16 total_len (0 ∷ 1 ∷ 0x40 ∷ 0 ∷ 64 ∷ proto ∷ be16 csum (be32 n.ip (be32 dst_ip rest)))

abbrev pub ip_packet : Net → ℕ → ℕ → List ℕ → List ℕ
unfolding inet_checksum
ip_packet n dst_ip proto bytes =
    let total_len = net_hdr_ip + length bytes in
    ip_header n dst_ip proto total_len (inet_checksum (ip_header n dst_ip proto total_len 0 []))
      bytes

unfoldable pub ip_send : Net → ℕ → ℕ → List ℕ → Bool × Net
unfolding ip_packet arp_lookup eth_send
ip_send n dst_ip proto bytes =
    if ltb (net_mtu - net_hdr_eth - net_hdr_ip) (length bytes)
    then (false, n)
    else eth_send n (arp_lookup n dst_ip) ethertype_ip (ip_packet n dst_ip proto bytes)
