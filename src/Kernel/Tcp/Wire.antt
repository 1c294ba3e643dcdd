-- ===== src/Kernel/Tcp/Wire.antt =====
-- A segment on its way: what tcp_send_segment gives to the card against what tcp_poll reads.
use oxalyn.Base.{
  ℕ, ◌+◌, ◌-◌, ◌*◌, ◌/◌, ◌^◌, ◌≡◌, ◌<◌, refl, ap, true, false, not, ◌||◌, some, List, [], ◌∷◌, inl,
  inr, Bool-cases, arith, length, take, u8, ltb, has,
}
use oxalyn.Kernel.Net.{
  Net, Mac, frame, ip_header, ip_packet, ip_send, eth_send, arp_lookup, ethertype_ip, inet_checksum,
}
use oxalyn.Kernel.Tcp.{
  TcpConn, tcp_send_segment, tcp_build_segment, tcp_header, tcp_checksum, ip_proto_tcp,
}
use oxalyn.Kernel.Tcp.Poll.{Segment, parse_packet}

-- The fields that C keeps in 16 and 32 bits.
pub record Fits (n : Net) (c : TcpConn) : Type 0 where
  pub ip : n.ip < 2 ^ 32
  pub ports : (c.local_port < 2 ^ 16) × (c.remote_port < 2 ^ 16)
  pub numbers : (c.snd_nxt < 2 ^ 32) × (c.rcv_nxt < 2 ^ 32)

abbrev segment_of : Net → TcpConn → ℕ → List ℕ → Segment
segment_of n c flags bytes = record {
  src_ip = n.ip;
  src_port = c.local_port;
  dst_port = c.remote_port;
  seq = c.snd_nxt;
  ack_num = c.rcv_nxt;
  flags = flags;
  bytes = bytes;
}

abbrev on_wire : Net → TcpConn → Mac → ℕ → ℕ → ℕ → ℕ → List ℕ → List ℕ
on_wire n c m total csum tcp_csum flags bytes =
    frame n m ethertype_ip
      (ip_header n c.remote_ip ip_proto_tcp total csum (tcp_header c flags tcp_csum bytes))

word16 : (v : ℕ) → v < 2 ^ 16 → u8 (v / 2 ^ 8) * 2 ^ 8 + u8 v ≡ v
word16 v h = omega arith

word32 :
    (v : ℕ)
    → v < 2 ^ 32
    → (u8 (v / 2 ^ 24) * 2 ^ 8 + u8 (v / 2 ^ 16)) * 2 ^ 16 + (u8 (v / 2 ^ 8) * 2 ^ 8 + u8 v) ≡ v
word32 v h = omega arith

take_all {ℓ} : {A : Type ℓ} (xs : List A) → take (length xs) xs ≡ xs
take_all [] = refl
take_all (x ∷ xs) = ap (λ l. x ∷ l) (take_all xs)

parse_on_wire :
    (n : Net) (c : TcpConn) (m : Mac) (total csum tcp_csum flags : ℕ) (bytes : List ℕ)
    → Fits n c
    → flags < 2 ^ 8
    → parse_packet (on_wire n c m total csum tcp_csum flags bytes)
      ≡ some (segment_of n c flags bytes)
unfolding parse_packet
parse_on_wire n c m total csum tcp_csum flags bytes w h =
    let p = on_wire n c m total csum tcp_csum flags bytes in
    let long : ltb (length p) 54 ≡ false = ground arith in
    let whole : length p - 14 - 20 - 20 ≡ length bytes = omega arith in
    let byte : u8 flags ≡ flags = omega arith in
    rw
      (
        long,
        whole,
        take_all bytes,
        byte,
        word32 n.ip w.ip,
        word16 c.local_port w.ports.0,
        word16 c.remote_port w.ports.1,
        word32 c.snd_nxt w.numbers.0,
        word32 c.rcv_nxt w.numbers.1,
      )
      refl

eth_sent :
    (n : Net) (m : Mac) (t : ℕ) (payload : List ℕ)
    → (eth_send n m t payload).0 ≡ true
    → (eth_send n m t payload).1.sent ≡ frame n m t payload ∷ n.sent
unfolding eth_send
eth_sent n m t payload e = elim (Bool-cases (ltb 1504 (length payload))) [
  | inl a ↦ let clash : false ≡ true = rw a at e in absurd (cc)
  | inr a ↦ elim (Bool-cases (not (has (n.status n.reads) 1) || has (n.status n.reads) 8)) [
    | inl b ↦ let clash : false ≡ true = rw (a, b) at e in absurd (cc)
    | inr b ↦ rw (a, b) refl
  ]
]

ip_sent :
    (n : Net) (ip proto : ℕ) (bytes : List ℕ)
    → (ip_send n ip proto bytes).0 ≡ true
    → (ip_send n ip proto bytes).1.sent
      ≡ frame n (arp_lookup n ip) ethertype_ip (ip_packet n ip proto bytes) ∷ n.sent
unfolding ip_send
ip_sent n ip proto bytes e = elim (Bool-cases (ltb 1484 (length bytes))) [
  | inl a ↦ let clash : false ≡ true = rw a at e in absurd (cc)
  | inr a ↦
      rw a (eth_sent n (arp_lookup n ip) ethertype_ip (ip_packet n ip proto bytes) (rw a at e))
]

segment_sent :
    (n : Net) (c : TcpConn) (flags : ℕ) (bytes : List ℕ)
    → (tcp_send_segment n c flags bytes).0 ≡ true
    → (tcp_send_segment n c flags bytes).1.sent
      ≡ frame n (arp_lookup n c.remote_ip) ethertype_ip (
          ip_packet n c.remote_ip ip_proto_tcp (
            tcp_header c flags
              (tcp_checksum c.local_ip c.remote_ip (tcp_header c flags 0 bytes))
              bytes))
        ∷ n.sent
unfolding tcp_send_segment tcp_build_segment
segment_sent n c flags bytes e = elim (Bool-cases (ltb 1518 (20 + length bytes))) [
  | inl a ↦ let clash : false ≡ true = rw a at e in absurd (cc)
  | inr a ↦ rw a (
      ip_sent n c.remote_ip ip_proto_tcp
        (tcp_header c flags (tcp_checksum c.local_ip c.remote_ip (tcp_header c flags 0 bytes))
          bytes)
        (rw a at e))
]

-- A segment that tcp_send_segment has given to the card is in the frame given to it last, and
-- tcp_poll on the other side reads from that frame the address and the ports of the sender, the
-- sequence and the acknowledgement number, the flags and the data of the segment. The fields are
-- within their C types.
pub parse_packet-tcp_send_segment :
    (n : Net) (c : TcpConn) (flags : ℕ) (bytes : List ℕ)
    → Fits n c
    → flags < 2 ^ 8
    → (tcp_send_segment n c flags bytes).0 ≡ true
    → (p : List ℕ) × ((tcp_send_segment n c flags bytes).1.sent ≡ p ∷ n.sent)
      × (parse_packet p
          ≡ some (record {
            src_ip = n.ip;
            src_port = c.local_port;
            dst_port = c.remote_port;
            seq = c.snd_nxt;
            ack_num = c.rcv_nxt;
            flags = flags;
            bytes = bytes;
          }))
unfolding inet_checksum
parse_packet-tcp_send_segment n c flags bytes w h sent = (
  _,
  segment_sent n c flags bytes sent,
  parse_on_wire n c (arp_lookup n c.remote_ip) _ _
      (tcp_checksum c.local_ip c.remote_ip (tcp_header c flags 0 bytes)) flags bytes w h,
)
