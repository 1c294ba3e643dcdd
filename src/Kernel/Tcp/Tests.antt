-- ===== src/Kernel/Tcp/Tests.antt =====
-- A host with one connection, and the theorems of kernel/tcp.c at it.
use oxalyn.Base.{
  ℕ, zero, suc, ◌+◌, ◌-◌, ◌≡◌, ◌≤◌, refl, sym, ap, ◌∙◌, subst, Option, none, true, false, List, [],
  ◌∷◌, ◌++◌, some, length, take, ◌<◌, ◌⊎◌, arith, if◌then◌else◌, ◌==◌, u32,
}
use oxalyn.Base.Int.{pos}
use oxalyn.Kernel.Net.{Net, broadcast, frame, ip_header}
use oxalyn.Kernel.Tcp.{
  TcpConn, Tcp, established, fin_wait2, wiped, tcp_send_segment, tcp_header, tcp_buffer_size,
}
use oxalyn.Kernel.Tcp.Stream.{send_chunks}
use oxalyn.Kernel.Tcp.Stream.Carried.{carried}
use oxalyn.Kernel.Tcp.Stream.Chunks.{send_chunks_ends}
use oxalyn.Kernel.Tcp.Poll.{Segment, parse_packet, tcp_poll}
use oxalyn.Kernel.Tcp.Poll.Delivery.{tcp_poll-fin_wait2}
use oxalyn.Kernel.Tcp.Flow.{span, Honest, Carries}
use oxalyn.Kernel.Tcp.Session.{Use, polls, sends, receives, closes, session, HonestUses}
use oxalyn.Kernel.Tcp.Session.Order.{session_stream}
use oxalyn.Kernel.Tcp.Wire.{Fits, parse_packet-tcp_send_segment}

-- A card that is always ready, and no known neighbours.
abbrev net : Net
net = record {
  ip = 0xC0A80064;
  mac = broadcast;
  arp_table = λ i. record { ip = 0; mac = broadcast; valid = false };
  tx_packets = 0;
  tx_errors = 0;
  status = λ i. 1;
  reads = 0;
  sent = [];
}

abbrev conn : TcpConn
conn = record wiped {
  state = established;
  local_ip = 0xC0A80064;
  remote_ip = 0xC0A80001;
  local_port = 1025;
  remote_port = 80;
  snd_nxt = 7;
  snd_una = 7;
  rcv_nxt = 100;
  rcv_wnd = 1024;
  used = true;
}

abbrev host : Tcp
host = record { conns = λ i. if i == 0 then conn else wiped; isn_seed = 1; net = net }

-- The peer's bytes 5, 6, 7 at the sequence number 100, in a packet.
abbrev stream : ℕ → ℕ
stream a = if a == 100 then 5 else if a == 101 then 6 else 7

abbrev peer : TcpConn
peer = record conn { local_port = 80; remote_port = 1025; snd_nxt = 100; rcv_nxt = 7 }

abbrev packet : List ℕ
packet = frame net broadcast 0x0800 (
    ip_header (record net { ip = 0xC0A80001 }) 0xC0A80064 6 43 0
      (tcp_header peer 24 0 (5 ∷ 6 ∷ 7 ∷ [])))

abbrev segment : Segment
segment = record {
  src_ip = 0xC0A80001;
  src_port = 80;
  dst_port = 1025;
  seq = 100;
  ack_num = 7;
  flags = 24;
  bytes = 5 ∷ 6 ∷ 7 ∷ [];
}

packet-segment : parse_packet packet ≡ some segment
unfolding parse_packet
packet-segment = refl

carries : Carries stream 100 (5 ∷ 6 ∷ 7 ∷ [])
carries zero h = refl
carries (suc zero) h = refl
carries (suc (suc zero)) h = refl
carries (suc (suc (suc j))) h = absurd (omega arith)

abbrev or_segment : Option Segment → Segment
or_segment none = segment
or_segment (some s) = s

-- The packet comes twice, and one that is too short.
abbrev uses : List Use
uses =
    sends (pos 0) (1 ∷ 2 ∷ [])
    ∷ polls (packet ∷ (0 ∷ []) ∷ packet ∷ [])
    ∷ receives (pos 0) 2
    ∷ closes (pos 0)
    ∷ []

packet-Honest : (s : Segment) → parse_packet packet ≡ some s → Honest stream conn s
packet-Honest s e =
    subst (Honest stream conn) (ap or_segment (sym packet-segment ∙ e)) (λ ours. carries)

short-Honest : (s : Segment) → parse_packet (0 ∷ []) ≡ some s → Honest stream conn s
unfolding parse_packet
short-Honest s e = absurd (cc)

uses-HonestUses : HonestUses stream conn uses
uses-HonestUses = (tt, ((packet-Honest, (short-Honest, (packet-Honest, tt))), (tt, (tt, tt))))

session_stream_example :
    let (t', read) = session 0 host uses in
    ((n : ℕ) × (read ++ (t'.conns 0).rcv_buf ≡ [] ++ span stream 100 n))
    × (length (t'.conns 0).rcv_buf ≤ tcp_buffer_size)
session_stream_example =
    session_stream stream host 0 uses refl (omega arith) (omega arith) uses-HonestUses

abbrev leaving : Tcp
leaving = record host { conns = λ i. record conn { state = fin_wait2 } }

tcp_poll-fin_wait2_example : (tcp_poll leaving ((1 ∷ []) ∷ [])).conns 3 ≡ leaving.conns 3
tcp_poll-fin_wait2_example = tcp_poll-fin_wait2 leaving ((1 ∷ []) ∷ []) 3 refl

conn-Fits : Fits net conn
conn-Fits = record {
  ip = omega arith;
  ports = (omega arith, omega arith);
  numbers = (omega arith, omega arith);
}

goes : (tcp_send_segment net conn 24 (1 ∷ 2 ∷ [])).0 ≡ true
unfolding tcp_send_segment
goes = refl

parse_packet-tcp_send_segment_example :
    (p : List ℕ) × ((tcp_send_segment net conn 24 (1 ∷ 2 ∷ [])).1.sent ≡ p ∷ [])
    × (parse_packet p
        ≡ some (record {
          src_ip = 0xC0A80064;
          src_port = 1025;
          dst_port = 80;
          seq = 7;
          ack_num = 100;
          flags = 24;
          bytes = 1 ∷ 2 ∷ [];
        }))
parse_packet-tcp_send_segment_example =
    parse_packet-tcp_send_segment net conn 24 (1 ∷ 2 ∷ []) conn-Fits (omega arith) goes

send_chunks_ends_example :
    (r : ℕ × Net × TcpConn) × (send_chunks 3 net conn (1 ∷ 2 ∷ []) 0 ≡ some r)
    × (0 ≤ r.0)
    × (r.0 ≤ 0 + 2)
    × (r.2.snd_nxt ≡ u32 (7 + (r.0 - 0)))
    × ((ps : List (List ℕ)) × (r.1.sent ≡ ps ++ []) × (carried ps ≡ take (r.0 - 0) (1 ∷ 2 ∷ [])))
    × (((r.0 ≡ 0 + 2) × (r.1.tx_errors ≡ 0)) ⊎ ((1464 < 0 + 2 - r.0) ⊎ (r.1.tx_errors ≡ 0 + 1)))
send_chunks_ends_example = send_chunks_ends 3 net conn (1 ∷ 2 ∷ []) 0 (omega arith) (omega arith)
