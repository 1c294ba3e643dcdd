-- ===== src/Kernel/Tcp/Poll.antt =====
-- tcp_poll of kernel/tcp.c: what a packet does to the connections. A packet is the list of the bytes
-- that eth_recv gives, with the Ethernet header.
pub mod Delivery
use oxalyn.Base.{
  ℕ, zero, suc, ◌+◌, ◌-◌, ◌*◌, ◌/◌, ◌^◌, min, Bool, true, false, not, ◌&&◌, ◌||◌, Option, none,
  some, List, [], ◌∷◌, ◌++◌, ◌==◌, ltb, if◌then◌else◌, has, update, length, take, drop, get_or,
  add32, shr, bit_and,
}
use oxalyn.Kernel.Net.{Net}
use oxalyn.Kernel.Tcp.{
  TcpState, closed, syn_sent, syn_recv, established, fin_wait1, fin_wait2, close_wait, last_ack,
  time_wait, TcpConn, Tcp, put, tcp_send_segment, next_seed, fin, syn, psh, ack, tcp_buffer_size,
  tcp_header_size, tcp_max_connections, ip_proto_tcp,
}

pub record Segment : Type 0 where
  pub src_ip : ℕ
  pub src_port : ℕ
  pub dst_port : ℕ
  pub seq : ℕ
  pub ack_num : ℕ
  pub flags : ℕ
  pub bytes : List ℕ

-- Words of a packet. Of bytes, `a << 8 | b` is a sum.
abbrev pub read16 : List ℕ → ℕ → ℕ
read16 p i = get_or p i 0 * 2 ^ 8 + get_or p (i + 1) 0

abbrev pub read32 : List ℕ → ℕ → ℕ
read32 p i = read16 p i * 2 ^ 16 + read16 p (i + 2)

-- The length of the data is counted from the length of the packet; a negative one is 0.
unfoldable pub parse_packet : List ℕ → Option Segment
parse_packet p =
    let data_off = shr (get_or p 46 0) 4 * 4 in
    if ltb (length p) (14 + 20 + tcp_header_size)
    then none
    else if not (get_or p 23 0 == ip_proto_tcp)
    then none
    else some (record {
      src_ip = read32 p 26;
      src_port = read16 p 34;
      dst_port = read16 p 36;
      seq = read32 p 38;
      ack_num = read32 p 42;
      flags = get_or p 47 0;
      bytes = take (length p - 14 - 20 - data_off) (drop (34 + data_off) p);
    })

-- The segment comes from the peer of the connection.
abbrev pub is_peer : TcpConn → Segment → Bool
is_peer c s = c.remote_ip == s.src_ip && c.remote_port == s.src_port && c.local_port == s.dst_port

abbrev pub send_ack : Net → TcpConn → Net
send_ack n c = (tcp_send_segment n c ack []).1

unfoldable pub acked : TcpConn → Segment → TcpConn
acked c s =
    if has s.flags ack && ltb c.snd_una s.ack_num then record c { snd_una = s.ack_num } else c

-- The data that are in order and for which there is room are kept.
unfoldable pub received : TcpConn → Segment → TcpConn
received c s =
    let copy = min (length s.bytes) (tcp_buffer_size - length c.rcv_buf) in
    record c { rcv_buf = c.rcv_buf ++ take copy s.bytes; rcv_nxt = add32 c.rcv_nxt copy }

abbrev pub in_order : TcpConn → Segment → Bool
in_order c s = ltb 0 (length s.bytes) && s.seq == c.rcv_nxt

unfoldable pub take_data : Net → TcpConn → Segment → Net × TcpConn
unfolding received
take_data n c s = if in_order c s then (send_ack n (received c s), received c s) else (n, c)

unfoldable pub take_fin : Net → TcpConn → Segment → Net × TcpConn
take_fin n c s =
    let c' = record c { rcv_nxt = add32 c.rcv_nxt 1 } in
    let waiting = record c' { state = close_wait } in
    let n' = (tcp_send_segment (send_ack n c') waiting 17 []).1 in
    if has s.flags fin
    then (n', record waiting { snd_nxt = add32 c.snd_nxt 1; state = last_ack })
    else (n, c)

-- What a connection in the state `st` makes of a segment; `none` is no match.
unfoldable pub react : TcpState → Net → ℕ → TcpConn → Segment → Option (Net × ℕ × TcpConn)
unfolding acked take_data take_fin
react syn_sent n seed c s =
    let c' = record c { rcv_nxt = add32 s.seq 1; snd_una = s.ack_num; state = established } in
    if is_peer c s && bit_and s.flags 18 == 18 then some (send_ack n c', seed, c') else none
react syn_recv n seed c s =
    let isn = next_seed seed in
    let c' = record c {
      remote_ip = s.src_ip;
      remote_port = s.src_port;
      rcv_nxt = add32 s.seq 1;
      snd_nxt = isn;
      snd_una = isn;
    } in
    let n' = (tcp_send_segment n c' 18 []).1 in
    if c.local_port == s.dst_port && has s.flags syn && not (has s.flags ack)
    then some (n', isn, record c' { snd_nxt = add32 isn 1; state = established })
    else none
react established n seed c s =
    let (n1, c1) = take_data n (acked c s) s in
    let (n2, c2) = take_fin n1 c1 s in if is_peer c s then some (n2, seed, c2) else none
react last_ack n seed c s =
    if c.remote_ip == s.src_ip && has s.flags ack
    then some (n, seed, record c { state = closed; used = false })
    else none
react fin_wait1 n seed c s =
    let c' = record c { rcv_nxt = add32 c.rcv_nxt 1 } in
    let ended : Net × ℕ × TcpConn =
      (send_ack n c', seed, record c' { state = closed; used = false }) in
    if c.remote_ip == s.src_ip && has s.flags ack
    then some (if has s.flags fin then ended else (n, seed, record c { state = fin_wait2 }))
    else none
react st n seed c s = none

unfoldable pub reply : Tcp → ℕ → Segment → Option (Net × ℕ × TcpConn)
unfolding react
reply t i s = let c = t.conns i in if c.used then react c.state t.net t.isn_seed c s else none

abbrev pub settle : Tcp → ℕ → Tcp → Option (Net × ℕ × TcpConn) → Tcp
settle t i rest none = rest
settle t i rest (some (net, seed, c)) = put (record t { net = net; isn_seed = seed }) i c

-- The first of the `left` connections from `i` on that matches takes the segment.
unfoldable pub deliver : ℕ → ℕ → Tcp → Segment → Tcp
unfolding reply
deliver zero i t s = t
deliver (suc left) i t s = let rest = deliver left (i + 1) t s in settle t i rest (reply t i s)

abbrev pub poll_segment : Tcp → Option Segment → Tcp
unfolding deliver
poll_segment t none = t
poll_segment t (some s) = deliver tcp_max_connections 0 t s

unfoldable pub poll_one : Tcp → List ℕ → Tcp
unfolding parse_packet poll_segment
poll_one t p = poll_segment t (parse_packet p)

-- All the packets that wait.
unfoldable pub tcp_poll : Tcp → List (List ℕ) → Tcp
unfolding poll_one
tcp_poll t [] = t
tcp_poll t (p ∷ ps) = tcp_poll (poll_one t p) ps
