-- ===== src/Kernel/Tcp.antt =====
-- kernel/tcp.c: the connections of TCP, how they are set up, and how a segment is built. A
-- connection keeps the first `rcv_len` bytes of its receive buffer as a list; its send buffer, which
-- no code uses, is left out.
pub mod Stream
pub mod Poll
pub mod Flow
pub mod Session
pub mod Wire
mod Tests
use oxalyn.Base.{
  ℕ, zero, suc, ◌+◌, ◌-◌, ◌*◌, ◌/◌, ◌%◌, ◌^◌, min, Bool, true, false, not, ◌&&◌, ◌||◌, Option, none,
  some, List, [], ◌∷◌, ◌++◌, ◌==◌, ltb, leb, if◌then◌else◌, has, update, length, take, drop, get_or,
  u8, u32, add32, shr, bit_and, bit_xor,
}
use oxalyn.Base.Int.{ℤ, pos, negsuc}
use oxalyn.Kernel.Search.{find}
use oxalyn.Kernel.Net.{Net, be16, be32, sum_words, fold_carry, complement16, ip_send, net_mtu}

abbrev pub tcp_max_connections : ℕ
tcp_max_connections = 8

abbrev pub tcp_buffer_size : ℕ
tcp_buffer_size = 1024

abbrev pub tcp_header_size : ℕ
tcp_header_size = 20

abbrev pub ip_proto_tcp : ℕ
ip_proto_tcp = 6

abbrev pub fin : ℕ
fin = 1

abbrev pub syn : ℕ
syn = 2

abbrev pub psh : ℕ
psh = 8

abbrev pub ack : ℕ
ack = 16

pub data TcpState : Type 0 where
  closed syn_sent syn_recv established fin_wait1 fin_wait2 close_wait last_ack time_wait : TcpState

pub record TcpConn : Type 0 where
  pub state : TcpState
  pub local_ip : ℕ
  pub remote_ip : ℕ
  pub local_port : ℕ
  pub remote_port : ℕ
  pub snd_nxt : ℕ
  pub snd_una : ℕ
  pub rcv_nxt : ℕ
  pub rcv_wnd : ℕ
  pub rcv_buf : List ℕ
  pub used : Bool

pub record Tcp : Type 0 where
  pub conns : ℕ → TcpConn
  pub isn_seed : ℕ
  pub net : Net

unfoldable pub next_seed : ℕ → ℕ
next_seed seed =
    let a = bit_xor seed (u32 (seed * 2 ^ 13)) in
    let b = bit_xor a (shr a 17) in bit_xor b (u32 (b * 2 ^ 5))

unfoldable pub alloc_conn : Tcp → Option ℕ
unfolding find
alloc_conn t = find tcp_max_connections 0 (λ i. not (t.conns i).used)

unfoldable pub tcp_checksum : ℕ → ℕ → List ℕ → ℕ
unfolding sum_words fold_carry
tcp_checksum src_ip dst_ip seg =
    let pseudo =
      shr src_ip 16 % 2 ^ 16
      + src_ip % 2 ^ 16
      + shr dst_ip 16 % 2 ^ 16
      + dst_ip % 2 ^ 16
      + ip_proto_tcp
      + length seg in
    complement16 (fold_carry 3 (sum_words (u32 pseudo) seg))

-- The header with the given checksum, before the data. The offset is 5 words.
abbrev pub tcp_header : TcpConn → ℕ → ℕ → List ℕ → List ℕ
tcp_header c flags csum bytes = be16 c.local_port (
    be16 c.remote_port (
      be32 c.snd_nxt
        (be32 c.rcv_nxt (0x50 ∷ u8 flags ∷ be16 c.rcv_wnd (be16 csum (0 ∷ 0 ∷ bytes))))))

-- The segment, if it fits `out_cap` bytes.
unfoldable pub tcp_build_segment : TcpConn → ℕ → List ℕ → ℕ → Option (List ℕ)
unfolding tcp_checksum
tcp_build_segment c flags bytes out_cap =
    let csum = tcp_checksum c.local_ip c.remote_ip (tcp_header c flags 0 bytes) in
    if ltb out_cap (tcp_header_size + length bytes)
    then none
    else some (tcp_header c flags csum bytes)

abbrev pub send_built : Net → TcpConn → Option (List ℕ) → Bool × Net
send_built n c none = (false, n)
send_built n c (some seg) = ip_send n c.remote_ip ip_proto_tcp seg

unfoldable pub tcp_send_segment : Net → TcpConn → ℕ → List ℕ → Bool × Net
unfolding tcp_build_segment ip_send
tcp_send_segment n c flags bytes = send_built n c (tcp_build_segment c flags bytes net_mtu)

abbrev pub put : Tcp → ℕ → TcpConn → Tcp
put t i c = record t { conns = update t.conns i c }

abbrev pub wiped : TcpConn
wiped = record {
  state = closed;
  local_ip = 0;
  remote_ip = 0;
  local_port = 0;
  remote_port = 0;
  snd_nxt = 0;
  snd_una = 0;
  rcv_nxt = 0;
  rcv_wnd = 0;
  rcv_buf = [];
  used = false;
}

unfoldable pub tcp_init : Tcp → Tcp
tcp_init t = record t { conns = λ i. wiped }

-- A connection that sends its SYN: it is given back if that fails.
unfoldable pub connect_at : Tcp → ℕ → ℕ → ℕ → Option ℕ → Option ℕ × Tcp
unfolding next_seed tcp_send_segment
connect_at t dst_ip dst_port src_port none = (none, t)
connect_at t dst_ip dst_port src_port (some i) =
    let isn = next_seed t.isn_seed in
    let c : TcpConn = record {
      state = syn_sent;
      local_ip = t.net.ip;
      remote_ip = dst_ip;
      local_port = src_port;
      remote_port = dst_port;
      snd_nxt = isn;
      snd_una = isn;
      rcv_nxt = 0;
      rcv_wnd = tcp_buffer_size;
      rcv_buf = [];
      used = true;
    } in
    let (sent, net) = tcp_send_segment t.net c syn [] in
    let t' = record t { isn_seed = isn; net = net } in
    if sent
    then (some i, put t' i (record c { snd_nxt = add32 isn 1 }))
    else (none, put t' i (record c { used = false }))

unfoldable pub tcp_connect : Tcp → ℕ → ℕ → ℕ → Option ℕ × Tcp
unfolding connect_at alloc_conn
tcp_connect t dst_ip dst_port src_port = connect_at t dst_ip dst_port src_port (alloc_conn t)

unfoldable pub listen_at : Tcp → ℕ → Option ℕ → Option ℕ × Tcp
listen_at t port none = (none, t)
listen_at t port (some i) = (
  some i,
  put t i (record wiped {
    used = true;
    state = syn_recv;
    local_ip = t.net.ip;
    local_port = port;
    rcv_wnd = tcp_buffer_size;
  }),
)

unfoldable pub tcp_listen : Tcp → ℕ → Option ℕ × Tcp
unfolding listen_at alloc_conn
tcp_listen t port = listen_at t port (alloc_conn t)

-- The connection of a number, if it is in use.
unfoldable pub tcp_get_conn : Tcp → ℤ → Option ℕ
tcp_get_conn t (negsuc n) = none
tcp_get_conn t (pos i) = if ltb i tcp_max_connections && (t.conns i).used then some i else none
