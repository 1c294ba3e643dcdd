-- ===== src/Kernel/Tcp/Session.antt =====
-- A connection in use: packets come in while the program sends, receives and closes.
pub mod Order
use oxalyn.Base.{
  ℕ, zero, suc, ◌+◌, ◌-◌, ◌%◌, ◌^◌, ◌≡◌, ◌≢◌, ◌≤◌, ◌<◌, min, refl, sym, ap, ◌∙◌, subst, Bool, true,
  false, not, ◌&&◌, Option, none, some, List, [], ◌∷◌, ◌++◌, inl, inr, if◌then◌else◌, update,
  Option-cases, Bool-cases, arith, length, take, drop, u32, add32, ltb, ◌==◌, ==_iff, update_self,
  update-ne, length-drop, take-append-drop,
}
use mathlib.Core.List.{append_assoc, append-nil}
use oxalyn.Base.Int.{ℤ, pos, negsuc}
use oxalyn.Kernel.Net.{Net}
use oxalyn.Kernel.Tcp.{
  TcpConn, Tcp, TcpState, closed, syn_sent, syn_recv, established, fin_wait1, fin_wait2, close_wait,
  last_ack, time_wait, tcp_buffer_size, put, tcp_get_conn, tcp_send_segment,
}
use oxalyn.Kernel.Tcp.Stream.{
  is_established, tcp_send, tcp_recv, tcp_close, send_chunks, seg_data_max, send_result, send_at,
  recv_at, close_conn, close_at,
}
use oxalyn.Kernel.Tcp.Poll.{Segment, parse_packet, tcp_poll}
use oxalyn.Kernel.Tcp.Poll.Delivery.{Kept, AllKept, put-keeps, tcp_poll-keeps}
use oxalyn.Kernel.Tcp.Flow.{
  Flow, Honest, span, react-Flow, stays, leaves, Answers, is_opening, SamePeer,
}

pub data Use : Type 0 where
  polls : List (List ℕ) → Use
  sends : ℤ → List ℕ → Use
  receives : ℤ → ℕ → Use
  closes : ℤ → Use

unfoldable pub after : Tcp → Use → Tcp
after t (polls ps) = tcp_poll t ps
after t (sends id bytes) = (tcp_send t id bytes).1
after t (receives id maxlen) = (tcp_recv t id maxlen).1
after t (closes id) = tcp_close t id

-- The bytes that a use reads from the connection `k`.
unfoldable pub heard : ℕ → Tcp → Use → List ℕ
heard k t (receives (pos i) maxlen) = if i == k then (tcp_recv t (pos i) maxlen).0 else []
heard k t _ = []

-- The state after the uses, and all the bytes read from the connection `k`.
unfoldable pub session : ℕ → Tcp → List Use → Tcp × List ℕ
unfolding after heard
session k t [] = (t, [])
session k t (u ∷ us) = let rest = session k (after t u) us in (rest.0, heard k t u ++ rest.1)

-- Whatever comes from the connection's peer is its stream.
abbrev pub HonestPackets : (ℕ → ℕ) → TcpConn → List (List ℕ) → Type 0
HonestPackets f origin [] = Unit {0}
HonestPackets f origin (p ∷ ps) =
    ((s : Segment) → parse_packet p ≡ some s → Honest f origin s) × HonestPackets f origin ps

abbrev pub HonestUse : (ℕ → ℕ) → TcpConn → Use → Type 0
HonestUse f origin (polls ps) = HonestPackets f origin ps
HonestUse f origin _ = Unit {0}

abbrev pub HonestUses : (ℕ → ℕ) → TcpConn → List Use → Type 0
HonestUses f origin [] = Unit {0}
HonestUses f origin (u ∷ us) = HonestUse f origin u × HonestUses f origin us
