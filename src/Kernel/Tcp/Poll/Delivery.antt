-- ===== src/Kernel/Tcp/Poll/Delivery.antt =====
-- What tcp_poll does to one connection of the table.
use oxalyn.Base.{
  ℕ, zero, suc, ◌+◌, ◌≡◌, refl, sym, ap, ◌∙◌, subst, Bool, true, false, Option, none, some, List,
  [], ◌∷◌, inl, inr, if◌then◌else◌, update, update_self, update-ne, Option-cases,
}
use oxalyn.Kernel.Search.Laws.{alike}
use oxalyn.Kernel.Net.{Net}
use oxalyn.Kernel.Tcp.{TcpConn, Tcp, tcp_max_connections, fin_wait2}
use oxalyn.Kernel.Tcp.Poll.{
  Segment, parse_packet, react, reply, deliver, poll_segment, poll_one, tcp_poll,
}

-- What one entry of the table satisfies after one entry is written.
pub put-keeps {ℓ} :
    (P : TcpConn → Type ℓ) (t : Tcp) (i : ℕ) (c : TcpConn) (k : ℕ)
    → P (t.conns k)
    → (i ≡ k → P c)
    → P (update t.conns i c k)
put-keeps P t i c k old here = elim (alike i k) [
  | inl e ↦ rw (e, update_self t.conns i c) (here (sym e))
  | inr e ↦ rw (update-ne t.conns i c k e) old
]

-- `P` is kept by whatever the connection makes of the segment.
abbrev pub Kept {ℓ} : (TcpConn → Type ℓ) → Segment → Type ℓ
Kept P s =
    (n : Net) (seed : ℕ) (c : TcpConn) (r : Net × ℕ × TcpConn)
    → P c
    → react c.state n seed c s ≡ some r
    → P r.2

if_some {ℓ} :
    {A : Type ℓ} (b : Bool) (o : Option A) {a : A} → (if b then o else none) ≡ some a → o ≡ some a
if_some true o e = e
if_some false o e = cc

reply-keeps {ℓ} :
    (P : TcpConn → Type ℓ) (t : Tcp) (i : ℕ) (s : Segment) (r : Net × ℕ × TcpConn)
    → Kept P s
    → P (t.conns i)
    → reply t i s ≡ some r
    → P r.2
unfolding reply
reply-keeps P t i s r keep p e =
    keep t.net t.isn_seed (t.conns i) r p
      (if_some (t.conns i).used (react (t.conns i).state t.net t.isn_seed (t.conns i) s) e)

pub deliver-keeps {ℓ} :
    (P : TcpConn → Type ℓ) (left i k : ℕ) (t : Tcp) (s : Segment)
    → Kept P s
    → P (t.conns k)
    → P ((deliver left i t s).conns k)
unfolding deliver
deliver-keeps P zero i k t s keep p = p
deliver-keeps P (suc left) i k t s keep p = elim (Option-cases (reply t i s)) [
  | inl e ↦ rw e (deliver-keeps P left (i + 1) k t s keep p)
  | inr ((net, seed, c), e) ↦ rw e (
      put-keeps P t i c k p
        (λ q. reply-keeps P t i s (net, seed, c) keep (subst (λ j. P (t.conns j)) (sym q) p) e))
]

-- Every segment among the packets keeps `P`.
abbrev pub AllKept {ℓ} : (TcpConn → Type ℓ) → List (List ℕ) → Type ℓ
AllKept P [] = Unit
AllKept P (p ∷ ps) = ((s : Segment) → parse_packet p ≡ some s → Kept P s) × AllKept P ps

poll_one-keeps {ℓ} :
    (P : TcpConn → Type ℓ) (t : Tcp) (p : List ℕ) (k : ℕ)
    → ((s : Segment) → parse_packet p ≡ some s → Kept P s)
    → P (t.conns k)
    → P ((poll_one t p).conns k)
unfolding poll_one poll_segment
poll_one-keeps P t p k keep h = elim (Option-cases (parse_packet p)) [
  | inl e ↦ rw e h
  | inr (s, e) ↦ rw e (deliver-keeps P tcp_max_connections 0 k t s (keep s e) h)
]

pub tcp_poll-keeps {ℓ} :
    (P : TcpConn → Type ℓ) (t : Tcp) (ps : List (List ℕ)) (k : ℕ)
    → AllKept P ps
    → P (t.conns k)
    → P ((tcp_poll t ps).conns k)
unfolding tcp_poll
tcp_poll-keeps P t [] k keep h = h
tcp_poll-keeps P t (p ∷ ps) k keep h =
    tcp_poll-keeps P (poll_one t p) ps k keep.1 (poll_one-keeps P t p k keep.0 h)

always {ℓ} : (P : TcpConn → Type ℓ) (ps : List (List ℕ)) → ((s : Segment) → Kept P s) → AllKept P ps
always P [] keep = tt
always P (p ∷ ps) keep = (λ s e. keep s, always P ps keep)

-- Whatever packets come, a connection that waits for the peer's FIN (FIN_WAIT2) stays as it is: the
-- FIN does not end it, and its place in the table stays taken.
pub tcp_poll-fin_wait2 :
    (t : Tcp) (ps : List (List ℕ)) (k : ℕ)
    → (t.conns k).state ≡ fin_wait2
    → (tcp_poll t ps).conns k ≡ t.conns k
unfolding react
tcp_poll-fin_wait2 t ps k w =
    tcp_poll-keeps (λ c. c ≡ t.conns k) t ps k
      (always (λ c. c ≡ t.conns k) ps
        (λ s n seed c r e m.
          let st : c.state ≡ fin_wait2 = ap (λ (x : TcpConn). x.state) e ∙ w in
          let clash : none ≡ some r = subst (λ x. react x n seed c s ≡ some r) st m in absurd (cc)))
      refl
