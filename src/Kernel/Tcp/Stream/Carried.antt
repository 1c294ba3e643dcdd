-- ===== src/Kernel/Tcp/Stream/Carried.antt =====
-- What one segment of tcp_send becomes: a frame more that the card has taken, or a refusal.
use oxalyn.Base.{
  ℕ, zero, suc, ◌+◌, ◌≡◌, ◌≤◌, ◌<◌, ◌⊎◌, refl, sym, ap, ◌∙◌, true, false, not, ◌||◌, List, [], ◌∷◌,
  ◌++◌, inl, inr, Bool-cases, arith, length, take, drop, ltb, has,
}
use mathlib.Core.List.{append_assoc, append-nil}
use oxalyn.Kernel.Net.{Net, Mac, frame, ip_packet, ip_send, eth_send, arp_lookup, ethertype_ip}
use oxalyn.Kernel.Tcp.{
  TcpConn, tcp_send_segment, tcp_build_segment, tcp_header, tcp_checksum, ip_proto_tcp,
}

-- The data that some frames with the headers of Ethernet, IP and TCP carry, in the order in which
-- they were sent; the last frame stands first.
abbrev pub carried : List (List ℕ) → List ℕ
carried [] = []
carried (p ∷ ps) = carried ps ++ drop 54 p

carried-append :
    (ps : List (List ℕ)) (p : List ℕ) → carried (ps ++ p ∷ []) ≡ drop 54 p ++ carried ps
carried-append [] p = sym (append-nil (drop 54 p))
carried-append (q ∷ ps) p =
    ap (λ l. l ++ drop 54 q) (carried-append ps p)
    ∙ append_assoc (drop 54 p) (carried ps) (drop 54 q)

take_none {ℓ} : {A : Type ℓ} (n : ℕ) → take {A = A} n [] ≡ []
take_none zero = refl
take_none (suc n) = refl

take_more {ℓ} :
    {A : Type ℓ} (n k m : ℕ) (xs : List A) → n + k ≡ m → take n xs ++ take k (drop n xs) ≡ take m xs
take_more zero k m xs e = ap (λ j. take j xs) (omega arith)
take_more (suc n) k zero xs e = absurd (omega arith)
take_more (suc n) k (suc m) [] e = take_none k
take_more (suc n) k (suc m) (x ∷ xs) e = ap (λ l. x ∷ l) (take_more n k m xs (omega arith))

-- One frame before the others carries the data before theirs.
pub carried_more :
    (n k m : ℕ) (bytes : List ℕ) (ps : List (List ℕ)) (p : List ℕ)
    → n + k ≡ m
    → drop 54 p ≡ take n bytes
    → carried ps ≡ take k (drop n bytes)
    → carried (ps ++ p ∷ []) ≡ take m bytes
carried_more n k m bytes ps p e first more =
    carried-append ps p
    ∙ ap (λ l. l ++ carried ps) first
    ∙ ap (λ l. take n bytes ++ l) more
    ∙ take_more n k m bytes e

pub frames_more :
    (all mid old ps : List (List ℕ)) (p : List ℕ)
    → all ≡ ps ++ mid
    → mid ≡ p ∷ old
    → all ≡ ps ++ p ∷ [] ++ old
frames_more all mid old ps p e one = e ∙ ap (λ l. ps ++ l) one ∙ sym (append_assoc ps (p ∷ []) old)

-- A segment with more than 1464 bytes of data is refused by ip_send.
pub too_long :
    (n : Net) (c : TcpConn) (flags : ℕ) (bytes : List ℕ)
    → 1464 < length bytes
    → tcp_send_segment n c flags bytes ≡ (false, n)
unfolding tcp_send_segment tcp_build_segment ip_send
too_long n c flags bytes h = elim (Bool-cases (ltb 1518 (20 + length bytes))) [
  | inl a ↦ rw a refl
  | inr a ↦
      let seg =
        tcp_header c flags (tcp_checksum c.local_ip c.remote_ip (tcp_header c flags 0 bytes))
          bytes in
      let b : ltb 1484 (length seg) ≡ true = ground arith in rw (a, b) refl
]

eth_send-cases :
    (n : Net) (m : Mac) (t : ℕ) (payload : List ℕ)
    → length payload ≤ 1504
    → let (gone, n') = eth_send n m t payload in
      ((gone ≡ false) × (n'.sent ≡ n.sent) × (n'.tx_errors ≡ n.tx_errors + 1))
      ⊎ ((gone ≡ true) × (n'.sent ≡ frame n m t payload ∷ n.sent) × (n'.tx_errors ≡ n.tx_errors))
unfolding eth_send
eth_send-cases n m t payload h =
    let a : ltb 1504 (length payload) ≡ false = ground arith in
    elim (Bool-cases (not (has (n.status n.reads) 1) || has (n.status n.reads) 8)) [
      | inl b ↦ rw (a, b) (inl (refl, refl, refl))
      | inr b ↦ rw (a, b) (inr (refl, refl, refl))
    ]

-- The segment is refused, for its length or by the card, which counts it as an error; or the card
-- has taken one more frame, with the segment's data.
pub tcp_send_segment-cases :
    (n : Net) (c : TcpConn) (flags : ℕ) (bytes : List ℕ)
    → let (gone, n') = tcp_send_segment n c flags bytes in
      ((gone ≡ false)
        × (n'.sent ≡ n.sent)
        × ((1464 < length bytes) ⊎ (n'.tx_errors ≡ n.tx_errors + 1)))
      ⊎ ((gone ≡ true)
          × ((p : List ℕ) × (n'.sent ≡ p ∷ n.sent) × (drop 54 p ≡ bytes))
          × (n'.tx_errors ≡ n.tx_errors))
unfolding tcp_send_segment tcp_build_segment ip_send
tcp_send_segment-cases n c flags bytes = elim (Bool-cases (ltb 1464 (length bytes))) [
  | inl l ↦
      let long : 1464 < length bytes = ground arith in
      let out = too_long n c flags bytes long in
      inl (ap (λ r. r.0) out, ap (λ r. r.1.sent) out, inl long)
  | inr l ↦
      let csum = tcp_checksum c.local_ip c.remote_ip (tcp_header c flags 0 bytes) in
      let seg = tcp_header c flags csum bytes in
      let packet = ip_packet n c.remote_ip ip_proto_tcp seg in
      let m = arp_lookup n c.remote_ip in
      let a : ltb 1518 (20 + length bytes) ≡ false = ground arith in
      let b : ltb 1484 (length seg) ≡ false = ground arith in
      let fits : length packet ≤ 1504 = ground arith in
      elim (eth_send-cases n m ethertype_ip packet fits) [
        | inl (gone, same, err) ↦ rw (a, b) (inl (gone, same, inr err))
        | inr (gone, more, err) ↦
            rw (a, b) (inr (gone, (frame n m ethertype_ip packet, more, refl), err))
      ]
]
