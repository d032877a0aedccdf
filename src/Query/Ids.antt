-- ===== src/Query/Ids.antt =====
-- bin/src/query.rs: a random packet carries the id that it was asked for, and when it is whole
-- after a TCP connection.
use nailgun.Prelude.{
  ℕ, zero, suc, ◌+◌, ◌%◌, ◌≤◌, ◌<◌, ◌≡◌, refl, ap, ◌⊎◌, inl, inr, some, List, [], ◌++◌, arith, ltb,
  Bool-cases, length, take, drop, length-take, ok, u16_mod,
}
use nailgun.Msg.{buf_msg, msg_id, decode, u16_to_be_bytes}
use nailgun.Msg.Header.{msg_id_lem}
use nailgun.Msg.Framing.{tcp_frame, decode-tcp_frame, decode-tcp_frame_short}
use nailgun.Query.{RandomPkt, draw, random_pkt_next}

length-draw : (random : ℕ → ℕ) (from n : ℕ) → length (draw random from n) ≡ n
unfolding draw
length-draw random from zero = refl
length-draw random from (suc n) = ap suc (length-draw random (suc from) n)

-- A random packet is made for every id: it is two bytes longer than the length asked for, and the
-- id that a reader finds in it is the one that it was made for.
random_pkt_next-id :
    {Addr : Type 0} (addr : Addr) (g : RandomPkt) (id : ℕ)
    → (msg : List ℕ) × (g' : RandomPkt) × (random_pkt_next g id ≡ ok (some msg, g'))
      × (length msg ≡ 2 + g.len)
      × (msg_id (buf_msg msg addr) ≡ ok id)
      × (g'.len ≡ g.len)
unfolding random_pkt_next
random_pkt_next-id addr g id =
    let body = draw g.random g.drawn g.len in
    (
      u16_to_be_bytes id ++ body,
      record g { drawn = g.drawn + g.len },
      refl,
      omega (arith, length-draw g.random g.drawn g.len),
      (msg_id_lem addr id body []).0,
      refl,
    )

-- A random packet that is sent over TCP is decoded as it is if the length asked for is below 65534;
-- from there on, the decoder takes a shorter message for it.
pub decode-random_pkt :
    {Addr : Type 0} (target : Addr) (g g' : RandomPkt) (id : ℕ) (msg rest : List ℕ)
    → random_pkt_next g id ≡ ok (some msg, g')
    → ((g.len < 65534) × (decode target (tcp_frame msg ++ rest) ≡ ok (some (msg, target), rest)))
      ⊎ ((65534 ≤ g.len)
          × ((part left : List ℕ) × (decode target (tcp_frame msg ++ rest)
                ≡ ok (some (part, target), left))
              × (length part < length msg)))
unfolding random_pkt_next
decode-random_pkt target g g' id msg rest h =
    let body = draw g.random g.drawn g.len in
    let same : u16_to_be_bytes id ++ body ≡ msg = ground arith in
    let size : length msg ≡ 2 + g.len =
      omega (arith, ap length same, length-draw g.random g.drawn g.len) in
    let n = length msg % u16_mod in
    elim (Bool-cases (ltb g.len 65534)) [
      | inl small ↦
          let less : g.len < 65534 = ground arith in
          inl (less, decode-tcp_frame_short target msg rest (omega arith))
      | inr big ↦
          let more : 65534 ≤ g.len = ground arith in
          inr (
            more,
            (
              take n msg,
              drop n msg ++ rest,
              decode-tcp_frame target msg rest,
              omega (arith, length-take n msg),
            ),
          )
    ]
