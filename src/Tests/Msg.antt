-- ===== src/Tests/Msg.antt =====
-- Messages and frames at concrete inputs: bin/src/msg.rs, bin/src/query.rs.
use nailgun.Prelude.{
  ℕ, ◌+◌, ◌*◌, ◌≤◌, ◌<◌, ◌≡◌, refl, ◌⊎◌, none, some, List, [], ◌∷◌, ◌++◌, arith, ◌==◌, length, take,
  Fault, ok, err,
}
use nailgun.Msg.{buf_msg, msg_id, decode, u16_to_be_bytes}
use nailgun.Msg.Header.{msg_id_lem}
use nailgun.Msg.Framing.{tcp_frame, frames, drain, drain-frames, decode_cases}
use nailgun.Query.{RandomPkt, random_pkt_next, Dns, line_message}
use nailgun.Query.Ids.{decode-random_pkt}

abbrev peer : ℕ
peer = 7

abbrev first_msg : List ℕ
first_msg = 1 ∷ 2 ∷ 3 ∷ []

abbrev partial_frame : List ℕ
partial_frame = 0 ∷ 1 ∷ 9 ∷ []

abbrev second_msg : List ℕ
second_msg = 9 ∷ []

decode_cases_example :
    (decode peer (0 ∷ 1 ∷ 9 ∷ []) ≡ ok (none, 0 ∷ 1 ∷ 9 ∷ []))
    ⊎ ((hi lo : ℕ) × (msg rest : List ℕ) × (decode peer (0 ∷ 1 ∷ 9 ∷ [])
          ≡ ok (some (msg, peer), rest))
        × (partial_frame ≡ hi ∷ lo ∷ (msg ++ rest))
        × (length msg ≡ hi * 256 + lo))
decode_cases_example = decode_cases peer (0 ∷ 1 ∷ 9 ∷ [])

drain-frames_example :
    drain peer 3 (frames (first_msg ∷ second_msg ∷ []) ++ take 4 (tcp_frame first_msg))
    ≡ ((first_msg, peer) ∷ (second_msg, peer) ∷ [], take 4 (tcp_frame first_msg))
drain-frames_example =
    drain-frames peer (first_msg ∷ second_msg ∷ []) first_msg 4 3 (omega arith) (omega arith)
      (omega arith) (omega arith)

abbrev packets : RandomPkt
packets = record { len = 3; random = λ n. n; drawn = 0 }

abbrev packet : List ℕ
packet = 2 ∷ 3 ∷ 0 ∷ 1 ∷ 2 ∷ []

decode-random_pkt_example :
    ((3 < 65534)
      × (decode peer (tcp_frame packet ++ second_msg) ≡ ok (some (packet, peer), second_msg)))
    ⊎ ((65534 ≤ 3)
        × ((part left : List ℕ) × (decode peer (tcp_frame packet ++ second_msg)
              ≡ ok (some (part, peer), left))
            × (length part < length packet)))
unfolding random_pkt_next
decode-random_pkt_example =
    decode-random_pkt peer packets (record packets { drawn = 3 }) 515 packet second_msg refl

-- A line of a file: a name, a type, and words that are passed over.
abbrev pub plain : Dns (List ℕ) (List ℕ) ℕ
plain = record {
  name_from_ascii = λ s. some s;
  name_from_str = λ s. some s;
  record_type_from_str = λ s. some s;
  class_is_in = λ c. c == 1;
  to_vec = λ m. some (u16_to_be_bytes m.id ++ m.name ++ m.qtype);
}

line_read :
    line_message plain 515 (32 ∷ 97 ∷ 98 ∷ 9 ∷ 65 ∷ 32 ∷ 66 ∷ [])
    ≡ ok (some (2 ∷ 3 ∷ 97 ∷ 98 ∷ 65 ∷ []))
unfolding line_message
line_read = refl

line_short : line_message plain 515 (97 ∷ 98 ∷ 32 ∷ []) ≡ ok none
unfolding line_message
line_short = refl

msg_id_lem_example :
    (msg_id (buf_msg (u16_to_be_bytes 515 ++ first_msg) peer) ≡ ok 515)
    × (((length second_msg < 2) × (msg_id (buf_msg second_msg peer) ≡ err Fault.panicked))
        ⊎ ((2 ≤ length second_msg) × ((i : ℕ) × (msg_id (buf_msg second_msg peer) ≡ ok i))))
msg_id_lem_example = msg_id_lem peer 515 first_msg second_msg
