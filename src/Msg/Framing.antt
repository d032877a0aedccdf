-- ===== src/Msg/Framing.antt =====
-- bin/src/msg.rs, `TcpDnsCodec::decode`, against what `MsgSend::send` of bin/src/sender.rs writes.
use native.Mathlib.Nat.{mod-eq_of_lt}
use nailgun.Prelude.{
  ℕ, zero, suc, ◌+◌, ◌*◌, ◌/◌, ◌%◌, ◌≤◌, ◌<◌, ◌≡◌, refl, ◌⊎◌, inl, inr, none, some, List, [], ◌∷◌,
  ◌++◌, map, append-nil, append_assoc, arith, ltb, if◌then◌else◌, Bool-cases, length, take, drop,
  length-append, take-append_of_le, drop-append_of_le, take-append-drop, length-take,
  take-append_length, drop-append_length, ok, err, u16_mod,
}
use nailgun.Msg.{decode, u16_to_be_bytes, u16_from_be_bytes}

-- The bytes of one message over TCP: its length modulo 2 ^ 16 in network order, then all of it.
abbrev pub tcp_frame : List ℕ → List ℕ
tcp_frame msg = u16_to_be_bytes (length msg % u16_mod) ++ msg

-- A stream of messages, and that each of them has a length that u16 can hold.
abbrev pub frames : List (List ℕ) → List ℕ
frames [] = []
frames (m ∷ ms) = tcp_frame m ++ frames ms

abbrev pub AllShort : List (List ℕ) → Type 0
AllShort [] = Unit {0}
AllShort (m ∷ ms) = (length m < u16_mod) × AllShort ms

u16_bytes : (n : ℕ) → u16_from_be_bytes (n / 256) (n % 256) ≡ n
u16_bytes n = omega arith

module _ {Addr : Type 0} (target : Addr) where
  decode-tcp_frame_from :
      (n : ℕ) (body : List ℕ)
      → decode target (u16_to_be_bytes n ++ body) ≡ (
          if ltb (length body) n
          then ok (none, u16_to_be_bytes n ++ body)
          else ok (some (take n body, target), drop n body))
  unfolding decode
  decode-tcp_frame_from n body = rw u16_bytes (ground arith)

  -- A message that can be decoded stays the same whatever arrives after it: the rest of the buffer
  -- grows by what arrives.
  decode-append :
      (src more : List ℕ) (item : List ℕ × Addr) (rest : List ℕ)
      → decode target src ≡ ok (some item, rest)
      → decode target (src ++ more) ≡ ok (some item, rest ++ more)
  unfolding decode
  decode-append [] more item rest h = cc
  decode-append (a ∷ []) more item rest h = cc
  decode-append (a ∷ b ∷ body) more item rest h =
      let n = u16_from_be_bytes a b in
      ground (
        arith,
        length-append body more,
        take-append_of_le n body more,
        drop-append_of_le n body more,
      )

  -- The decoder never fails: either it waits for more and leaves the buffer as it was, or it takes
  -- two bytes for the length and then the bytes of a message off the front of the buffer.
  pub decode_cases :
      (src : List ℕ)
      → (decode target src ≡ ok (none, src))
        ⊎ ((hi lo : ℕ) × (msg rest : List ℕ) × (decode target src ≡ ok (some (msg, target), rest))
            × (src ≡ hi ∷ lo ∷ (msg ++ rest))
            × (length msg ≡ hi * 256 + lo))
  unfolding decode
  decode_cases [] = inl refl
  decode_cases (a ∷ []) = inl refl
  decode_cases (a ∷ b ∷ body) =
      let n = u16_from_be_bytes a b in
      elim (Bool-cases (ltb (suc (suc (length body))) (2 + n))) [
        | inl short ↦ inl (ground arith)
        | inr enough ↦ inr (
          a,
          b,
          take n body,
          drop n body,
          ground arith,
          rw (take-append-drop n body),
          ground (arith, length-take n body),
        )
      ]

  -- What is sent for a message of any length is decoded to its first bytes, as many as its length
  -- modulo 2 ^ 16 says; the bytes of the message after those stay in the buffer.
  pub decode-tcp_frame :
      (msg rest : List ℕ)
      → let n = length msg % u16_mod in
        decode target (tcp_frame msg ++ rest) ≡ ok (some (take n msg, target), drop n msg ++ rest)
  decode-tcp_frame msg rest =
      let n = length msg % u16_mod in
      let less : n ≤ length msg = omega arith in
      ground (
        arith,
        decode-tcp_frame_from n (msg ++ rest),
        length-append msg rest,
        take-append_of_le n msg rest less,
        drop-append_of_le n msg rest less,
      )

  pub decode-tcp_frame_short :
      (msg rest : List ℕ)
      → length msg < u16_mod
      → decode target (tcp_frame msg ++ rest) ≡ ok (some (msg, target), rest)
  decode-tcp_frame_short msg rest h =
      let e : length msg % u16_mod ≡ length msg = mod-eq_of_lt h in
      let whole = take-append_length msg [] in
      let nothing = drop-append_length msg [] in
      ground (arith, decode-tcp_frame msg rest, e, rw append-nil at whole, rw append-nil at nothing)

  decode-tcp_frame_part :
      (msg : List ℕ) (k : ℕ)
      → length msg < u16_mod
      → k < 2 + length msg
      → decode target (take k (tcp_frame msg)) ≡ ok (none, take k (tcp_frame msg))
  unfolding decode
  decode-tcp_frame_part msg zero h l = refl
  decode-tcp_frame_part msg (suc zero) h l = refl
  decode-tcp_frame_part msg (suc (suc k)) h l =
      rw u16_bytes (ground (arith, mod-eq_of_lt h, length-take k msg))

  -- The loop of the framed reader: it decodes until the decoder waits for more.
  pub drain : ℕ → List ℕ → List (List ℕ × Addr) × List ℕ
  drain zero src = ([], src)
  drain (suc f) src = elim (decode target src) [
    | err e ↦ ([], src)
    | ok (none, rest) ↦ ([], rest)
    | ok (some item, rest) ↦ let (items, last) = drain f rest in (item ∷ items, last)
  ]

  -- A stream of messages of less than 2 ^ 16 bytes, and then a part of one more, short of its end,
  -- is decoded to those messages, in order, and the part stays in the buffer; one round more than
  -- there are messages is enough.
  pub drain-frames :
      (ms : List (List ℕ)) (m : List ℕ) (k fuel : ℕ)
      → AllShort ms
      → length m < u16_mod
      → k < 2 + length m
      → length ms < fuel
      → drain fuel (frames ms ++ take k (tcp_frame m))
        ≡ (map (λ b. (b, target)) ms, take k (tcp_frame m))
  unfolding drain
  drain-frames ms m k zero s h l f = absurd (omega arith)
  drain-frames [] m k (suc fuel) s h l f = rw (decode-tcp_frame_part m k h l, drain)
  drain-frames (x ∷ ms) m k (suc fuel) s h l f =
      let tail = take k (tcp_frame m) in
      rw (
        append_assoc (tcp_frame x) (frames ms) tail,
        decode-tcp_frame_short x (frames ms ++ tail) s.0,
        drain,
        drain-frames ms m k fuel s.1 h l (omega arith),
      )
