-- ===== src/Msg.antt =====
-- bin/src/msg.rs: a received message, and the decoders of the two kinds of socket. Bytes are
-- numbers, a buffer is the list of its bytes, and a socket address is a parameter. Space that a
-- buffer reserves is not modelled.
pub mod Header
pub mod Framing
use Prim.Native.Nat.{bit_and}
use nailgun.Prelude.{
  ℕ, ◌+◌, ◌*◌, ◌/◌, ◌%◌, Option, none, some, List, [], ◌∷◌, ltb, if◌then◌else◌, length, get_elem?,
  take, drop, Fault, Result, ok, ◌>>=◌, or_fault,
}

pub record BufMsg (Addr : Type 0) : Type 0 where
  pub buf : List ℕ
  pub addr : Addr

-- `buf[i]`
abbrev pub index : List ℕ → ℕ → Result ℕ
index buf i = or_fault (get_elem? buf i) Fault.panicked

-- `u16::from_be_bytes`
abbrev pub u16_from_be_bytes : ℕ → ℕ → ℕ
u16_from_be_bytes hi lo = hi * 256 + lo

-- `u16::to_be_bytes`
abbrev pub u16_to_be_bytes : ℕ → List ℕ
u16_to_be_bytes n = (n / 256) ∷ (n % 256) ∷ []

module _ {Addr : Type 0} where
  -- `BufMsg::new`, and `From<(Bytes, SocketAddr)>`
  abbrev pub buf_msg : List ℕ → Addr → BufMsg Addr
  buf_msg buf addr = record { buf = buf; addr = addr }

  unfoldable pub msg_id : BufMsg Addr → Result ℕ
  msg_id m = do hi ← index m.buf 0; lo ← index m.buf 1; ok (u16_from_be_bytes hi lo)

  unfoldable pub rcode : BufMsg Addr → Result ℕ
  rcode m = do b ← index m.buf 3; ok (bit_and 0x0F b)

  -- The result and the bytes that stay in the buffer.
  unfoldable pub decode : Addr → List ℕ → Result (Option (List ℕ × Addr) × List ℕ)
  decode target src =
      if ltb (length src) 2
      then ok (none, src)
      else (index src 0 >>= λ hi. index src 1 >>= λ lo.
          let len = u16_from_be_bytes hi lo in
          let body = drop 2 src in
          if ltb (length src) (2 + len)
          then ok (none, src)
          else ok (some (take len body, target), drop len body))

-- `BytesFreezeCodec::decode` freezes what `BytesCodec` of tokio-util decodes: the same bytes.
unfoldable pub freeze_decode :
    (List ℕ → Result (Option (List ℕ) × List ℕ)) → List ℕ → Result (Option (List ℕ) × List ℕ)
freeze_decode bytes_codec src = do (b, rest) ← bytes_codec src; ok (b, rest)
