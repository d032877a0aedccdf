-- ===== src/Msg/Header.antt =====
-- bin/src/msg.rs: the id and the response code in the header of a message.
use Prim.Native.Nat.{bit_and}
use nailgun.Prelude.{
  ℕ, zero, suc, ◌+◌, ◌*◌, ◌%◌, ◌≤◌, ◌<◌, ◌≡◌, refl, ◌⊎◌, inl, inr, Bool, true, false, if◌then◌else◌,
  Bool-cases, List, [], ◌∷◌, ◌++◌, arith, ◌==◌, ==_iff, length, Fault, ok, err,
}
use nailgun.Msg.{buf_msg, msg_id, rcode, u16_to_be_bytes}

-- Whether a test holds of the numbers from 0 to `last`.
up_to : (ℕ → Bool) → ℕ → Bool
up_to test zero = test 0
up_to test (suc last) = if test (suc last) then up_to test last else false

test_of_up_to : (test : ℕ → Bool) (last k : ℕ) → up_to test last ≡ true → k ≤ last → test k ≡ true
unfolding up_to
test_of_up_to test zero zero h le = h
test_of_up_to test zero (suc k) h le = absurd (omega arith)
test_of_up_to test (suc last) k h le = elim (Bool-cases (k == suc last)) [
  | inl top ↦ ground arith
  | inr below ↦ ground (arith, test_of_up_to test last k)
]

is_nibble : ℕ → Bool
is_nibble byte = bit_and 0x0F byte == byte % 16

nibbles : up_to is_nibble 255 ≡ true
unfolding up_to is_nibble
nibbles = refl

low_nibble : (byte : ℕ) → byte < 256 → bit_and 0x0F byte ≡ byte % 16
unfolding is_nibble
low_nibble byte h = (==_iff _ _).0 (test_of_up_to is_nibble 255 byte nibbles (omega arith))

module _ {Addr : Type 0} where
  -- The id of a message is read exactly if two bytes are there: a shorter message panics, and one
  -- that begins with an id in network order yields that id, whatever follows.
  pub msg_id_lem :
      (addr : Addr) (id : ℕ) (rest buf : List ℕ)
      → (msg_id (buf_msg (u16_to_be_bytes id ++ rest) addr) ≡ ok id)
        × (((length buf < 2) × (msg_id (buf_msg buf addr) ≡ err Fault.panicked))
            ⊎ ((2 ≤ length buf) × ((i : ℕ) × (msg_id (buf_msg buf addr) ≡ ok i))))
  unfolding msg_id
  msg_id_lem addr id rest [] = (ground arith, inl (omega arith, refl))
  msg_id_lem addr id rest (a ∷ []) = (ground arith, inl (omega arith, refl))
  msg_id_lem addr id rest (a ∷ b ∷ buf) = (ground arith, inr (omega arith, (a * 256 + b, refl)))

  -- The response code is the low four bits of the fourth byte, so below 16; a message of fewer than
  -- four bytes panics.
  rcode_lem :
      (addr : Addr) (a b c d : ℕ) (rest buf : List ℕ)
      → d < 256
      → (rcode (buf_msg (a ∷ b ∷ c ∷ d ∷ rest) addr) ≡ ok (d % 16))
        × ((4 ≤ length buf) ⊎ (rcode (buf_msg buf addr) ≡ err Fault.panicked))
  unfolding rcode
  rcode_lem addr a b c d rest buf h = (rw (low_nibble d h), short buf)
    where
      short : (xs : List ℕ) → (4 ≤ length xs) ⊎ (rcode (buf_msg xs addr) ≡ err Fault.panicked)
      short [] = inr refl
      short (_ ∷ []) = inr refl
      short (_ ∷ _ ∷ []) = inr refl
      short (_ ∷ _ ∷ _ ∷ []) = inr refl
      short (_ ∷ _ ∷ _ ∷ _ ∷ _) = inl (omega arith)
