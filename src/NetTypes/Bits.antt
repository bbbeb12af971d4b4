-- ===== src/NetTypes/Bits.antt =====
-- Laws of the token word of daemon/net_types.h and of the byte flips of daemon/arch.h.
use java_spread_assignment.Base.{
  ℕ, ◌/◌, ◌%◌, ◌<◌, ◌≡◌, ◌^◌, ap, true, false, not, ◌&&◌, ◌==◌, arith,
}
use mathlib.Core.Path.{ap₂}
use java_spread_assignment.NetTypes.{
  get_arq, set_arq, get_retrans, set_retrans, flip_int16, flip_int32, is_form, same_endian,
  is_routed, set_routed, clear_routed, set_endian, is_control,
}

-- Writing the ARQ number of a token word is read back, and leaves the retransmission count, the
-- Form bits and the byte order marks as they were; so for writing the retransmission count. Values
-- are taken modulo 16.
pub arq_fields :
    (t val : ℕ)
    → (get_arq (set_arq t val) ≡ val % 16)
      × (get_retrans (set_arq t val) ≡ get_retrans t)
      × (get_retrans (set_retrans t val) ≡ val % 16)
      × (get_arq (set_retrans t val) ≡ get_arq t)
      × (is_form (set_arq t val) ≡ is_form t)
      × (same_endian (set_retrans t val) ≡ same_endian t)
unfolding get_arq set_arq get_retrans set_retrans is_form same_endian
arq_fields t val =
    let form : set_arq t val / 4096 % 4 ≡ t / 4096 % 4 = omega arith in
    let low : set_retrans t val / 128 % 2 ≡ t / 128 % 2 = omega arith in
    let high : set_retrans t val / 2147483648 % 2 ≡ t / 2147483648 % 2 = omega arith in
    (
      omega arith,
      omega arith,
      omega arith,
      omega arith,
      ap (λ k. not (k == 0)) form,
      ap₂ (λ k l. (k == 1) && (l == 1)) low high,
    )

-- Swapping the bytes of a word twice gives the word back.
pub flip_twice :
    (a b : ℕ)
    → a < 2 ^ 16
    → b < 2 ^ 32
    → (flip_int16 (flip_int16 a) ≡ a) × (flip_int32 (flip_int32 b) ≡ b)
unfolding flip_int16 flip_int32
flip_twice a b h k = omega arith

-- The marks that the network puts on a word, and what they leave as it was.
pub routed_marks :
    (t : ℕ)
    → (same_endian (set_endian t) ≡ true)
      × (is_routed (set_endian (set_routed t)) ≡ true)
      × (is_control (set_endian (set_routed t)) ≡ is_control t)
      × (is_routed (clear_routed t) ≡ false)
      × (is_control (clear_routed t) ≡ is_control t)
      × (same_endian (clear_routed t) ≡ same_endian t)
unfolding same_endian set_endian is_routed set_routed clear_routed is_control
routed_marks t =
    let low : set_endian t / 128 % 2 ≡ 1 = omega arith in
    let high : set_endian t / 2147483648 % 2 ≡ 1 = omega arith in
    let kept : set_endian (set_routed t) / 32 % 2 ≡ 1 = omega arith in
    let control : set_endian (set_routed t) / 16777216 % 16 ≡ t / 16777216 % 16 = omega arith in
    let cleared : clear_routed t / 32 % 2 ≡ 0 = omega arith in
    let control' : clear_routed t / 16777216 % 16 ≡ t / 16777216 % 16 = omega arith in
    let low' : clear_routed t / 128 % 2 ≡ t / 128 % 2 = omega arith in
    let high' : clear_routed t / 2147483648 % 2 ≡ t / 2147483648 % 2 = omega arith in
    (
      ap₂ (λ k l. (k == 1) && (l == 1)) low high,
      ap (λ k. k == 1) kept,
      ap (λ k. not (k == 0)) control,
      ap (λ k. k == 1) cleared,
      ap (λ k. not (k == 0)) control',
      ap₂ (λ k l. (k == 1) && (l == 1)) low' high',
    )

pub clear_routed_twice : (t : ℕ) → clear_routed (clear_routed t) ≡ clear_routed t
unfolding clear_routed
clear_routed_twice t = omega arith
