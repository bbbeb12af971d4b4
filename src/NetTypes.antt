-- ===== src/NetTypes.antt =====
-- The words and headers of daemon/net_types.h: the bits of a `type` word, and the byte order that
-- daemon/arch.h marks in it. An int32 or int16 field that is a bit pattern or an identifier is the
-- number of its bits, so -1 is `no_id` or `no_seg`.
pub mod Bits
use java_spread_assignment.Base.{ℕ, ◌+◌, ◌-◌, ◌*◌, ◌/◌, ◌%◌, Bool, not, ◌&&◌, ◌==◌}

abbrev pub unreliable_type : ℕ
unreliable_type = 1

abbrev pub reliable_type : ℕ
reliable_type = 2

abbrev pub fifo_type : ℕ
fifo_type = 4

abbrev pub agreed_type : ℕ
agreed_type = 8

abbrev pub safe_type : ℕ
safe_type = 16

abbrev pub block_regular_delivery : ℕ
block_regular_delivery = 32

abbrev pub hurry_type : ℕ
hurry_type = 64

-- The bit of weight `w` of a word.
abbrev pub has_bit : ℕ → ℕ → Bool
has_bit w t = t / w % 2 == 1

unfoldable pub is_reliable : ℕ → Bool
is_reliable t = has_bit 2 t

unfoldable pub is_fifo : ℕ → Bool
is_fifo t = has_bit 4 t

unfoldable pub is_agreed : ℕ → Bool
is_agreed t = has_bit 8 t

unfoldable pub is_safe : ℕ → Bool
is_safe t = has_bit 16 t

-- `t & REGULAR_TYPE`, which one caller compares as a number.
unfoldable pub regular_bits : ℕ → ℕ
regular_bits t = t % 32

unfoldable pub is_regular : ℕ → Bool
unfolding regular_bits
is_regular t = not (regular_bits t == 0)

unfoldable pub is_hurry : ℕ → Bool
is_hurry t = has_bit 64 t

unfoldable pub is_alive : ℕ → Bool
is_alive t = has_bit 256 t

unfoldable pub is_join : ℕ → Bool
is_join t = has_bit 512 t

unfoldable pub is_refer : ℕ → Bool
is_refer t = has_bit 1024 t

unfoldable pub is_membership : ℕ → Bool
is_membership t = not (t / 256 % 8 == 0)

unfoldable pub is_form : ℕ → Bool
is_form t = not (t / 4096 % 4 == 0)

unfoldable pub is_form1 : ℕ → Bool
is_form1 t = has_bit 4096 t

unfoldable pub is_form2 : ℕ → Bool
is_form2 t = has_bit 8192 t

-- The mask ARQ_TYPE, shifted down, and a field put back in its place: the four bits from bit 16 on.
unfoldable pub get_arq : ℕ → ℕ
get_arq t = t / 65536 % 16

unfoldable pub set_arq : ℕ → ℕ → ℕ
set_arq t val = t - t / 65536 % 16 * 65536 + val % 16 * 65536

-- The four bits from bit 20 on.
unfoldable pub get_retrans : ℕ → ℕ
get_retrans t = t / 1048576 % 16

unfoldable pub set_retrans : ℕ → ℕ → ℕ
set_retrans t val = t - t / 1048576 % 16 * 1048576 + val % 16 * 1048576

unfoldable pub is_status : ℕ → Bool
is_status t = has_bit 16777216 t

unfoldable pub is_partition : ℕ → Bool
is_partition t = has_bit 33554432 t

unfoldable pub is_fc : ℕ → Bool
is_fc t = has_bit 67108864 t

unfoldable pub is_conf_reload : ℕ → Bool
is_conf_reload t = has_bit 134217728 t

unfoldable pub is_control : ℕ → Bool
is_control t = not (t / 16777216 % 16 == 0)

-- The two bits of ENDIAN_TYPE are both set by a little-endian machine, which the model takes.
unfoldable pub same_endian : ℕ → Bool
same_endian t = (t / 128 % 2 == 1) && (t / 2147483648 % 2 == 1)

unfoldable pub flip_int16 : ℕ → ℕ
flip_int16 t = t / 256 % 256 + t % 256 * 256

unfoldable pub flip_int32 : ℕ → ℕ
flip_int32 t =
    t / 16777216 % 256 + t / 65536 % 256 * 256 + t / 256 % 256 * 65536 + t % 256 * 16777216

-- -1 as an int32 identifier and as an int16 segment index.
abbrev pub no_id : ℕ
no_id = 4294967295

abbrev pub no_seg : ℕ
no_seg = 65535

pub record MembershipId : Type 0 where
  pub proc_id : ℕ
  pub time : ℕ

-- A word with the bit of weight `w` set, and one with it cleared.
abbrev pub with_bit : ℕ → ℕ → ℕ
with_bit w t = t - t / w % 2 * w + w

abbrev pub without_bit : ℕ → ℕ → ℕ
without_bit w t = t - t / w % 2 * w

unfoldable pub is_routed : ℕ → Bool
is_routed t = has_bit 32 t

unfoldable pub set_routed : ℕ → ℕ
set_routed t = with_bit 32 t

unfoldable pub clear_routed : ℕ → ℕ
clear_routed t = without_bit 32 t

-- The mark of a little-endian machine is that both bits are set.
unfoldable pub set_endian : ℕ → ℕ
set_endian t = with_bit 2147483648 (with_bit 128 t)
