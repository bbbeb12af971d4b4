-- ===== src/Network/Laws/Order.antt =====
-- The byte order of packet headers in daemon/network.c.
use java_spread_assignment.Base.{
  ℕ, ◌/◌, ◌%◌, ◌<◌, ◌≡◌, ◌^◌, ◌∙◌, refl, inl, inr, Bool, true, false, Bool-cases, ◌&&◌, ◌==◌, arith,
}
use mathlib.Core.Path.{ap₂}
use java_spread_assignment.NetTypes.{flip_int32, same_endian}
use java_spread_assignment.NetTypes.Bits.{flip_twice}
use java_spread_assignment.Prot.State.{PacketHeader, Packet}
use java_spread_assignment.Network.Receiving.{flip_pack, flip_memb_id, in_my_order}

-- The header fields that are flipped have the width of their words.
pub record IsHeader (h : PacketHeader) : Type 0 where
  pub type : h.type < 2 ^ 32
  pub transmiter_id : h.transmiter_id < 2 ^ 32
  pub proc_id : h.proc_id < 2 ^ 32
  pub memb_proc_id : h.memb_id.proc_id < 2 ^ 32
  pub memb_time : h.memb_id.time < 2 ^ 32
  pub seq : h.seq < 2 ^ 32
  pub token_round : h.token_round < 2 ^ 32
  pub conf_hash : h.conf_hash < 2 ^ 32
  pub data_len : h.data_len < 2 ^ 16

word_twice : (b : ℕ) → b < 2 ^ 32 → flip_int32 (flip_int32 b) ≡ b
word_twice b k = (flip_twice 0 b (omega arith) k).1

&&-swap : (b c : Bool) → (b && c) ≡ (c && b)
&&-swap true true = refl
&&-swap true false = refl
&&-swap false true = refl
&&-swap false false = refl

-- The mark of the byte order is the same read backwards.
same_endian-flip_int32 : (t : ℕ) → t < 2 ^ 32 → same_endian (flip_int32 t) ≡ same_endian t
unfolding same_endian flip_int32
same_endian-flip_int32 t h =
    let low : flip_int32 t / 128 % 2 ≡ t / 2147483648 % 2 = omega arith in
    let high : flip_int32 t / 2147483648 % 2 ≡ t / 128 % 2 = omega arith in
    ap₂ (λ k l. (k == 1) && (l == 1)) low high
    ∙ &&-swap (t / 2147483648 % 2 == 1) (t / 128 % 2 == 1)

flip_pack_twice : (p : Packet) → IsHeader p.head → flip_pack (flip_pack p) ≡ p
unfolding flip_pack flip_memb_id
flip_pack_twice p h =
    rw
      (
        word_twice p.head.type h.type,
        word_twice p.head.transmiter_id h.transmiter_id,
        word_twice p.head.proc_id h.proc_id,
        word_twice p.head.memb_id.proc_id h.memb_proc_id,
        word_twice p.head.memb_id.time h.memb_time,
        word_twice p.head.seq h.seq,
        word_twice p.head.token_round h.token_round,
        word_twice p.head.conf_hash h.conf_hash,
        (flip_twice p.head.data_len 0 h.data_len (omega arith)).0,
      )
      refl

-- Putting a packet into this machine's byte order twice gives it back, where its header fields have
-- the width of their words: the mark of the order reads the same backwards, so that a packet of the
-- other order, flipped, is taken for one again and flipped back.
pub in_my_order_lem : (p : Packet) → IsHeader p.head → in_my_order (in_my_order p) ≡ p
unfolding in_my_order flip_pack
in_my_order_lem p h = elim (Bool-cases (same_endian p.head.type)) [
  | inl e ↦ rw (e, e) refl
  | inr e ↦
      let e' : (same_endian (flip_pack p).head.type ≡ false) =
        same_endian-flip_int32 p.head.type h.type ∙ e in
      rw (e, e') (flip_pack_twice p h)
]
