-- ===== src/Prot/Frag.antt =====
-- The fragments of a packet's body: the headers between them and the padding, as in `Deliver_packet`
-- and `Send_new_packets` of daemon/protocol.c. An int16 in the body is in little-endian order.
use java_spread_assignment.Base.{
  ℕ, zero, suc, ◌+◌, ◌-◌, ◌*◌, ◌%◌, ◌/◌, List, [], ◌∷◌, Option, none, some, ◌==◌, ltb, leb,
  if◌then◌else◌, get_or, take, drop,
}
use java_spread_assignment.Base.Int.{ℤ, pos, negsuc, pos_part, neg_part}
use java_spread_assignment.Base.Seqs.{◌>>=◌}
use java_spread_assignment.Prot.State.{Scatter}

-- `switch (n % 4)` with its cases falling through.
unfoldable pub padding : ℕ → ℕ
padding n = if n % 4 == 1 then 3 else if n % 4 == 2 then 2 else if n % 4 == 3 then 1 else 0

abbrev pub frag_header_size : ℕ
frag_header_size = 4

unfoldable pub read_int16 : List ℕ → ℕ → ℤ
read_int16 body at =
    let v = get_or body at 0 + 256 * get_or body (at + 1) 0 in
    if ltb v 32768 then pos v else negsuc (65535 - v)

unfoldable pub int16_bits : ℤ → ℕ
int16_bits (pos n) = n % 65536
int16_bits (negsuc n) = 65535 - n % 65536

unfoldable pub write_int16 : ℤ → List ℕ
unfolding int16_bits
write_int16 z = int16_bits z % 256 ∷ int16_bits z / 256 ∷ []

-- The messages of the fragments after the first. `none` is a `memcpy` of a negative length, which
-- the source does not exclude, and fuel that ran out; a fragment that goes past `data_len` ends the
-- loop with what is there.
unfoldable pub later_messages : ℕ → List ℕ → ℕ → ℕ → Option (List Scatter)
unfolding padding read_int16
later_messages zero body data_len processed = none
later_messages (suc fuel) body data_len processed =
    let header = processed + padding processed in
    let frag_len = read_int16 body (header + 2) in
    let start = header + frag_header_size in
    let size = pos_part frag_len in
    let mess = record { buf = take size (drop start body); len = size } ∷ [] in
    let rest = later_messages fuel body data_len (start + size) in
    if leb data_len processed
    then some []
    else if ltb (data_len + neg_part frag_len) (start + size)
    then some []
    else elim frag_len [ pos n ↦ (rest >>= λ ms. some (mess ∷ ms)) | negsuc n ↦ none ]
