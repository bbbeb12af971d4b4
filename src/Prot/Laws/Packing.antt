-- ===== src/Prot/Laws/Packing.antt =====
-- Taking a packet apart, in `Deliver_packet` of daemon/protocol.c, what was put into it.
use mathlib.Core.List.{append_assoc}
use java_spread_assignment.Base.{
  ℕ, zero, suc, ◌+◌, ◌≤◌, ◌<◌, ◌≡◌, refl, sym, ap, ◌∙◌, true, false, List, [], ◌∷◌, ◌++◌, some, ltb,
  leb, arith, length, length-append, length-replicate, take-append, drop-append, take, drop, get_or,
  replicate, map,
}
use java_spread_assignment.Base.Int.{ℤ, pos}
use java_spread_assignment.Base.Seqs.{◌>>=◌, All}
use java_spread_assignment.Prot.State.{Element, Scatter}
use java_spread_assignment.Prot.Frag.{padding, read_int16, int16_bits, write_int16, later_messages}

-- A fragment and its index.
abbrev pub Part : Type 0
Part = ℤ × Element

-- Where a fragment behind `n` bytes ends.
abbrev pub part_end : ℕ → Part → ℕ
part_end n (k, e) = n + padding n + 4 + e.len

abbrev pub parts_end : ℕ → List Part → ℕ
parts_end n [] = n
parts_end n (p ∷ ps) = parts_end (part_end n p) ps

-- The bytes of fragments behind `n` bytes, before what follows them.
abbrev pub part_bytes : ℕ → Part → List ℕ → List ℕ
part_bytes n (k, e) post =
    replicate (padding n) 0
    ++ (write_int16 k ++ (write_int16 (pos e.len) ++ (take e.len e.buf ++ post)))

abbrev pub parts_bytes : ℕ → List Part → List ℕ
parts_bytes n [] = []
parts_bytes n (p ∷ ps) = part_bytes n p (parts_bytes (part_end n p) ps)

-- A fragment's message, as the receiver has it.
abbrev pub unpacked : Part → Scatter
unpacked (k, e) = record { buf = take e.len e.buf; len = e.len } ∷ []

-- The buffer holds the fragment, whose length is an int16 that is not negative.
abbrev pub IsPart : Part → Type 0
IsPart (k, e) = (length (take e.len e.buf) ≡ e.len) × (e.len < 32768)

get_or-append {ℓ} :
    {A : Type ℓ} (xs ys : List A) (i : ℕ) (d : A)
    → get_or (xs ++ ys) (length xs + i) d ≡ get_or ys i d
get_or-append [] ys i d = ap (λ m. get_or ys m d) (omega arith)
get_or-append (x ∷ xs) ys i d =
    let e : suc (length xs) + i ≡ suc (length xs + i) = omega arith in
    rw e (get_or-append xs ys i d)

-- Behind `pre`, four bytes of header.
read_int16-written :
    (pre : List ℕ) (k : ℤ) (n : ℕ) (post : List ℕ)
    → n < 32768
    → read_int16 (pre ++ (write_int16 k ++ (write_int16 (pos n) ++ post))) (length pre + 2) ≡ pos n
unfolding read_int16 write_int16 int16_bits
read_int16-written pre k n post h =
    let e : length pre + 2 + 1 ≡ length pre + 3 = omega arith in
    rw (e, get_or-append pre, get_or-append pre) (ground arith)

-- Behind the padding, one round of the loop takes one fragment.
later_messages-part :
    (fuel n total : ℕ) (pre : List ℕ) (k : ℤ) (e : Element) (post : List ℕ)
    → IsPart (k, e)
    → length pre ≡ n + padding n
    → part_end n (k, e) ≤ total
    → let body =
        pre ++ (write_int16 k ++ (write_int16 (pos e.len) ++ (take e.len e.buf ++ post))) in
      later_messages (suc fuel) body total n
      ≡ (later_messages fuel body total (part_end n (k, e)) >>= λ ms. some (unpacked (k, e) ∷ ms))
unfolding later_messages
later_messages-part fuel n total pre k e post (full, small) at_n fits =
    let rest = write_int16 k ++ (write_int16 (pos e.len) ++ (take e.len e.buf ++ post)) in
    let header : read_int16 (pre ++ rest) (n + padding n + 2) ≡ pos e.len =
      rw (← at_n) (read_int16-written pre k e.len (take e.len e.buf ++ post) small) in
    let behind : drop (n + padding n + 4) (pre ++ rest) ≡ take e.len e.buf ++ post =
      rw (← at_n, drop-append pre rest 4) (unfold write_int16 in refl) in
    let bytes : take e.len (take e.len e.buf ++ post) ≡ take e.len e.buf =
      ap (λ m. take m (take e.len e.buf ++ post)) (sym full)
      ∙ take-append (take e.len e.buf) post in
    let more : leb total n ≡ false = ground arith in
    let within : ltb (total + 0) (n + padding n + 4 + e.len) ≡ false = ground arith in
    simp (header, behind, more, within, bytes)

part_bytes-append :
    (n : ℕ) (p : Part) (post : List ℕ) → part_bytes n p [] ++ post ≡ part_bytes n p post
unfolding write_int16
part_bytes-append n (k, e) post =
    rw (append_assoc {A = ℕ} (replicate (padding n) 0), append_assoc (take e.len e.buf)) refl

length-part_bytes :
    (n : ℕ) (p : Part) → IsPart p → length (part_bytes n p []) ≡ padding n + 4 + p.1.len
unfolding write_int16
length-part_bytes n (k, e) (full, small) =
    rw (length-append {A = ℕ} (replicate (padding n) 0), length-replicate {A = ℕ} (padding n) 0)
      (omega (arith, length-append (take e.len e.buf) [], full))

parts_end-le : (n : ℕ) (ps : List Part) → n ≤ parts_end n ps
parts_end-le n [] = omega arith
parts_end-le n (p ∷ ps) = omega (arith, parts_end-le (part_end n p) ps)

later_messages-done :
    (fuel total : ℕ) (body : List ℕ) (n : ℕ)
    → total ≤ n
    → later_messages (suc fuel) body total n ≡ some []
unfolding later_messages
later_messages-done fuel total body n h = let done : leb total n ≡ true = ground arith in simp done

-- A packet that holds these fragments behind its first one, and no more, gives their messages, in
-- order: the rounds of the loop are enough, and nothing is lost.
pub later_messages-parts :
    (fuel total : ℕ) (pre : List ℕ) (ps : List Part)
    → All IsPart ps
    → parts_end (length pre) ps ≡ total
    → total < fuel + length pre
    → later_messages fuel (pre ++ parts_bytes (length pre) ps) total (length pre)
      ≡ some (map unpacked ps)
later_messages-parts zero total pre ps ok at_end enough =
    absurd (omega (arith, parts_end-le (length pre) ps))
later_messages-parts (suc fuel) total pre [] ok at_end enough =
    later_messages-done fuel total (pre ++ []) (length pre) (omega arith)
later_messages-parts (suc fuel) total pre ((k, e) ∷ ps) (one, ok) at_end enough =
    let n = length pre in
    let p : Part = (k, e) in
    let post = parts_bytes (part_end n p) ps in
    let next = pre ++ part_bytes n p [] in
    let here : length next ≡ part_end n p =
      length-append pre (part_bytes n p []) ∙ omega (arith, length-part_bytes n p one) in
    let padded : length (pre ++ replicate (padding n) 0) ≡ n + padding n =
      length-append pre (replicate (padding n) 0)
      ∙ ap (λ m. n + m) (length-replicate (padding n) 0) in
    let regroup : (pre ++ replicate (padding n) 0) ++ _ ≡ pre ++ part_bytes n p post =
      append_assoc pre (replicate (padding n) 0) _ in
    let split : next ++ post ≡ pre ++ part_bytes n p post =
      append_assoc pre (part_bytes n p []) post ∙ ap (λ t. pre ++ t) (part_bytes-append n p post) in
    let round =
      later_messages-part fuel n total (pre ++ replicate (padding n) 0) k e post one padded
        (omega (arith, parts_end-le (part_end n p) ps)) in
    let rest : later_messages fuel (next ++ post) total (length next) ≡ some (map unpacked ps) =
      rw (← here)
        (later_messages-parts fuel total next ps ok (rw here at_end) (omega (arith, here))) in
    rw regroup at round ∙ ap (λ r. r >>= λ ms. some (unpacked p ∷ ms)) (rw (split, here) at rest)
