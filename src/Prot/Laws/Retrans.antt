-- ===== src/Prot/Laws/Retrans.antt =====
-- Requests for retransmission and their answers, of daemon/protocol.c.
use java_spread_assignment.Base.{
  ℕ, zero, suc, ◌+◌, ◌-◌, ◌≤◌, ◌≡◌, refl, ap, ◌⊎◌, Bool, true, not, ◌&&◌, List, [], ◌∷◌, ◌++◌, ◌==◌,
  ltb, arith, length, inl, inr, Bool-cases, take, length-take,
}
use java_spread_assignment.Base.Seqs.{range_from, filter_by}
use java_spread_assignment.NetTypes.{MembershipId, same_endian}
use java_spread_assignment.Memb
use java_spread_assignment.Prot.State.{PacketInfo, RingRtr, Prot, entry}
use java_spread_assignment.Prot.Retrans.{
  Answers, missing, max_rtr_seq, retrans_allowed, request_retrans, own_request, body_bytes,
  token_body_size,
}

abbrev pub is_missing : (ℕ → PacketInfo) → ℕ → Bool
is_missing f q = (f (entry q)).exist == 0

-- The requests that the loop writes are the first ones, as many as fit, of the sequence numbers in
-- its range whose packets the daemon does not have, in order.
pub missing_lem :
    (n : ℕ) (f : ℕ → PacketInfo) (from allowed : ℕ)
    → missing n f from allowed ≡ take allowed (filter_by (is_missing f) (range_from (suc from) n))
unfolding missing
missing_lem zero f from zero = refl
missing_lem zero f from (suc a) = refl
missing_lem (suc n) f from zero = refl
missing_lem (suc n) f from (suc a) = elim (Bool-cases (is_missing f (suc from))) [
  | inl e ↦ rw e (ap (λ l. suc from ∷ l) (missing_lem n f (suc from) a))
  | inr e ↦ rw e (missing_lem n f (suc from) (suc a))
]

body_bytes-append : (xs ys : List RingRtr) → body_bytes (xs ++ ys) ≡ body_bytes xs + body_bytes ys
body_bytes-append [] ys = omega arith
body_bytes-append (x ∷ xs) ys = omega (arith, body_bytes-append xs ys)

length-missing :
    (n : ℕ) (f : ℕ → PacketInfo) (from allowed : ℕ) → length (missing n f from allowed) ≤ allowed
length-missing n f from allowed =
    rw (missing_lem n f from allowed)
      (omega (arith, length-take allowed (filter_by (is_missing f) (range_from (suc from) n))))

-- The requests of other rings and the daemon's own fit into the body of a token, if those of other
-- rings do.
pub request_retrans_fits :
    (a : Answers) (s : Prot)
    → body_bytes a.kept ≤ token_body_size
    → body_bytes (request_retrans a s) ≤ token_body_size
unfolding request_retrans own_request
request_retrans_fits a s h =
    elim (Bool-cases (ltb s.my_aru (max_rtr_seq s) && ltb 1 (retrans_allowed a.kept))) [
      | inr none_asked ↦ rw none_asked h
      | inl asked ↦
          rw (asked, body_bytes-append)
            (ground (
              arith,
              length-missing (max_rtr_seq s - s.my_aru) s.packets s.my_aru (retrans_allowed a.kept),
            ))
    ]

-- A slot's packet after a request was answered: only three fields of its header may have changed,
-- and then to this daemon's values, with its byte order.
pub record Restamped (s : Prot) (p q : PacketInfo) : Type 0 where
  pub shape : q ≡ record p {
    head = record p.head {
      type = q.head.type;
      conf_hash = q.head.conf_hash;
      transmiter_id = q.head.transmiter_id;
    };
  }
  pub own :
      (q ≡ p)
      ⊎ ((same_endian q.head.type ≡ true)
          × (q.head.conf_hash ≡ s.conf.hash_code)
          × (q.head.transmiter_id ≡ s.my.id))

-- One answer.
record Resent (s t : Prot) : Type 0 where
  shape : t ≡ record s { packets = t.packets; out = t.out }
  calls : length t.out ≡ suc (length s.out)
  slots : (j : ℕ) → Restamped s (s.packets j) (t.packets j)

-- The state after some answers: nothing but the calls of the network and the headers that it filled in
-- has changed.
record Answered (a b : Answers) (s t : Prot) : Type 0 where
  shape : t ≡ record s { packets = t.packets; out = t.out }
  calls : b.num_retrans + length s.out ≡ a.num_retrans + length t.out
  slots : (j : ℕ) → Restamped s (s.packets j) (t.packets j)

-- The requests of another ring than `id`.
abbrev pub is_foreign : MembershipId → RingRtr → Bool
is_foreign id r = not (Memb.is_equal r.memb_id id)

abbrev ring_id : Prot → MembershipId
ring_id s = s.memb.membership_id
