-- ===== src/Prot/Laws/Filling.antt =====
-- Filling a packet from the queue of messages, in `Send_new_packets` of daemon/protocol.c.
use mathlib.Core.List.{append_assoc, append-nil}
use java_spread_assignment.Base.{
  ℕ, zero, suc, ◌+◌, ◌≤◌, ◌<◌, ◌≡◌, refl, sym, ap, ◌∙◌, List, [], ◌∷◌, ◌++◌, none, some, inl, inr,
  ◌⊎◌, arith, length, replicate, map, Bool-cases,
}
use java_spread_assignment.Base.Int.{ℤ}
use java_spread_assignment.Base.Seqs.{All}
use java_spread_assignment.Prot.State.{Element, DownLink, Prot}
use java_spread_assignment.Prot.Frag.{padding, write_int16, later_messages}
use java_spread_assignment.Prot.Send.{
  take_advanced, compatible, append_fragment, Filled, fits, fill_links, fill,
}
use java_spread_assignment.Prot.Laws.Packing.{
  Part, IsPart, part_bytes, part_end, parts_end, parts_bytes, unpacked, later_messages-parts,
}
use java_spread_assignment.Prot.Laws.Waiting.{
  waiting, waiting_in, whole, IsQueue, drop-get_elem?, advance_lem, take_advanced-down,
}

-- What filling a packet has done: `ps` are the fragments behind those that were in it.
pub record Filling (body_size : ℕ) (f : Filled) (s : Prot) (g : Filled) (t : Prot) (ps : List Part)
    : Type 0 where
  pub body : g.body ≡ f.body ++ parts_bytes f.data_len ps
  pub size : g.data_len ≡ parts_end f.data_len ps
  pub bound : g.data_len ≤ body_size
  pub parts : All IsPart ps
  pub taken : waiting_in s.down_queue ≡ map (λ (p : Part). p.1) ps ++ waiting_in t.down_queue
  pub queue : IsQueue t.down_queue.links t.down_queue.cur_element

Filling-stop :
    (body_size : ℕ) (f : Filled) (s : Prot)
    → IsQueue s.down_queue.links s.down_queue.cur_element
    → f.data_len ≤ body_size
    → Filling body_size f s f s []
Filling-stop body_size f s ok h = record {
  body = sym (append-nil f.body);
  size = refl;
  bound = h;
  parts = tt;
  taken = refl;
  queue = ok;
}

-- The packet after one more fragment.
abbrev added : Filled → Part → Filled
added f (k, e) = record {
  data_len = part_end f.data_len (k, e);
  body = append_fragment f.body f.data_len k e;
}

append_fragment-append :
    (body : List ℕ) (n : ℕ) (k : ℤ) (e : Element) (post : List ℕ)
    → append_fragment body n k e ++ post ≡ body ++ part_bytes n (k, e) post
unfolding append_fragment write_int16
append_fragment-append body n k e post =
    append_assoc body (replicate (padding n) 0 ++ _) post
    ∙ ap (λ t. body ++ t) (append_assoc (replicate (padding n) 0) _ post)

Filling-cons :
    (body_size : ℕ) (f g : Filled) (s u t : Prot) (p : Part) (ps : List Part)
    → IsPart p
    → waiting_in s.down_queue ≡ p.1 ∷ waiting_in u.down_queue
    → Filling body_size (added f p) u g t ps
    → Filling body_size f s g t (p ∷ ps)
Filling-cons body_size f g s u t (k, e) ps one took r = record {
  body =
      r.body
      ∙ append_fragment-append f.body f.data_len k e (parts_bytes (part_end f.data_len (k, e)) ps);
  size = r.size;
  bound = r.bound;
  parts = (one, r.parts);
  taken = took ∙ ap (λ es. e ∷ es) r.taken;
  queue = r.queue;
}

-- One round stops, or takes the next element of the queue.
fill_links_lem :
    (body_size : ℕ) (links : List DownLink) (cur type : ℕ) (f : Filled) (s : Prot)
    → IsQueue links cur
    → (fill_links body_size links cur type f s ≡ some none)
      ⊎ ((p : Part) × (u : Prot) × (fill_links body_size links cur type f s
            ≡ some (some (added f p, u)))
          × IsPart p
          × (part_end f.data_len p ≤ body_size)
          × (waiting links cur ≡ p.1 ∷ waiting_in u.down_queue)
          × IsQueue u.down_queue.links u.down_queue.cur_element)
unfolding fill_links
fill_links_lem body_size [] cur type f s ok = inl refl
fill_links_lem body_size (l ∷ ls) cur type f s ok =
    let (e, found, split, one) = drop-get_elem? l.mess cur ok.0 ok.1 in
    let (a, next, kept, left) = advance_lem l ls cur ok in
    let down = take_advanced-down a s in
    elim (Bool-cases (fits body_size f.data_len e)) [
      | inr large ↦ inl (simp (found, large))
      | inl small ↦ elim (Bool-cases (compatible type l.type)) [
        | inr other ↦ inl (simp (found, small, other))
        | inl same ↦ inr (
          (a.frag_index, e),
          take_advanced a s,
          simp (found, small, same, next),
          one,
          (unfold fits in ground arith),
          rw (split, left, down) refl,
          rw down kept,
        )
      ]
    ]

fill_lem :
    (body_size fuel type : ℕ) (f : Filled) (s : Prot)
    → IsQueue s.down_queue.links s.down_queue.cur_element
    → f.data_len ≤ body_size
    → body_size < f.data_len + fuel
    → (g : Filled) × (t : Prot) × (ps : List Part) × (fill body_size fuel type f s ≡ some (g, t))
      × Filling body_size f s g t ps
unfolding fill
fill_lem body_size zero type f s ok bound enough = absurd (omega arith)
fill_lem body_size (suc fuel) type f s ok bound enough =
    elim (fill_links_lem body_size s.down_queue.links s.down_queue.cur_element type f s ok) [
      | inl stop ↦ (f, s, [], simp stop, Filling-stop body_size f s ok bound)
      | inr ((k, e), u, step, one, fits_, took, kept) ↦
          let (g, t, ps, rest, filling) =
            fill_lem body_size fuel type (added f (k, e)) u kept fits_ (omega arith) in
          (
            g,
            t,
            (k, e) ∷ ps,
            simp (step, rest),
            Filling-cons body_size f g s u t (k, e) ps one took filling,
          )
    ]

map-parts : (ps : List Part) → map unpacked ps ≡ map whole (map (λ (p : Part). p.1) ps)
map-parts [] = refl
map-parts ((k, e) ∷ ps) = ap (λ ms. whole e ∷ ms) (map-parts ps)

-- Filling a packet behind its first fragment always ends, never makes the packet larger than a body,
-- and takes elements from the front of the queue, in order and with none lost; and of the packet so
-- filled `Deliver_packet` gets back exactly these elements, each as a message, in that order. The
-- buffers of the queue are supposed to hold the bytes that are counted, at most 32767 each, and no
-- message of the queue to be empty.
pub later_messages-fill :
    (body_size type : ℕ) (first : List ℕ) (s : Prot)
    → IsQueue s.down_queue.links s.down_queue.cur_element
    → length first ≤ body_size
    → (g : Filled) × (t : Prot) × (es : List Element) × (fill body_size
          (suc body_size)
          type
          (record { data_len = length first; body = first })
          s
        ≡ some (g, t))
      × (g.data_len ≤ body_size)
      × (waiting_in s.down_queue ≡ es ++ waiting_in t.down_queue)
      × (later_messages (suc g.data_len) g.body g.data_len (length first) ≡ some (map whole es))
later_messages-fill body_size type first s ok h =
    let (g, t, ps, done, r) =
      fill_lem body_size (suc body_size) type (record { data_len = length first; body = first }) s
        ok h (omega arith) in
    (
      g,
      t,
      map (λ (p : Part). p.1) ps,
      done,
      r.bound,
      r.taken,
      rw r.body (
          later_messages-parts (suc g.data_len) g.data_len first ps r.parts (sym r.size)
            (omega arith)
          ∙ ap some (map-parts ps)),
    )
