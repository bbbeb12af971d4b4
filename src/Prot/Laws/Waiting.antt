-- ===== src/Prot/Laws/Waiting.antt =====
-- The queue of messages that wait to be sent, in `Send_new_packets` of daemon/protocol.c.
use java_spread_assignment.Base.{
  ℕ, zero, suc, ◌<◌, ◌≡◌, refl, sym, ap, ◌∙◌, true, false, List, [], ◌∷◌, ◌++◌, some, inl, inr, ltb,
  ◌&&◌, ◌==◌, arith, length, take, drop, get_elem?, Bool-cases,
}
use java_spread_assignment.Base.Int.{pos}
use java_spread_assignment.Base.Seqs.{All}
use java_spread_assignment.Prot.State.{Element, Scatter, DownLink, DownQueue, Prot}
use java_spread_assignment.Prot.Send.{Advanced, advance, negate, take_advanced, water_mark}

-- The elements that wait, in order: those of the first message from the current one on, then those
-- of the other messages.
abbrev pub all_elements : List DownLink → List Element
all_elements [] = []
all_elements (l ∷ ls) = l.mess ++ all_elements ls

abbrev pub waiting : List DownLink → ℕ → List Element
waiting [] cur = []
waiting (l ∷ ls) cur = drop cur l.mess ++ all_elements ls

abbrev pub waiting_in : DownQueue → List Element
waiting_in q = waiting q.links q.cur_element

-- An element as a message of its own, which is what the receiver has of it.
abbrev pub whole : Element → Scatter
whole e = record { buf = take e.len e.buf; len = e.len } ∷ []

-- A buffer has the bytes that its element counts, no more than an int16 counts.
abbrev pub IsElement : Element → Type 0
IsElement e = (length (take e.len e.buf) ≡ e.len) × (e.len < 32768)

abbrev pub IsLink : DownLink → Type 0
IsLink l = (0 < length l.mess) × All IsElement l.mess

-- The current element is one of the first message, and no message is empty.
abbrev pub IsQueue : List DownLink → ℕ → Type 0
IsQueue [] cur = Unit
IsQueue (l ∷ ls) cur = (cur < length l.mess) × All IsElement l.mess × All IsLink ls

pub drop-get_elem? :
    (es : List Element) (cur : ℕ)
    → cur < length es
    → All IsElement es
    → (e : Element) × (get_elem? es cur ≡ some e)
      × (drop cur es ≡ e ∷ drop (suc cur) es)
      × IsElement e
drop-get_elem? [] cur h ok = absurd (omega arith)
drop-get_elem? (e ∷ es) zero h ok = (e, refl, refl, ok.0)
drop-get_elem? (e ∷ es) (suc cur) h ok = drop-get_elem? es cur (omega arith) ok.1

drop-length : (es : List Element) → drop (length es) es ≡ []
drop-length [] = refl
drop-length (e ∷ es) = drop-length es

IsQueue-next : (ls : List DownLink) → All IsLink ls → IsQueue ls 0
IsQueue-next [] ok = tt
IsQueue-next (l ∷ ls) ((some_, ok), rest) = (some_, ok, rest)

waiting-zero : (ls : List DownLink) → waiting ls 0 ≡ all_elements ls
waiting-zero [] = refl
waiting-zero (l ∷ ls) = refl

pub advance_lem :
    (l : DownLink) (ls : List DownLink) (cur : ℕ)
    → IsQueue (l ∷ ls) cur
    → (a : Advanced) × (advance l ls cur ≡ some a)
      × IsQueue a.links a.cur_element
      × (drop (suc cur) l.mess ++ all_elements ls ≡ waiting a.links a.cur_element)
unfolding advance
advance_lem l ls cur (h, ok, rest) = elim (Bool-cases (ltb (suc cur) (length l.mess))) [
  | inl more ↦ (
    record { frag_index = pos (suc cur); links = l ∷ ls; cur_element = suc cur; mess_done = false },
    simp more,
    (ground arith, ok, rest),
    refl,
  )
  | inr last ↦
      let done : (suc cur == length l.mess) ≡ true = ground arith in
      let e : length l.mess ≡ suc cur = ground arith in
      let none_left : drop (suc cur) l.mess ≡ [] =
        ap (λ n. drop n l.mess) (sym e) ∙ drop-length l.mess in
      (
        record {
          frag_index = negate (length l.mess);
          links = ls;
          cur_element = 0;
          mess_done = true;
        },
        simp (last, done),
        IsQueue-next ls rest,
        rw none_left (sym (waiting-zero ls)),
      )
]

pub take_advanced-down :
    (a : Advanced) (s : Prot)
    → (take_advanced a s).down_queue ≡ record { links = a.links; cur_element = a.cur_element }
take_advanced-down a s = elim (Bool-cases (a.mess_done && ltb (length a.links) water_mark)) [
  | inl low ↦ simp low
  | inr high ↦ simp high
]
