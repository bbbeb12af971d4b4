-- ===== src/Tests/SendTests.antt =====
-- Sending and retransmission at concrete inputs.
use java_spread_assignment.Base.{
  ℕ, suc, map, ◌++◌, ◌≡◌, refl, List, [], ◌∷◌, Option, none, some, arith, ◌≤◌, length, take,
}
use java_spread_assignment.Base.Seqs.{range_from, filter_by}
use java_spread_assignment.NetTypes.{no_id}
use java_spread_assignment.Memb
use java_spread_assignment.Memb.{State}
use java_spread_assignment.Prot.State.{Element, RingRtr, Prot, put}
use java_spread_assignment.Prot.Send.{Filled, fill, queue_bcast}
use java_spread_assignment.Prot.Retrans.{
  Answers, answer_retrans, request_retrans, missing, body_bytes, token_body_size,
}
use java_spread_assignment.Prot.Laws.Send.{InOrder, queue_bcast_order, queue_bcast_window}
use java_spread_assignment.Prot.Laws.Retrans.{is_missing, missing_lem, request_retrans_fits}
use java_spread_assignment.Prot.Frag.{later_messages}
use java_spread_assignment.Prot.Laws.Filling.{later_messages-fill}
use java_spread_assignment.Prot.Laws.Waiting.{waiting_in, whole}
use java_spread_assignment.Tests.Samples.{state, packet, ring_id, other_ring}

queue_bcast_order_example :
    (k : ℕ) × InOrder (packet 8 ∷ packet 9 ∷ packet 10 ∷ []) state (queue_bcast (packet 10) state) k
queue_bcast_order_example = queue_bcast_order (packet 10) state

queue_bcast_window_example : length (queue_bcast (packet 10) state).send_queue ≤ 2
queue_bcast_window_example = queue_bcast_window (packet 10) state 1 refl refl (λ e. cc)

missing_lem_example :
    missing 7 state.packets 2 2 ≡ take 2 (filter_by (is_missing state.packets) (range_from 3 7))
missing_lem_example = missing_lem 7 state.packets 2 2

abbrev asked : List RingRtr
asked =
    record { memb_id = ring_id; proc_id = no_id; seg_index = 0; seqs = 3 ∷ 6 ∷ [] }
    ∷ record { memb_id = other_ring; proc_id = 3; seg_index = 1; seqs = 1 ∷ [] }
    ∷ []

abbrev answered : Option (Answers × Prot) → Answers × Prot
answered none = (record { num_retrans = 0; proc_id = 0; seg_index = 0; kept = [] }, state)
answered (some r) = r

abbrev answers : Answers
answers = (answered (answer_retrans asked state)).0

request_retrans_fits_example : body_bytes (request_retrans answers state) ≤ token_body_size
unfolding answer_retrans Memb.is_equal put
request_retrans_fits_example = request_retrans_fits answers state (omega arith)

later_messages-fill_example :
    (g : Filled) × (t : Prot) × (es : List Element) × (fill 20 21 8
        (record { data_len = 2; body = 5 ∷ 6 ∷ [] })
        state
      ≡ some (g, t))
    × (g.data_len ≤ 20)
    × (waiting_in state.down_queue ≡ es ++ waiting_in t.down_queue)
    × (later_messages (suc g.data_len) g.body g.data_len 2 ≡ some (map whole es))
later_messages-fill_example =
    later_messages-fill 20 8 (5 ∷ 6 ∷ []) state
      (omega arith, ((refl, omega arith), tt), ((omega arith, ((refl, omega arith), tt)), tt))
      (omega arith)
