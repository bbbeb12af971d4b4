-- ===== src/Prot/Threshold.antt =====
-- `Prot_set_delivery_threshold` of daemon/protocol.c and the events that it queues.
use java_spread_assignment.Base.{ℕ, Bool, Option, none, some, ◌||◌, ◌==◌, ltb, leb, if◌then◌else◌}
use java_spread_assignment.NetTypes.{
  unreliable_type, reliable_type, fifo_type, agreed_type, safe_type, block_regular_delivery,
}
use java_spread_assignment.Prot.State.{
  Prot, emit, e_queue, e_dequeue, deliver_all_reliable, deliver_agreed, zero_timeout,
}
use java_spread_assignment.Prot.Deliver.{deliver_reliable_packets, deliver_agreed_packets}

unfoldable pub is_threshold : ℕ → Bool
is_threshold t =
    (t == unreliable_type)
    || ((t == reliable_type)
        || ((t == fifo_type)
            || ((t == agreed_type) || ((t == safe_type) || (t == block_regular_delivery)))))

-- A threshold that falls lets deliveries happen that were held back; the cases of the source fall
-- through from the lowest threshold.
unfoldable pub lowered : ℕ → Prot → Prot
lowered t s =
    let u = if leb t reliable_type then emit (e_queue deliver_all_reliable zero_timeout) s else s in
    if leb t agreed_type then emit (e_queue deliver_agreed zero_timeout) u else u

unfoldable pub raised : ℕ → Prot → Prot
raised t s =
    let u = if leb safe_type t then emit (e_dequeue deliver_agreed) s else s in
    if leb fifo_type t then emit (e_dequeue deliver_all_reliable) u else u

-- An unknown service is a fatal alarm.
unfoldable pub set_delivery_threshold : ℕ → Prot → Option Prot
unfolding is_threshold lowered raised
set_delivery_threshold new s =
    let t = record s { delivery_threshold = new } in
    if is_threshold new
    then some (
        if ltb new s.delivery_threshold
        then lowered new t
        else if ltb s.delivery_threshold new
        then raised new t
        else t)
    else none

-- The callbacks of the two events.
unfoldable pub deliver_all_reliable_event : Prot → Option Prot
unfolding deliver_reliable_packets
deliver_all_reliable_event s = deliver_reliable_packets 1 s.highest_seq s

unfoldable pub deliver_agreed_event : Prot → Option Prot
unfolding deliver_agreed_packets
deliver_agreed_event s = deliver_agreed_packets s
