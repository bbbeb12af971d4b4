-- ===== src/Lib.antt =====
-- The Spread daemon of this repository: a ring of daemons passes a token round, and the daemon that
-- has it sends packets, each with the next sequence number of the ring. Every daemon keeps the
-- packets in slots, asks in the token for those it misses, hands messages up in the order of the
-- sequence numbers, and frees a slot when every daemon has the packet.
--
-- Parts and files. The paths are those of the repository.
--   NetTypes   daemon/net_types.h and daemon/arch.h: the bits of type words, byte order, and the
--              header of a token and its requests.
--   Conf       daemon/configuration.c: processes, segments, look-ups, and the ring (`Conf_previous`,
--              `Conf_leader`, `Conf_last`).
--   Memb       daemon/membership.c: the variables that the protocol reads (State, Memb), the commit
--              of a membership, the transitional membership and the reset at its installation.
--              Memb.Sets is `Insert_member`, `Smallest_member` and `Sort_members`, Memb.Reps
--              `Insert_rep`, `Smallest_rep` and `Sort_reps`, with Memb.Placement on the first.
--   Flow       daemon/flow_control.c: what a daemon may send while it has the token (`FC_allowed`).
--   Prot       daemon/protocol.c and daemon/prot_body.h. Prot.State is the record of the static
--              variables; a function of the source that changes them is a function from that record
--              to the next one. Prot.Frag and Prot.Deliver are `Deliver_packet` and its callers,
--              Prot.Discard `Discard_packets`, Prot.Send the packing and sending of packets,
--              Prot.Hurry the token hold, Prot.Bcast `Prot_handle_bcast`, Prot.Retrans the
--              requests in the token, Prot.Token `Prot_handle_token`, Prot.Threshold the thresholds
--              of delivery, Prot.Reload the reload of the configuration. Prot.Laws has what is proved of them.
--   Membership the state machine of daemon/membership.c on the record Machine of Membership.State:
--              Membership.Shift its changes of state, with alive and join messages, Membership.Loss
--              `Memb_token_loss`, `Backoff_membership` and `Memb_init`, Membership.Form1
--              `Create_form1` and `Form_or_fail`, Membership.Fill `Fill_form1`, Membership.Rings the
--              ring entries of a form token, Membership.Form2 and Membership.Recover `Read_form2`,
--              Membership.Handlers `Memb_handle_message` and `Memb_handle_token`.
--              Membership.Timers has the timers, the steps of the whole daemon and its runs, and
--              Membership.Laws what is proved of them.
--   Network    daemon/network.c: the record Network of its static variables, the addresses that
--              `Net_set_membership` computes, Network.Sending the operations that send and
--              Network.Receiving those that receive, Network.Laws what is proved of them.
--   Session    daemon/session.c: the table of sessions with its three kinds of pointers, and
--              Session.Laws what is proved of the hash chains and of the sorted list.
--   Base       names, tests, lists, integers and fallible steps that all files share.
--   Tests      concrete states, and the theorems at them.
--
-- How they interact. `handle_token` reads Conf for the leader and the predecessor, Memb for the state
-- of the membership, Flow for the allowance, and then calls the functions of Prot in the order of the
-- source. `deliver_packet` hands messages to the session layer and sending hands packets to the
-- network; these calls, the timers and the calls of the membership are an output list of `Effect`s,
-- newest first, in the record. `handed_up` is the list of the sequence numbers handed up, newest first,
-- which the source does not keep. A timer is pending if the last call for it in the list queues it. A
-- step of a run is one message, token, packet, timer or client's message, a reload of the configuration,
-- or a change that daemon/groups.c or a monitor makes (the threshold of delivery, the state of the groups,
-- the queue that is sent from, the windows); the calls that the protocol
-- makes of the membership are outputs of its steps, and their handling is a step of its own.
--
-- Conventions. The machine is little-endian: its mark in a type word is both bits of ENDIAN_TYPE. `Option` is a fatal alarm, or a read of memory that the source should not make. The
-- slots are a function on the numbers below MAX_PACKETS_IN_STRUCT (8192), `entry` is the mask. A
-- sequence number, an int32 of the source that runs from 0 to little over MAX_WRAP_SEQUENCE_VALUE, is a
-- natural number; `flow_control` and the int16s of a packet's body wrap; windows are integers.
-- `sizeof(packet_body)` rests on the sizes of the network library and is a parameter (`body_size`) where
-- it is used. An address of the network is opaque, with the operations of the record Addressing, and
-- what a socket answers is an argument.
--
-- Fuel. A loop over a range of sequence numbers recurs on the length of the range. `fill` packs
-- messages into a packet: it has `body_size + 1` rounds, and each round but the last uses at least the
-- four bytes of a header, so they are enough. `later_messages` takes a body apart in `data_len + 1`
-- rounds, and each one but the last reads a header of four bytes. A walk along a chain of sessions has
-- as many steps as the table has sessions, and no session is twice in a chain.
--
-- Not modelled: the session layer but its table, the group layer, message buffers, authentication,
-- the sockets of the network, printing and the parser of the configuration file, which only call the
-- parts above or are called by them (what a reload of that file gives is an argument); `Prot_init`, the choice of the timeouts in `Memb_init`, and the
-- byte flips in the bodies of foreign messages. The time that the event system gives is an argument
-- `now`; a delay is only a name. A body of a message or a token is the record that the source reads from
-- its bytes. What the network writes into the header of a packet that is sent again is in its slot; the
-- headers of new packets and of tokens stay as the protocol made them, since no function of the protocol
-- reads these marks and fields of them before they are sent and filled in again.
pub mod Base
pub mod NetTypes
pub mod Network
pub mod Session
pub mod Conf
pub mod Memb
pub mod Flow
pub mod Prot
pub mod Membership
mod Tests
