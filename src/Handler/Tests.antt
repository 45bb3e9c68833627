-- ===== src/Handler/Tests.antt =====
-- EpisubHandler with substreams that are scripts of their answers, and its theorems at concrete
-- handlers.
use irn.Base.{◌≡◌, refl, true, some, List, [], ◌∷◌}
use irn.Handler.{
  Framed, InboundSubstreamState, OutboundSubstreamState, EpisubHandler, HandlerEvent, Ending,
  Readiness, Sent, Next, new, inject_event, after_next, after_close, inbound_round, after_send,
  after_ready, after_flush, take_message, outbound_round, inbound_loop, outbound_loop,
  process_inbound_poll, process_outbound_poll, after_inbound, closed_inbound, poll,
}
use irn.Handler.Fuel
use irn.Handler.Order
use irn.Handler.Panic
use irn.Rpc.{Rpc, Action}

-- A substream that reads the answers of a script, and sends without delay.
abbrev next : List Next → Next × List Next
next [] = (Next.waiting, [])
next (a ∷ rest) = (a, rest)

abbrev script : Framed (List Next)
script = record {
  poll_next = next;
  poll_ready = λ s. (Readiness.ready, s);
  poll_flush = λ s. (Readiness.ready, s);
  poll_close = λ s. (Readiness.ready, s);
  start_send = λ s m. (Sent.accepted, s);
}

abbrev prune : Rpc
prune = record { topic = "t"; action = some Action.prune }

abbrev reply : Rpc
reply = record { topic = "t"; action = some (Action.shuffle_reply []) }

-- A handler with both substreams and two messages to send.
abbrev busy : List Next → EpisubHandler (List Next)
busy answers_ = record {
  max_transmit_size = 1024;
  outbound_substream = some (OutboundSubstreamState.waiting_output []);
  inbound_substream = some (InboundSubstreamState.waiting_input answers_);
  keep_alive = true;
  outbound_queue = prune ∷ reply ∷ [];
}

program : Unit {0}
unfolding new inject_event after_next after_close inbound_round after_send after_ready after_flush
    take_message outbound_round inbound_loop outbound_loop process_inbound_poll
    process_outbound_poll after_inbound closed_inbound poll
program = tt

-- One poll sends both messages.
sent :
    poll script (busy [])
    ≡ Ending.answers HandlerEvent.idle (record (busy []) { outbound_queue = [] })
unfolding program
sent = refl

poll-IsFinished_example : Fuel.IsFinished (poll script (busy (Next.ended ∷ [])))
poll-IsFinished_example = Fuel.poll-IsFinished script (busy (Next.ended ∷ []))

poll-panics_example : poll script (busy (Next.failed ∷ [])) ≡ Ending.panics
poll-panics_example =
    Panic.poll-panics script (busy (Next.failed ∷ [])) (Next.failed ∷ []) refl refl

poll-EndingRests_example : Order.EndingRests (prune ∷ reply ∷ []) (poll script (busy []))
poll-EndingRests_example = Order.poll-EndingRests script (busy [])
