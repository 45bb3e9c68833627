-- ===== src/Handler/Order.antt =====
-- A poll takes messages from the front of the queue.
use irn.Base.{
  ℕ, zero, suc, ◌+◌, ◌*◌, ◌≡◌, refl, Option, none, some, List, [], ◌∷◌, ◌++◌, append_assoc, length,
}
use irn.Rpc.{Rpc}
use irn.Handler.{
  Framed, InboundSubstreamState, OutboundSubstreamState, EpisubHandler, HandlerEvent, Round, Ending,
  Readiness, Sent, Next, closed_inbound, closed_outbound, after_next, after_close, inbound_round,
  after_send, after_ready, after_flush, after_closing, take_message, outbound_round, inbound_loop,
  outbound_loop, process_inbound_poll, process_outbound_poll, after_inbound, poll,
}

-- The rest of the queue after some of its front.
abbrev IsRest : List Rpc → List Rpc → Type 0
IsRest queue rest = (taken : List Rpc) × (queue ≡ taken ++ rest)

IsRest-trans : (a b c : List Rpc) → IsRest a b → IsRest b c → IsRest a c
IsRest-trans a b c (x, p) (y, q) = (x ++ y, rw (p, q, append_assoc x y c) refl)

abbrev RoundRests : {S : Type 0} → List Rpc → Round S → Type 0
RoundRests queue (Round.again u) = IsRest queue u.outbound_queue
RoundRests queue (Round.done e u) = IsRest queue u.outbound_queue
RoundRests queue Round.panicked = Unit

abbrev pub EndingRests : {S : Type 0} → List Rpc → Ending S → Type 0
EndingRests queue (Ending.answers e u) = IsRest queue u.outbound_queue
EndingRests queue _ = Unit

module _ {S : Type 0} (f : Framed S) where
  take_message-RoundRests :
      (h : EpisubHandler S) (s : S) (queue : List Rpc)
      → h.outbound_queue ≡ queue
      → RoundRests queue (take_message f h s queue)
  unfolding take_message
  take_message-RoundRests h s [] e = ([], rw e refl)
  take_message-RoundRests h s (m ∷ rest) e = (m ∷ [], refl)

  after_ready-RoundRests :
      (h : EpisubHandler S) (m : Rpc) (r : Readiness × S)
      → RoundRests h.outbound_queue (after_ready f h m r)
  unfolding after_ready after_send
  after_ready-RoundRests h m (Readiness.ready, s) = sent_rest (f.start_send s m)
    where
      sent_rest : (r : Sent × S) → RoundRests h.outbound_queue (after_send f h r)
      sent_rest (Sent.accepted, s) = ([], refl)
      sent_rest (Sent.oversized, s) = ([], refl)
      sent_rest (Sent.refused, s) = ([], refl)
  after_ready-RoundRests h m (Readiness.broken, s) = ([], refl)
  after_ready-RoundRests h m (Readiness.pending, s) = ([], refl)

  after_flush-RoundRests :
      (h : EpisubHandler S) (r : Readiness × S) → RoundRests h.outbound_queue (after_flush f h r)
  unfolding after_flush
  after_flush-RoundRests h (Readiness.ready, s) = ([], refl)
  after_flush-RoundRests h (Readiness.broken, s) = ([], refl)
  after_flush-RoundRests h (Readiness.pending, s) = ([], refl)

  closed_outbound-IsRest :
      (h : EpisubHandler S) (i : Option (InboundSubstreamState S))
      → IsRest h.outbound_queue (closed_outbound h i).outbound_queue
  unfolding closed_outbound
  closed_outbound-IsRest h none = ([], refl)
  closed_outbound-IsRest h (some i) = ([], refl)

  after_closing-RoundRests :
      (h : EpisubHandler S) (r : Readiness × S) → RoundRests h.outbound_queue (after_closing f h r)
  unfolding after_closing
  after_closing-RoundRests h (Readiness.ready, s) = closed_outbound-IsRest h h.inbound_substream
  after_closing-RoundRests h (Readiness.broken, s) = ([], refl)
  after_closing-RoundRests h (Readiness.pending, s) = ([], refl)

  outbound_round-RoundRests :
      (h : EpisubHandler S) (o : Option (OutboundSubstreamState S))
      → RoundRests h.outbound_queue (outbound_round f h o)
  unfolding outbound_round
  outbound_round-RoundRests h (some (OutboundSubstreamState.waiting_output s)) =
      take_message-RoundRests h s h.outbound_queue refl
  outbound_round-RoundRests h (some (OutboundSubstreamState.pending_send s m)) =
      after_ready-RoundRests h m (f.poll_ready s)
  outbound_round-RoundRests h (some (OutboundSubstreamState.pending_flush s)) =
      after_flush-RoundRests h (f.poll_flush s)
  outbound_round-RoundRests h (some (OutboundSubstreamState._closing s)) =
      after_closing-RoundRests h (f.poll_close s)
  outbound_round-RoundRests h (some OutboundSubstreamState.substream_requested) = ([], refl)
  outbound_round-RoundRests h (some OutboundSubstreamState.poisoned_output) = tt
  outbound_round-RoundRests h none = ([], refl)

  closed_inbound-IsRest :
      (h : EpisubHandler S) (o : Option (OutboundSubstreamState S))
      → IsRest h.outbound_queue (closed_inbound h o).outbound_queue
  unfolding closed_inbound
  closed_inbound-IsRest h none = ([], refl)
  closed_inbound-IsRest h (some o) = ([], refl)

  inbound_round-RoundRests :
      (h : EpisubHandler S) (i : Option (InboundSubstreamState S))
      → RoundRests h.outbound_queue (inbound_round f h i)
  unfolding inbound_round after_next after_close
  inbound_round-RoundRests h (some (InboundSubstreamState.waiting_input s)) =
      read_rest (f.poll_next s)
    where
      read_rest : (r : Next × S) → RoundRests h.outbound_queue (after_next h r)
      read_rest (Next.received m, s) = ([], refl)
      read_rest (Next.failed, s) = ([], refl)
      read_rest (Next.ended, s) = ([], refl)
      read_rest (Next.waiting, s) = ([], refl)
  inbound_round-RoundRests h (some (InboundSubstreamState.closing s)) = close_rest (f.poll_close s)
    where
      close_rest : (r : Readiness × S) → RoundRests h.outbound_queue (after_close h r)
      close_rest (Readiness.ready, s) = closed_inbound-IsRest h h.outbound_substream
      close_rest (Readiness.broken, s) = closed_inbound-IsRest h h.outbound_substream
      close_rest (Readiness.pending, s) = ([], refl)
  inbound_round-RoundRests h (some InboundSubstreamState.poisoned) = tt
  inbound_round-RoundRests h none = ([], refl)

  EndingRests-trans :
      (a b : List Rpc) (e : Ending S) → IsRest a b → EndingRests b e → EndingRests a e
  EndingRests-trans a b (Ending.answers e u) r s = IsRest-trans a b u.outbound_queue r s
  EndingRests-trans a b Ending.panics r s = tt
  EndingRests-trans a b Ending.exhausted r s = tt

  onward :
      (k : EpisubHandler S → Ending S) (queue : List Rpc) (r : Round S)
      → RoundRests queue r
      → ((u : EpisubHandler S) → EndingRests u.outbound_queue (k u))
      → EndingRests queue (elim r [
        | Round.again u ↦ k u
        | Round.done e u ↦ Ending.answers e u
        | Round.panicked ↦ Ending.panics
      ])
  onward k queue (Round.again u) r all = EndingRests-trans queue u.outbound_queue (k u) r (all u)
  onward k queue (Round.done e u) r all = r
  onward k queue Round.panicked r all = tt

  outbound_loop-EndingRests :
      (fuel : ℕ) (h : EpisubHandler S) → EndingRests h.outbound_queue (outbound_loop f fuel h)
  unfolding outbound_loop
  outbound_loop-EndingRests zero h = tt
  outbound_loop-EndingRests (suc fuel) h =
      onward (outbound_loop f fuel) h.outbound_queue (outbound_round f h h.outbound_substream)
        (outbound_round-RoundRests h h.outbound_substream) (λ u. outbound_loop-EndingRests fuel u)

  inbound_loop-EndingRests :
      (fuel : ℕ) (h : EpisubHandler S) → EndingRests h.outbound_queue (inbound_loop f fuel h)
  unfolding inbound_loop
  inbound_loop-EndingRests zero h = tt
  inbound_loop-EndingRests (suc fuel) h =
      onward (inbound_loop f fuel) h.outbound_queue (inbound_round f h h.inbound_substream)
        (inbound_round-RoundRests h h.inbound_substream) (λ u. inbound_loop-EndingRests fuel u)

  after_inbound-EndingRests :
      (queue : List Rpc) (e : Ending S)
      → EndingRests queue e
      → EndingRests queue (after_inbound f e)
  unfolding after_inbound process_outbound_poll
  after_inbound-EndingRests queue (Ending.answers HandlerEvent.idle h) r =
      EndingRests-trans queue h.outbound_queue (process_outbound_poll f h) r
        (outbound_loop-EndingRests (3 * length h.outbound_queue + 3) h)
  after_inbound-EndingRests queue (Ending.answers HandlerEvent.close h) r = r
  after_inbound-EndingRests queue (Ending.answers (HandlerEvent.custom m) h) r = r
  after_inbound-EndingRests queue (Ending.answers (HandlerEvent.outbound_substream_request n) h) r =
      r
  after_inbound-EndingRests queue Ending.panics r = tt
  after_inbound-EndingRests queue Ending.exhausted r = tt

  -- What a poll leaves in the queue is what was in it less some messages from its front: none is added,
  -- overtaken or taken from the middle, whatever the substreams answer.
  pub poll-EndingRests : (h : EpisubHandler S) → EndingRests h.outbound_queue (poll f h)
  unfolding poll process_inbound_poll
  poll-EndingRests h =
      after_inbound-EndingRests h.outbound_queue (process_inbound_poll f h)
        (inbound_loop-EndingRests 2 h)
