-- ===== src/Handler/Fuel.antt =====
-- The loops of a poll end within their fuel.
use irn.Base.{ℕ, zero, suc, ◌+◌, ◌*◌, ◌≤◌, ◌<◌, Option, none, some, List, [], ◌∷◌, length, arith}
use irn.Rpc.{Rpc}
use irn.Handler.{
  Framed, InboundSubstreamState, OutboundSubstreamState, EpisubHandler, HandlerEvent, Round, Ending,
  Readiness, Sent, Next, after_next, after_close, inbound_round, after_send, after_ready,
  after_flush, after_closing, take_message, outbound_round, inbound_loop, outbound_loop,
  process_inbound_poll, process_outbound_poll, after_inbound, poll,
}

abbrev pub IsFinished : {S : Type 0} → Ending S → Type 0
IsFinished Ending.exhausted = ⊥
IsFinished _ = Unit

-- The rounds that a state may still take.
abbrev weight : {S : Type 0} → Option (OutboundSubstreamState S) → ℕ
weight (some (OutboundSubstreamState.pending_send s m)) = 3
weight (some (OutboundSubstreamState.pending_flush s)) = 2
weight _ = 1

abbrev rounds : {S : Type 0} → EpisubHandler S → ℕ
rounds h = 3 * length h.outbound_queue + weight h.outbound_substream

-- Another round has fewer to come.
abbrev Shrinks : {S : Type 0} → ℕ → Round S → Type 0
Shrinks n (Round.again u) = rounds u < n
Shrinks n _ = Unit

module _ {S : Type 0} (f : Framed S) where
  take_message-Shrinks :
      (h : EpisubHandler S) (s : S) (queue : List Rpc)
      → Shrinks (3 * length queue + 1) (take_message f h s queue)
  unfolding take_message
  take_message-Shrinks h s [] = tt
  take_message-Shrinks h s (m ∷ rest) = omega arith

  after_send-Shrinks :
      (h : EpisubHandler S) (r : Sent × S)
      → Shrinks (3 * length h.outbound_queue + 3) (after_send f h r)
  unfolding after_send
  after_send-Shrinks h (Sent.accepted, s) = omega arith
  after_send-Shrinks h (Sent.oversized, s) = omega arith
  after_send-Shrinks h (Sent.refused, s) = tt

  after_ready-Shrinks :
      (h : EpisubHandler S) (m : Rpc) (r : Readiness × S)
      → Shrinks (3 * length h.outbound_queue + 3) (after_ready f h m r)
  unfolding after_ready
  after_ready-Shrinks h m (Readiness.ready, s) = after_send-Shrinks h (f.start_send s m)
  after_ready-Shrinks h m (Readiness.broken, s) = tt
  after_ready-Shrinks h m (Readiness.pending, s) = tt

  after_flush-Shrinks :
      (h : EpisubHandler S) (r : Readiness × S)
      → Shrinks (3 * length h.outbound_queue + 2) (after_flush f h r)
  unfolding after_flush
  after_flush-Shrinks h (Readiness.ready, s) = omega arith
  after_flush-Shrinks h (Readiness.broken, s) = tt
  after_flush-Shrinks h (Readiness.pending, s) = tt

  after_closing-Shrinks :
      (h : EpisubHandler S) (n : ℕ) (r : Readiness × S) → Shrinks n (after_closing f h r)
  unfolding after_closing
  after_closing-Shrinks h n (Readiness.ready, s) = tt
  after_closing-Shrinks h n (Readiness.broken, s) = tt
  after_closing-Shrinks h n (Readiness.pending, s) = tt

  outbound_round-Shrinks :
      (h : EpisubHandler S) (o : Option (OutboundSubstreamState S))
      → Shrinks (3 * length h.outbound_queue + weight o) (outbound_round f h o)
  unfolding outbound_round
  outbound_round-Shrinks h (some (OutboundSubstreamState.waiting_output s)) =
      take_message-Shrinks h s h.outbound_queue
  outbound_round-Shrinks h (some (OutboundSubstreamState.pending_send s m)) =
      after_ready-Shrinks h m (f.poll_ready s)
  outbound_round-Shrinks h (some (OutboundSubstreamState.pending_flush s)) =
      after_flush-Shrinks h (f.poll_flush s)
  outbound_round-Shrinks h (some (OutboundSubstreamState._closing s)) =
      after_closing-Shrinks h (3 * length h.outbound_queue + 1) (f.poll_close s)
  outbound_round-Shrinks h (some OutboundSubstreamState.substream_requested) = tt
  outbound_round-Shrinks h (some OutboundSubstreamState.poisoned_output) = tt
  outbound_round-Shrinks h none = tt

  outbound_loop-IsFinished :
      (fuel : ℕ) (h : EpisubHandler S) → rounds h ≤ fuel → IsFinished (outbound_loop f fuel h)
  unfolding outbound_loop
  outbound_loop-IsFinished zero h le = absurd (rounds_pos h.outbound_substream (omega arith))
    where
      rounds_pos : (o : Option (OutboundSubstreamState S)) → weight o ≤ 0 → ⊥
      rounds_pos (some (OutboundSubstreamState.waiting_output s)) = omega arith
      rounds_pos (some (OutboundSubstreamState.pending_send s m)) = omega arith
      rounds_pos (some (OutboundSubstreamState.pending_flush s)) = omega arith
      rounds_pos (some (OutboundSubstreamState._closing s)) = omega arith
      rounds_pos (some OutboundSubstreamState.substream_requested) = omega arith
      rounds_pos (some OutboundSubstreamState.poisoned_output) = omega arith
      rounds_pos none = omega arith
  outbound_loop-IsFinished (suc fuel) h le =
      onward (outbound_round f h h.outbound_substream)
        (outbound_round-Shrinks h h.outbound_substream)
        (λ u lt. outbound_loop-IsFinished fuel u (omega arith))
    where
      onward :
          (r : Round S)
          → Shrinks (rounds h) r
          → ((u : EpisubHandler S) → rounds u < rounds h → IsFinished (outbound_loop f fuel u))
          → IsFinished (elim r [
            | Round.again u ↦ outbound_loop f fuel u
            | Round.done e u ↦ Ending.answers e u
            | Round.panicked ↦ Ending.panics
          ])
      onward (Round.again u) lt k = k u lt
      onward (Round.done e u) lt k = tt
      onward Round.panicked lt k = tt

  weight-le : (o : Option (OutboundSubstreamState S)) → weight o ≤ 3
  weight-le (some (OutboundSubstreamState.waiting_output s)) = omega arith
  weight-le (some (OutboundSubstreamState.pending_send s m)) = omega arith
  weight-le (some (OutboundSubstreamState.pending_flush s)) = omega arith
  weight-le (some (OutboundSubstreamState._closing s)) = omega arith
  weight-le (some OutboundSubstreamState.substream_requested) = omega arith
  weight-le (some OutboundSubstreamState.poisoned_output) = omega arith
  weight-le none = omega arith

  process_outbound_poll-IsFinished : (h : EpisubHandler S) → IsFinished (process_outbound_poll f h)
  unfolding process_outbound_poll
  process_outbound_poll-IsFinished h =
      outbound_loop-IsFinished (3 * length h.outbound_queue + 3) h
        (omega (arith, weight-le h.outbound_substream))

  closing_ends :
      (h : EpisubHandler S) (r : Readiness × S) (k : EpisubHandler S → Ending S)
      → IsFinished (elim (after_close h r) [
        | Round.again u ↦ k u
        | Round.done e u ↦ Ending.answers e u
        | Round.panicked ↦ Ending.panics
      ])
  unfolding after_close
  closing_ends h (Readiness.ready, s) k = tt
  closing_ends h (Readiness.broken, s) k = tt
  closing_ends h (Readiness.pending, s) k = tt

  next_ends :
      (h : EpisubHandler S) (r : Next × S)
      → IsFinished (elim (after_next h r) [
        | Round.again u ↦ inbound_loop f 1 u
        | Round.done e u ↦ Ending.answers e u
        | Round.panicked ↦ Ending.panics
      ])
  unfolding after_next inbound_loop inbound_round
  next_ends h (Next.received m, s) = tt
  next_ends h (Next.failed, s) = tt
  next_ends h (Next.ended, s) =
      closing_ends (record h { inbound_substream = some (InboundSubstreamState.closing s) })
        (f.poll_close s) (inbound_loop f 0)
  next_ends h (Next.waiting, s) = tt

  process_inbound_poll-IsFinished : (h : EpisubHandler S) → IsFinished (process_inbound_poll f h)
  unfolding process_inbound_poll inbound_loop inbound_round
  process_inbound_poll-IsFinished h = first_round h.inbound_substream
    where
      first_round :
          (i : Option (InboundSubstreamState S))
          → IsFinished (elim (inbound_round f h i) [
            | Round.again u ↦ inbound_loop f 1 u
            | Round.done e u ↦ Ending.answers e u
            | Round.panicked ↦ Ending.panics
          ])
      first_round (some (InboundSubstreamState.waiting_input s)) = next_ends h (f.poll_next s)
      first_round (some (InboundSubstreamState.closing s)) =
          closing_ends h (f.poll_close s) (inbound_loop f 1)
      first_round (some InboundSubstreamState.poisoned) = tt
      first_round none = tt

  after_inbound-IsFinished : (e : Ending S) → IsFinished e → IsFinished (after_inbound f e)
  unfolding after_inbound
  after_inbound-IsFinished (Ending.answers HandlerEvent.idle h) i =
      process_outbound_poll-IsFinished h
  after_inbound-IsFinished (Ending.answers HandlerEvent.close h) i = tt
  after_inbound-IsFinished (Ending.answers (HandlerEvent.custom m) h) i = tt
  after_inbound-IsFinished (Ending.answers (HandlerEvent.outbound_substream_request n) h) i = tt
  after_inbound-IsFinished Ending.panics i = tt
  after_inbound-IsFinished Ending.exhausted i = i

  -- A poll of a handler ends: neither of its loops runs out of rounds, whatever the substreams answer.
  pub poll-IsFinished : (h : EpisubHandler S) → IsFinished (poll f h)
  unfolding poll
  poll-IsFinished h =
      after_inbound-IsFinished (process_inbound_poll f h) (process_inbound_poll-IsFinished h)
