-- ===== src/Handler.antt =====
-- src/network/episub/handler.rs, EpisubHandler: the two substreams of one connection. The framed substream
-- of the `asynchronous_codec` crate is a parameter: a state with one answer for each poll. A loop runs
-- on fuel; Handler/Fuel has the fuel that is enough.
pub mod Fuel
pub mod Panic
pub mod Queue
pub mod Order
mod Tests
use irn.Base.{
  ℕ, zero, suc, ◌+◌, ◌*◌, Bool, true, false, not, Option, none, some, List, [], ◌∷◌, ◌++◌, length,
  if◌then◌else◌,
}
use irn.Rpc.{Rpc, Action}

-- What `poll_next` answers.
pub data Next : Type 0 where
  received : Rpc → Next
  failed ended waiting : Next

-- What `poll_ready`, `poll_flush` and `poll_close` answer.
pub data Readiness : Type 0 where
  ready broken pending : Readiness

-- What `start_send` answers.
pub data Sent : Type 0 where
  accepted oversized refused : Sent

pub record Framed (S : Type 0) : Type 0 where
  pub poll_next : S → Next × S
  pub poll_ready : S → Readiness × S
  pub poll_flush : S → Readiness × S
  pub poll_close : S → Readiness × S
  pub start_send : S → Rpc → Sent × S

pub data InboundSubstreamState (S : Type 0) : Type 0 where
  waiting_input closing : S → InboundSubstreamState S
  poisoned : InboundSubstreamState S

pub data OutboundSubstreamState (S : Type 0) : Type 0 where
  substream_requested : OutboundSubstreamState S
  waiting_output pending_flush _closing : S → OutboundSubstreamState S
  pending_send : S → Rpc → OutboundSubstreamState S
  poisoned_output : OutboundSubstreamState S

pub record EpisubHandler (S : Type 0) : Type 0 where
  pub max_transmit_size : ℕ
  pub outbound_substream : Option (OutboundSubstreamState S)
  pub inbound_substream : Option (InboundSubstreamState S)
  pub keep_alive : Bool
  pub outbound_queue : List Rpc

-- What a poll tells the swarm.
pub data HandlerEvent : Type 0 where
  idle close : HandlerEvent
  custom : Rpc → HandlerEvent
  outbound_substream_request : (max_transmit_size : ℕ) → HandlerEvent

-- One round of a loop: another round, the end of the loop with its answer, or a panic.
pub data Round (S : Type 0) : Type 0 where
  again : EpisubHandler S → Round S
  done : HandlerEvent → EpisubHandler S → Round S
  panicked : Round S

-- How a loop ends.
pub data Ending (S : Type 0) : Type 0 where
  answers : HandlerEvent → EpisubHandler S → Ending S
  panics exhausted : Ending S

abbrev pub is_shuffle_reply : Option Action → Bool
is_shuffle_reply (some (Action.shuffle_reply nodes)) = true
is_shuffle_reply _ = false

module _ {S : Type 0} where
  unfoldable pub new : ℕ → Bool → EpisubHandler S
  new max_transmit_size temporary = record {
    max_transmit_size = max_transmit_size;
    outbound_substream = none;
    inbound_substream = none;
    keep_alive = not temporary;
    outbound_queue = [];
  }

  unfoldable pub inject_fully_negotiated_inbound : EpisubHandler S → S → EpisubHandler S
  inject_fully_negotiated_inbound h s = record h {
    inbound_substream = some (InboundSubstreamState.waiting_input s);
  }

  unfoldable pub inject_fully_negotiated_outbound : EpisubHandler S → S → EpisubHandler S
  inject_fully_negotiated_outbound h s = record h {
    outbound_substream = some (OutboundSubstreamState.waiting_output s);
  }

  unfoldable pub inject_event : EpisubHandler S → Rpc → EpisubHandler S
  inject_event h event =
      let queued : EpisubHandler S = record h { outbound_queue = h.outbound_queue ++ event ∷ [] } in
      if not h.keep_alive then if is_shuffle_reply event.action then queued else h else queued

  -- `mem::replace` has left the substream poisoned; a branch that writes nothing leaves it so.
  abbrev pub poisoned_in : EpisubHandler S → EpisubHandler S
  poisoned_in h = record h { inbound_substream = some InboundSubstreamState.poisoned }

  abbrev pub poisoned_out : EpisubHandler S → EpisubHandler S
  poisoned_out h = record h { outbound_substream = some OutboundSubstreamState.poisoned_output }

  abbrev pub with_inbound : EpisubHandler S → Option (InboundSubstreamState S) → EpisubHandler S
  with_inbound h i = record h { inbound_substream = i }

  abbrev pub with_outbound : EpisubHandler S → Option (OutboundSubstreamState S) → EpisubHandler S
  with_outbound h o = record h { outbound_substream = o }

  -- A poll that waits for the remote keeps the connection alive.
  abbrev pub kept : EpisubHandler S → EpisubHandler S
  kept h = record h { keep_alive = true }

  abbrev pub released : EpisubHandler S → EpisubHandler S
  released h = record h { keep_alive = false }

  -- Without the other substream, a closed one ends the connection.
  unfoldable pub closed_inbound :
      EpisubHandler S → Option (OutboundSubstreamState S) → EpisubHandler S
  closed_inbound h none = released (with_inbound h none)
  closed_inbound h (some o) = with_inbound h none

  unfoldable pub closed_outbound :
      EpisubHandler S → Option (InboundSubstreamState S) → EpisubHandler S
  closed_outbound h none = released (with_outbound h none)
  closed_outbound h (some i) = with_outbound h none

  unfoldable pub after_next : EpisubHandler S → Next × S → Round S
  after_next h (Next.received message, s) =
      Round.done (HandlerEvent.custom message)
        (with_inbound h (some (InboundSubstreamState.waiting_input s)))
  after_next h (Next.failed, s) = Round.again (poisoned_in h)
  after_next h (Next.ended, s) =
      Round.again (with_inbound h (some (InboundSubstreamState.closing s)))
  after_next h (Next.waiting, s) =
      Round.done HandlerEvent.idle (with_inbound h (some (InboundSubstreamState.waiting_input s)))

  unfoldable pub after_close : EpisubHandler S → Readiness × S → Round S
  after_close h (Readiness.pending, s) =
      Round.done HandlerEvent.idle (with_inbound h (some (InboundSubstreamState.closing s)))
  after_close h (Readiness.ready, s) =
      Round.done HandlerEvent.idle (closed_inbound h h.outbound_substream)
  after_close h (Readiness.broken, s) =
      Round.done HandlerEvent.idle (closed_inbound h h.outbound_substream)

  module _ (f : Framed S) where
    unfoldable pub inbound_round : EpisubHandler S → Option (InboundSubstreamState S) → Round S
    inbound_round h (some (InboundSubstreamState.waiting_input s)) = after_next h (f.poll_next s)
    inbound_round h (some (InboundSubstreamState.closing s)) = after_close h (f.poll_close s)
    inbound_round h (some InboundSubstreamState.poisoned) = Round.panicked
    inbound_round h none = Round.done HandlerEvent.idle (with_inbound h none)

    unfoldable pub after_send : EpisubHandler S → Sent × S → Round S
    after_send h (Sent.accepted, s) =
        Round.again (with_outbound h (some (OutboundSubstreamState.pending_flush s)))
    after_send h (Sent.oversized, s) =
        Round.again (with_outbound h (some (OutboundSubstreamState.waiting_output s)))
    after_send h (Sent.refused, s) = Round.done HandlerEvent.close (poisoned_out h)

    unfoldable pub after_ready : EpisubHandler S → Rpc → Readiness × S → Round S
    after_ready h message (Readiness.ready, s) = after_send h (f.start_send s message)
    after_ready h message (Readiness.broken, s) = Round.done HandlerEvent.close (poisoned_out h)
    after_ready h message (Readiness.pending, s) =
        Round.done HandlerEvent.idle
          (kept (with_outbound h (some (OutboundSubstreamState.pending_send s message))))

    unfoldable pub after_flush : EpisubHandler S → Readiness × S → Round S
    after_flush h (Readiness.ready, s) =
        Round.again (with_outbound h (some (OutboundSubstreamState.waiting_output s)))
    after_flush h (Readiness.broken, s) = Round.done HandlerEvent.close (poisoned_out h)
    after_flush h (Readiness.pending, s) =
        Round.done HandlerEvent.idle
          (kept (with_outbound h (some (OutboundSubstreamState.pending_flush s))))

    unfoldable pub after_closing : EpisubHandler S → Readiness × S → Round S
    after_closing h (Readiness.ready, s) =
        Round.done HandlerEvent.idle (closed_outbound h h.inbound_substream)
    after_closing h (Readiness.broken, s) = Round.done HandlerEvent.close (poisoned_out h)
    after_closing h (Readiness.pending, s) =
        Round.done HandlerEvent.idle
          (released (with_outbound h (some (OutboundSubstreamState._closing s))))

    -- The next message of the queue, if there is one.
    unfoldable pub take_message : EpisubHandler S → S → List Rpc → Round S
    take_message h s [] =
        Round.done HandlerEvent.idle
          (with_outbound h (some (OutboundSubstreamState.waiting_output s)))
    take_message h s (message ∷ rest) = Round.again (record h {
      outbound_substream = some (OutboundSubstreamState.pending_send s message);
      outbound_queue = rest;
    })

    unfoldable pub outbound_round : EpisubHandler S → Option (OutboundSubstreamState S) → Round S
    outbound_round h (some (OutboundSubstreamState.waiting_output s)) =
        take_message h s h.outbound_queue
    outbound_round h (some (OutboundSubstreamState.pending_send s message)) =
        after_ready h message (f.poll_ready s)
    outbound_round h (some (OutboundSubstreamState.pending_flush s)) =
        after_flush h (f.poll_flush s)
    outbound_round h (some (OutboundSubstreamState._closing s)) = after_closing h (f.poll_close s)
    outbound_round h (some OutboundSubstreamState.substream_requested) =
        Round.done HandlerEvent.idle
          (with_outbound h (some OutboundSubstreamState.substream_requested))
    outbound_round h (some OutboundSubstreamState.poisoned_output) = Round.panicked
    outbound_round h none =
        Round.done (HandlerEvent.outbound_substream_request h.max_transmit_size)
          (with_outbound h (some OutboundSubstreamState.substream_requested))

    unfoldable pub inbound_loop : ℕ → EpisubHandler S → Ending S
    inbound_loop zero h = Ending.exhausted
    inbound_loop (suc fuel) h = elim (inbound_round h h.inbound_substream) [
      | Round.again u ↦ inbound_loop fuel u
      | Round.done e u ↦ Ending.answers e u
      | Round.panicked ↦ Ending.panics
    ]

    unfoldable pub outbound_loop : ℕ → EpisubHandler S → Ending S
    outbound_loop zero h = Ending.exhausted
    outbound_loop (suc fuel) h = elim (outbound_round h h.outbound_substream) [
      | Round.again u ↦ outbound_loop fuel u
      | Round.done e u ↦ Ending.answers e u
      | Round.panicked ↦ Ending.panics
    ]

    -- A substream that ends is closed in the next round, and one that fails is found poisoned there.
    unfoldable pub process_inbound_poll : EpisubHandler S → Ending S
    process_inbound_poll = inbound_loop 2

    -- A message takes three rounds at most: it is taken, sent, and flushed.
    unfoldable pub process_outbound_poll : EpisubHandler S → Ending S
    process_outbound_poll h = outbound_loop (3 * length h.outbound_queue + 3) h

    -- The outbound substream is processed if the inbound one has nothing to tell.
    unfoldable pub after_inbound : Ending S → Ending S
    after_inbound (Ending.answers HandlerEvent.idle h) = process_outbound_poll h
    after_inbound (Ending.answers e h) = Ending.answers e h
    after_inbound Ending.panics = Ending.panics
    after_inbound Ending.exhausted = Ending.exhausted

    unfoldable pub poll : EpisubHandler S → Ending S
    poll h = after_inbound (process_inbound_poll h)
