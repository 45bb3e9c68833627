-- ===== src/Handler/Panic.antt =====
-- What a failure of the inbound substream does to a handler.
use irn.Base.{◌≡◌, refl, some}
use irn.Handler.{
  Framed, InboundSubstreamState, EpisubHandler, Round, Ending, Next, after_next, inbound_round,
  inbound_loop, process_inbound_poll, after_inbound, poll,
}

after_next-failed :
    {S : Type 0} (f : Framed S) (h : EpisubHandler S) (r : Next × S)
    → r.0 ≡ Next.failed
    → (elim (after_next h r) [
      | Round.again u ↦ inbound_loop f 1 u
      | Round.done e u ↦ Ending.answers e u
      | Round.panicked ↦ Ending.panics
    ])
      ≡ Ending.panics
unfolding after_next inbound_loop inbound_round
after_next-failed f h (Next.failed, s) e = refl
after_next-failed f h (Next.received m, s) e = cc
after_next-failed f h (Next.ended, s) e = cc
after_next-failed f h (Next.waiting, s) e = cc

-- A handler whose inbound substream answers with an error panics in the same poll: the substream is
-- left poisoned, and the next round of the loop takes that to be unreachable.
pub poll-panics :
    {S : Type 0} (f : Framed S) (h : EpisubHandler S) (s : S)
    → h.inbound_substream ≡ some (InboundSubstreamState.waiting_input s)
    → (f.poll_next s).0 ≡ Next.failed
    → poll f h ≡ Ending.panics
unfolding poll process_inbound_poll inbound_loop inbound_round after_inbound
poll-panics f h s open_ failed =
    simp
      (
        poll,
        process_inbound_poll,
        inbound_loop,
        open_,
        inbound_round,
        after_next-failed f h (f.poll_next s) failed,
      )
      refl
