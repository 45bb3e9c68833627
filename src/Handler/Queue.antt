-- ===== src/Handler/Queue.antt =====
-- Which messages a handler queues, and in which order it takes them.
use irn.Base.{
  ℕ, ◌≡◌, refl, sym, ap, ◌∙◌, Bool, true, false, List, [], ◌∷◌, ◌++◌, append_assoc, append-nil,
  retain, if◌then◌else◌, arith,
}
use irn.Rpc.{Rpc}
use irn.Handler.{EpisubHandler, is_shuffle_reply, new, inject_event}

-- The events that a connection takes: all of them, or shuffle replies only if it is temporary.
abbrev pub admitted : Bool → List Rpc → List Rpc
admitted keep_alive = retain (λ e. if keep_alive then true else is_shuffle_reply e.action)

admitted-all : (events : List Rpc) → admitted true events ≡ events
admitted-all [] = refl
admitted-all (e ∷ rest) = ap (◌∷◌ e) (admitted-all rest)

module _ {S : Type 0} where
  abbrev pub inject_all : EpisubHandler S → List Rpc → EpisubHandler S
  inject_all h [] = h
  inject_all h (e ∷ rest) = inject_all (inject_event h e) rest

  inject_all-queue :
      (events : List Rpc) (h : EpisubHandler S)
      → (inject_all h events).outbound_queue ≡ h.outbound_queue ++ admitted h.keep_alive events
  unfolding inject_event
  inject_all-queue [] h = sym (append-nil h.outbound_queue)
  inject_all-queue (e ∷ rest) h = ground (
    arith,
    inject_all-queue rest (record h { outbound_queue = h.outbound_queue ++ e ∷ [] }),
    inject_all-queue rest h,
    append_assoc h.outbound_queue (e ∷ []) (admitted h.keep_alive rest),
  )

-- A new handler queues the events that it is given in their order: all of them on a lasting
-- connection, and the shuffle replies among them on a temporary one.
pub inject_all-admitted :
    (S : Type 0) (max_transmit_size : ℕ) (temporary : Bool) (events : List Rpc)
    → (inject_all (new {S = S} max_transmit_size temporary) events).outbound_queue
      ≡ (if temporary then retain (λ e. is_shuffle_reply e.action) events else events)
unfolding new
inject_all-admitted S n true events = inject_all-queue events (new {S = S} n true)
inject_all-admitted S n false events =
    inject_all-queue events (new {S = S} n false) ∙ admitted-all events
