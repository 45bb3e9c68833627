-- ===== src/OptionNext/Polls.antt =====
-- A stream in an option, polled again and again.
use irn.Base.{ℕ, zero, suc, ◌≡◌, refl, ap, Option, none, some, List, [], ◌∷◌, Poll, pending}
use irn.OptionNext.{Stream, poll_next}

-- The answers to n polls.
abbrev pub answers : {S Item : Type 0} → ℕ → Stream S Item → S → List (Poll (Option Item))
answers zero next s = []
answers (suc n) next s = (next s).1 ∷ answers n next (next s).0

abbrev pub pendings : {Item : Type 0} → ℕ → List (Poll (Option Item))
pendings zero = []
pendings (suc n) = pending ∷ pendings n

-- Polled any number of times, a stream in an option answers as the stream itself does, and an absent
-- one is always pending.
pub answers-poll_next :
    {S Item : Type 0} (n : ℕ) (next : Stream S Item) (o : Option S)
    → answers n (poll_next next) o ≡ elim o [ none ↦ pendings n | some s ↦ answers n next s ]
unfolding poll_next
answers-poll_next zero next none = refl
answers-poll_next zero next (some s) = refl
answers-poll_next (suc n) next none = ap (◌∷◌ pending) (answers-poll_next n next none)
answers-poll_next (suc n) next (some s) =
    ap (◌∷◌ (next s).1) (answers-poll_next n next (some (next s).0))
