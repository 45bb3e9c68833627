-- ===== src/OptionNext.antt =====
-- src/optstream.rs: the next item of a stream that may be absent.
pub mod Polls
mod Tests
use irn.Base.{ℕ, zero, suc, Bool, true, Option, none, some, List, [], ◌∷◌, Poll, ready, pending}

-- A stream over a state: one poll gives the state after it.
abbrev pub Stream : Type 0 → Type 0 → Type 0
Stream S Item = S → S × Poll (Option Item)

module _ {S Item : Type 0} where
  -- `OptionNext::poll`
  unfoldable pub poll_next : Stream S Item → Stream (Option S) Item
  poll_next next (some s) = ((some (next s).0), (next s).1)
  poll_next next none = (none, pending)

-- `OptionNext::is_terminated`
unfoldable pub is_terminated : {S : Type 0} → (S → Bool) → Option S → Bool
is_terminated ended (some s) = ended s
is_terminated ended none = true
