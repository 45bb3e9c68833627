-- ===== src/OptionNext/Tests.antt =====
-- A stream that counts.
use irn.Base.{ℕ, ◌+◌, ◌≡◌, some, [], ◌∷◌, ready}
use irn.OptionNext.{Stream, poll_next}
use irn.OptionNext.Polls

abbrev counter : Stream ℕ ℕ
counter n = (n + 1, ready (some n))

answers-poll_next_example :
    Polls.answers 2 (poll_next counter) (some 5) ≡ ready (some 5) ∷ ready (some 6) ∷ []
answers-poll_next_example = Polls.answers-poll_next 2 counter (some 5)
