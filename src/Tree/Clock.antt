-- ===== src/Tree/Clock.antt =====
-- Histories of a PlumTree with polls, whose clock runs forward.
use irn.Base.{ℕ, ◌*◌, ◌≤◌, ◌≡◌, refl, String, Option, none, some, List, [], ◌∷◌}
use irn.Cache
use irn.Config.{Config}
use irn.Host.{Host, IsLawful}
use irn.Rpc.{PeerId, NetworkAction}
use irn.Tree.{
  PlumTree, new, poll, inject_prune, inject_graft, inject_neighbor_up, inject_neighbor_down,
}
use irn.Tree.Delivery.{IsReadable}
use irn.Tree.Inputs.{Input, feed}
use irn.Tree.Progress.{
  IsCurrent, IsCurrent-later, Goes, GoesOn, publish-IsCurrent, inject_ihave-IsCurrent,
  inject_message-Goes, poll-GoesOn,
}

-- What drives a tree: an input, or a poll.
pub data Step : Type 0 where
  feeds : Input → Step
  polls : (now : ℕ) → Step

-- The time after an input, and after a step.
abbrev pub clock : ℕ → Input → ℕ
clock then_ (Input.publishes id payload now) = now
clock then_ (Input.message peer id hop payload now) = now
clock then_ (Input.ihave peer id hop now) = now
clock then_ _ = then_

abbrev pub step_clock : ℕ → Step → ℕ
step_clock then_ (Step.feeds input) = clock then_ input
step_clock then_ (Step.polls now) = now

-- The payload that an input carries can be read.
abbrev pub IsSafe : Host → Config → Step → Type 0
IsSafe h c (Step.feeds input) = IsReadable h c input
IsSafe h c (Step.polls now) = Unit

-- The clock does not run backwards, and the payloads can be read.
abbrev pub IsOrderly : Host → Config → ℕ → List Step → Type 0
IsOrderly h c then_ [] = Unit
IsOrderly h c then_ (s ∷ rest) =
    (then_ ≤ step_clock then_ s) × IsSafe h c s × IsOrderly h c (step_clock then_ s) rest

abbrev pub advance : Host → PlumTree → Step → Option PlumTree
advance h t (Step.feeds input) = feed h t input
advance h t (Step.polls now) = elim (poll h t now) [ none ↦ none | some r ↦ some r.1 ]

abbrev pub advance_all : Host → PlumTree → List Step → Option PlumTree
advance_all h t [] = some t
advance_all h t (s ∷ rest) = elim (advance h t s) [ none ↦ none | some u ↦ advance_all h u rest ]

module _ {h : Host} (laws : IsLawful h) (c : Config)
    (fits : 2 * c.tick_frequency ≤ c.lazy_push_window) where
  feed-Goes :
      (then_ : ℕ) (t : PlumTree) (input : Input)
      → IsCurrent then_ c t
      → then_ ≤ clock then_ input
      → IsReadable h c input
      → Goes (clock then_ input) c (feed h t input)
  unfolding feed inject_neighbor_up inject_neighbor_down inject_prune inject_graft
  feed-Goes then_ t (Input.up p) i le r = record {
    received_timely = i.received_timely;
    observed_timely = i.observed_timely;
    configured = i.configured;
  }
  feed-Goes then_ t (Input.down p) i le r = record {
    received_timely = i.received_timely;
    observed_timely = i.observed_timely;
    configured = i.configured;
  }
  feed-Goes then_ t (Input.prune p) i le r = record {
    received_timely = i.received_timely;
    observed_timely = i.observed_timely;
    configured = i.configured;
  }
  feed-Goes then_ t (Input.graft p ids) i le r = record {
    received_timely = i.received_timely;
    observed_timely = i.observed_timely;
    configured = i.configured;
  }
  feed-Goes then_ t (Input.publishes id payload now) i le r =
      publish-IsCurrent now t (IsCurrent-later le t i) id payload
  feed-Goes then_ t (Input.message p id hop payload now) i le r =
      inject_message-Goes h now t (IsCurrent-later le t i) p id hop payload r.0 r.1
  feed-Goes then_ t (Input.ihave p id hop now) i le r =
      inject_ihave-IsCurrent now t (IsCurrent-later le t i) p id hop

  advance-Goes :
      (then_ : ℕ) (t : PlumTree) (s : Step)
      → IsCurrent then_ c t
      → then_ ≤ step_clock then_ s
      → IsSafe h c s
      → Goes (step_clock then_ s) c (advance h t s)
  advance-Goes then_ t (Step.feeds input) i le r = feed-Goes then_ t input i le r
  advance-Goes then_ t (Step.polls now) i le r =
      second (poll h t now) (poll-GoesOn laws c fits now t (IsCurrent-later le t i))
    where
      second :
          (o : Option (Option NetworkAction × PlumTree))
          → GoesOn now c o
          → Goes now c (elim o [ none ↦ none | some r ↦ some r.1 ])
      second none j = absurd j
      second (some (a, u)) j = j

  advance_all-returns :
      (steps : List Step) (then_ : ℕ) (t : PlumTree)
      → IsCurrent then_ c t
      → IsOrderly h c then_ steps
      → (u : PlumTree) × (advance_all h t steps ≡ some u)
  advance_all-returns [] then_ t i r = (t, refl)
  advance_all-returns (s ∷ rest) then_ t i (le, safe, orderly) =
      onward (advance h t s) (advance-Goes then_ t s i le safe)
        (λ u j. advance_all-returns rest (step_clock then_ s) u j orderly)
    where
      onward :
          (o : Option PlumTree)
          → Goes (step_clock then_ s) c o
          → ((u : PlumTree)
              → IsCurrent (step_clock then_ s) c u
              → (w : PlumTree) × (advance_all h u rest ≡ some w))
          → (u : PlumTree) × ((elim o [ none ↦ none | some u ↦ advance_all h u rest ]) ≡ some u)
      onward none j f = absurd j
      onward (some u) j f = f u j

  -- A new tree never panics, over any sequence of inputs and polls whose times do not run backwards and
  -- whose payloads can be read, if two ticks fit into the lazy push window.
  pub run-returns :
      (topic : String) (local : PeerId) (now : ℕ) (steps : List Step)
      → IsOrderly h c now steps
      → (u : PlumTree) × (advance_all h (new topic c local now) steps ≡ some u)
  unfolding new Cache.new
  run-returns topic local now steps orderly =
      advance_all-returns steps now (new topic c local now)
        (record {
          received_timely = (record { distinct = tt; agree = λ k. refl; sorted = tt }, tt);
          observed_timely = (record { distinct = tt; agree = λ k. refl; sorted = tt }, tt);
          configured = refl;
        })
        orderly
