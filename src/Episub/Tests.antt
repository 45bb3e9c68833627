-- ===== src/Episub/Tests.antt =====
-- Episub on small inputs, and its theorems at concrete nodes.
use irn.Base.{some, ◌↔◌, String, ◌≢◌, true, ◌≡◌, refl, none, List, [], ◌∷◌, Eq-ℕ, Eq-String}
use irn.Episub.{
  Episub, topic_key, PollParameters, ConnectedPoint, new, subscribe, inject_event, settle,
  inject_connection_established, ban_peer, force_disconnect,
}
use irn.Episub.Address.{is_local, is_local_address}
use irn.Episub.Calls.{Call, call, run}
use irn.Episub.Joining
use irn.Episub.Crashing
use irn.Episub.Isolation
use irn.Episub.Keeping
use irn.Episub.Knowing
use irn.Episub.Standing
use irn.Episub.Subscribed
use irn.Episub.Verdict
use irn.Rpc.{Rpc, Action, Multiaddr, Protocol, NetworkAction}
use irn.Samples.{host, config, peer}
use irn.Topic
use irn.Tree
use irn.Cache
use irn.Base.Keyed.{find}

program : Unit {0}
unfolding new subscribe inject_event inject_connection_established ban_peer force_disconnect
    is_local is_local_address call run
program = tt

abbrev home : Multiaddr
home = Protocol.ip4 3232235777 ∷ Protocol.tcp 4001 ∷ []

abbrev params : PollParameters
params = record {
  local_peer_id = 0;
  external_addresses = [];
  listened_addresses = (Protocol.ip4 0x7f000001 ∷ []) ∷ home ∷ [];
}

-- An event on a topic, without an action.
abbrev blank : Rpc
blank = record { topic = "u"; action = none }

run-panics_example :
    run host (new config) (
      Call.subscribes "t" 0
      ∷ Call.connected 3 1 (ConnectedPoint.dialer home)
      ∷ Call.receives 3 1 blank 0
      ∷ Call.polls params 0
      ∷ [])
    ≡ none
unfolding program
run-panics_example = Joining.run-panics host config "t" "u" 3 1 home params 0 refl refl refl

inject_event-Verdict_example :
    Verdict.Verdict host (new config) 3 blank (inject_event host (new config) 3 1 blank 0)
inject_event-Verdict_example = Verdict.inject_event-Verdict host (new config) 3 1 blank 0

abbrev banning : List Call
banning = Call.subscribes "t" 0 ∷ Call.receives 3 1 blank 0 ∷ []

abbrev after : Episub
after = record (new config) {
  pending_topics = "t" ∷ [];
  banned_peers = 3 ∷ [];
  out_events = NetworkAction.close_connection 3 1 ∷ [];
}

apart : ◌≢◌ {A = String} "t" "u"
apart q = let e : Eq-String.beq "t" "u" ≡ true = (Eq-String.beq_iff "t" "u").1 q in cc

-- A node on topic "t", before and after it bans peer 3 for the blank event on "u".
abbrev member : Episub
member = record (new config) {
  topics = record { topic = "t"; mesh = Topic.new "t" config (peer 0) 0 } ∷ [];
}

inject_event-isolated_example :
    find topic_key "t" (ban_peer member 3 1).topics ≡ find topic_key "t" member.topics
unfolding program
inject_event-isolated_example =
    Isolation.inject_event-isolated host member 3 1 blank 0 "t" {u = ban_peer member 3 1} apart refl

-- The node before the ban.
abbrev pending_t : Episub
pending_t = record (new config) { pending_topics = "t" ∷ [] }

run-IsSubscribed_example : Subscribed.IsSubscribed "t" after
unfolding program
run-IsSubscribed_example =
    Standing.run-IsSubscribed host "t" (Call.receives 3 1 blank 0 ∷ []) pending_t {u = after}
      (refl, tt) refl refl

-- A message for topic "t" that cannot be decompressed.
abbrev bomb : Rpc
bomb = record { topic = "t"; action = some (Action.message 7 1 []) }

inject_event-crashes_example :
    (inject_event host member 3 1 bomb 5 ≡ none) ↔ Crashing.IsCrash host member 3 bomb
inject_event-crashes_example = Crashing.inject_event-crashes host member 3 1 bomb 5

-- Both sides hold.
bomb_crashes : inject_event host member 3 1 bomb 5 ≡ none
unfolding program Topic.inject_rpc_call Topic.inject_action Topic.new Tree.inject_message
    Tree.delivered_payload Tree.new Cache.new Cache.insert settle
bomb_crashes = refl
