-- ===== src/Network/Dispatch.antt =====
-- What a node that gossips a command makes the other nodes of the network receive.
use irn.Base.{
  String, ◌≡◌, refl, true, false, Option, none, some, ok, ◌==◌, Eq-String, arith, beq_of_ne,
  beq_refl, ℕ,
}
use irn.Network.{
  Bincode, NetworkEvent, NetworkCommand, dispatch, event_or, topic_name, message_topic,
  subscribe_topic, ack_topic,
}
use irn.Primitives.{Hasher, Message, Multihash}
use irn.Rpc.{Bytes, EpisubEvent}
use text.Mathlib.TextLemmas.{append_cancel_left}
use Prim.Native.String.{◌++◌ as str_append}

-- The documented behaviour of the serialisation: what is written is read back, without the cache of a
-- message.
pub record IsLawfulBincode (c : Bincode) : Type 0 where
  pub message_round :
      (m : Message)
      → (b : Bytes) × (c.serialize_message m ≡ some b)
        × (c.deserialize_message b ≡ ok (record m { hashcache = none }))
  pub hash_round :
      (m : Multihash) → (b : Bytes) × (c.serialize_hash m ≡ some b) × (c.deserialize_hash b ≡ ok m)

-- The topic and the payload of a command that gossips.
abbrev pub addressed : Bincode → String → NetworkCommand → String × Option Bytes
addressed c network_id (NetworkCommand.connect addr) = ("", none)
addressed c network_id (NetworkCommand.gossip_message m) =
    (message_topic network_id, c.serialize_message m)
addressed c network_id (NetworkCommand.gossip_ack hash) =
    (ack_topic network_id, c.serialize_hash hash)
addressed c network_id (NetworkCommand.gossip_subscription sub) =
    (subscribe_topic network_id, c.serialize_hash sub)

-- The event that the command becomes. An acknowledgement is read by another decoder than the one that
-- goes with its encoding.
abbrev pub echo : Hasher → NetworkCommand → Bytes → Option NetworkEvent
echo h (NetworkCommand.connect addr) payload = none
echo h (NetworkCommand.gossip_message m) payload =
    some (NetworkEvent.message_received (record m { hashcache = none }))
echo h (NetworkCommand.gossip_ack hash) payload =
    event_or NetworkEvent.message_acknowledged (h.from_bytes payload)
echo h (NetworkCommand.gossip_subscription sub) payload =
    some (NetworkEvent.subscription_received sub)

-- Topics of one network differ where their last parts do.
topic_name-apart :
    (network_id a b : String)
    → (a == b) ≡ false
    → (topic_name network_id a == topic_name network_id b) ≡ false
topic_name-apart network_id a b h =
    beq_of_ne (topic_name network_id a) (topic_name network_id b) λ same.
      let tail : a ≡ b =
        append_cancel_left network_id a b
          (append_cancel_left "/" (str_append network_id a) (str_append network_id b) same) in
      let yes_ : (a == b) ≡ true = (Eq-String.beq_iff a b).1 tail in cc

module _ (c : Bincode) (h : Hasher) where
  -- The payload of a command that gossips becomes, at another node of the same network, the event for
  -- the message or the subscription that was gossiped; that of an acknowledgement becomes whatever
  -- `Multihash::from_bytes` makes of the serialised hash.
  pub dispatch-addressed :
      IsLawfulBincode c
      → (network_id : String) (command : NetworkCommand) (id : ℕ) {payload : Bytes}
      → (addressed c network_id command).1 ≡ some payload
      → dispatch c h network_id
          (EpisubEvent.message_received (addressed c network_id command).0 id payload)
        ≡ echo h command payload
  unfolding dispatch
  dispatch-addressed l network_id (NetworkCommand.connect addr) id e = cc
  dispatch-addressed l network_id (NetworkCommand.gossip_message m) id {payload} e =
      let (b, written, back) = l.message_round m in
      let same : b ≡ payload = ground arith in ground (arith, beq_refl (message_topic network_id))
  dispatch-addressed l network_id (NetworkCommand.gossip_subscription sub) id {payload} e =
      let (b, written, back) = l.hash_round sub in
      let same : b ≡ payload = ground arith in
      ground (
        arith,
        beq_refl (subscribe_topic network_id),
        topic_name-apart network_id "/subscribe" "/message" refl,
      )
  dispatch-addressed l network_id (NetworkCommand.gossip_ack hash) id {payload} e = ground (
    arith,
    beq_refl (ack_topic network_id),
    topic_name-apart network_id "/ack" "/message" refl,
    topic_name-apart network_id "/ack" "/subscribe" refl,
  )
