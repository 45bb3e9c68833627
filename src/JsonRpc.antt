-- ===== src/JsonRpc.antt =====
-- src/rpc/protocol.rs: the requests of external clients, in JSON-RPC.
pub mod Parsing
pub mod Service
pub mod Serving
mod Tests
use irn.Base.{
  String, ◌⊎◌, inl, inr, Option, none, some, Result, ok, err, map_err, ◌>>=◌, ◌==◌, Eq-String,
  if◌then◌else◌,
}
use irn.Primitives.{Hasher, Multihash, Subscription, Message, new}
use irn.Rpc.{Bytes}

-- The crates `serde_json` and `bs58`, with the bytes of a text. `get` looks a field of an object up,
-- and `as_str` is the text of a string value; both give nothing for a value of another kind.
pub record Formats (Value : Type 0) : Type 0 where
  pub from_str : String → Result String Value
  pub get : Value → String → Option Value
  pub as_str : Value → Option String
  pub into_vec : String → Result String Bytes
  pub as_bytes : String → Bytes

pub data RequestError : Type 0 where
  invalid_method missing_field base58_error multihash_error deserialization : String → RequestError

module _ {Value : Type 0} (f : Formats Value) (h : Hasher) where
  -- `get(name).and_then(|t| t.as_str())`
  abbrev pub text_at : Value → String → Option String
  text_at json name = elim (f.get json name) [ none ↦ none | some v ↦ f.as_str v ]

  unfoldable pub get_string : Value → String → Result RequestError String
  get_string json name = elim (text_at json name) [
    | none ↦ err (RequestError.missing_field name)
    | some value ↦ ok value
  ]

  unfoldable pub parse_subscribe : Value → Result RequestError Subscription
  parse_subscribe json = elim (f.get json "params") [
    | none ↦ err (RequestError.missing_field "params")
    | some params ↦ elim (text_at params "topic") [
      | none ↦ err (RequestError.missing_field "params")
      | some topic ↦ elim (f.into_vec topic) [
        | err e ↦ err (RequestError.missing_field "params")
        | ok bytes ↦ map_err RequestError.multihash_error (h.from_bytes bytes)
      ]
    ]
  ]

  -- The topic of a message: absent, not in base58, or not a multihash, unless it is one.
  abbrev pub topic_of : Option String → Option (Result String (Result String Multihash))
  topic_of none = none
  topic_of (some t) =
      some (elim (f.into_vec t) [ err e ↦ err e | ok bytes ↦ ok (h.from_bytes bytes) ])

  abbrev pub message_of :
      Option (Result String (Result String Multihash)) → Bytes → Result RequestError Message
  message_of (some (ok (ok topic))) content = ok (new topic content)
  message_of (some (ok (err e))) content = err (RequestError.missing_field "params.topic")
  message_of (some (err e)) content = err (RequestError.missing_field "params.topic")
  message_of none content = err (RequestError.missing_field "params.topic")

  unfoldable pub parse_publish : Value → Result RequestError Message
  parse_publish json = elim (f.get json "params") [
    | none ↦ err (RequestError.missing_field "params")
    | some params ↦ elim (text_at params "message") [
      | none ↦ err (RequestError.missing_field "params.message")
      | some content ↦ message_of (topic_of (text_at params "topic")) (f.as_bytes content)
    ]
  ]

  -- The request, by its method.
  unfoldable pub parse_method : Value → String → Result RequestError (Message ⊎ Subscription)
  parse_method json method =
      if method == "irn_subscribe"
      then (parse_subscribe json >>= (λ s. ok (inr s)))
      else if method == "irn_publish"
      then (parse_publish json >>= (λ m. ok (inl m)))
      else err (RequestError.invalid_method method)

  unfoldable pub parse_request : String → Result RequestError (Message ⊎ Subscription)
  parse_request request =
      map_err RequestError.deserialization (f.from_str request)
      >>= (λ json. get_string json "method" >>= (λ method. parse_method json method))
