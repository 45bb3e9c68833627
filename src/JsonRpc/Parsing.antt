-- ===== src/JsonRpc/Parsing.antt =====
-- Which requests are accepted, against a description of the request.
use irn.Base.{
  String, ◌≡◌, refl, ◌↔◌, ◌⊎◌, inl, inr, Option, Option-cases, Result-cases, Bool-cases, sym, subst,
  none, some, Result, ok, err, ◌>>=◌, ◌==◌, Eq-String, arith,
}
use irn.JsonRpc.{
  Formats, text_at, get_string, parse_subscribe, parse_publish, parse_method, parse_request,
  topic_of, message_of,
}
use irn.Primitives.{Hasher, Multihash, Subscription, Message, new}
use irn.Rpc.{Bytes}

module _ {Value : Type 0} (f : Formats Value) (h : Hasher) where
  -- A text that stands for a multihash in base58.
  abbrev pub Names : Option String → Multihash → Type 0
  Names t topic =
      (text : String) × (t ≡ some text)
      × (b : Bytes) × (f.into_vec text ≡ ok b)
      × (h.from_bytes b ≡ ok topic)

  -- What a publish request holds, and what a subscribe request does.
  abbrev pub Publishes : Value → Message → Type 0
  Publishes json m =
      (params : Value) × (f.get json "params" ≡ some params)
      × (topic : Multihash) × Names (text_at f h params "topic") topic
      × (content : String) × (text_at f h params "message" ≡ some content)
      × (m ≡ new topic (f.as_bytes content))

  abbrev pub Subscribes : Value → Subscription → Type 0
  Subscribes json s =
      (params : Value) × (f.get json "params" ≡ some params) × Names (text_at f h params "topic") s

  abbrev pub Describes : Value → Message ⊎ Subscription → Type 0
  Describes json (inl m) = (text_at f h json "method" ≡ some "irn_publish") × Publishes json m
  Describes json (inr s) = (text_at f h json "method" ≡ some "irn_subscribe") × Subscribes json s

  Names-topic_of :
      (t : Option String) {topic : Multihash}
      → topic_of f h t ≡ some (ok (ok topic))
      → Names t topic
  Names-topic_of none e = cc
  Names-topic_of (some text) {topic} e = elim (Result-cases (f.into_vec text)) [
    | inl (b, d) ↦ (text, refl, b, d, ground arith)
    | inr (r, d) ↦ absurd (ground arith)
  ]

  message_of_lem :
      (t : Option (Result String (Result String Multihash))) (content : Bytes) {m : Message}
      → message_of f h t content ≡ ok m
      → (topic : Multihash) × (t ≡ some (ok (ok topic))) × (m ≡ new topic content)
  message_of_lem none content e = cc
  message_of_lem (some (err r)) content e = cc
  message_of_lem (some (ok (err r))) content e = cc
  message_of_lem (some (ok (ok topic))) content e = (topic, refl, ground arith)

  parse_publish-accepts :
      (json : Value) {m : Message} → parse_publish f h json ≡ ok m → Publishes json m
  unfolding parse_publish
  parse_publish-accepts json {m} e = elim (Option-cases (f.get json "params")) [
    | inl p ↦ absurd (ground arith)
    | inr (params, p) ↦ elim (Option-cases (text_at f h params "message")) [
      | inl c ↦ absurd (ground arith)
      | inr (content, c) ↦
          let read : message_of f h (topic_of f h (text_at f h params "topic")) (f.as_bytes content)
              ≡ ok m =
            ground arith in
          let (topic, t, same) =
            message_of_lem (topic_of f h (text_at f h params "topic")) (f.as_bytes content) read in
          (params, p, topic, Names-topic_of (text_at f h params "topic") t, content, c, same)
    ]
  ]

  parse_publish-accepted :
      (json : Value) {m : Message} → Publishes json m → parse_publish f h json ≡ ok m
  unfolding parse_publish
  parse_publish-accepted json (params, p, topic, (text, t, b, d, r), content, c, same) =
      ground arith

  parse_subscribe-accepts :
      (json : Value) {s : Subscription} → parse_subscribe f h json ≡ ok s → Subscribes json s
  unfolding parse_subscribe
  parse_subscribe-accepts json {s} e = elim (Option-cases (f.get json "params")) [
    | inl p ↦ absurd (ground arith)
    | inr (params, p) ↦ elim (Option-cases (text_at f h params "topic")) [
      | inl t ↦ absurd (ground arith)
      | inr (text, t) ↦ elim (Result-cases (f.into_vec text)) [
        | inr (r, d) ↦ absurd (ground arith)
        | inl (b, d) ↦ elim (Result-cases (h.from_bytes b)) [
          | inr (r, q) ↦ absurd (ground arith)
          | inl (topic, q) ↦
              let same : topic ≡ s = ground arith in (params, p, (text, t, b, d, rw (sym same) q))
        ]
      ]
    ]
  ]

  parse_subscribe-accepted :
      (json : Value) {s : Subscription} → Subscribes json s → parse_subscribe f h json ≡ ok s
  unfolding parse_subscribe
  parse_subscribe-accepted json (params, p, (text, t, b, d, r)) = ground arith

  parse_method-accepts :
      (json : Value) (method : String) {r : Message ⊎ Subscription}
      → text_at f h json "method" ≡ some method
      → parse_method f h json method ≡ ok r
      → Describes json r
  unfolding parse_method
  parse_method-accepts json method {r} t e = elim (Bool-cases (method == "irn_subscribe")) [
    | inl sub ↦ elim (Result-cases (parse_subscribe f h json)) [
      | inl (s, p) ↦
          let out : inr s ≡ r = ground arith in
          let name = (Eq-String.beq_iff method "irn_subscribe").0 sub in
          subst (Describes json) out
            (subst (λ m. text_at f h json "method" ≡ some m) name t, parse_subscribe-accepts json p)
      | inr (w, p) ↦ absurd (ground arith)
    ]
    | inr not_sub ↦ elim (Bool-cases (method == "irn_publish")) [
      | inl pub_ ↦ elim (Result-cases (parse_publish f h json)) [
        | inl (m, p) ↦
            let out : inl m ≡ r = ground arith in
            let name = (Eq-String.beq_iff method "irn_publish").0 pub_ in
            subst (Describes json) out
              (subst (λ m. text_at f h json "method" ≡ some m) name t, parse_publish-accepts json p)
        | inr (w, p) ↦ absurd (ground arith)
      ]
      | inr not_pub ↦ absurd (ground arith)
    ]
  ]

  parse_method-accepted :
      (json : Value) (r : Message ⊎ Subscription)
      → Describes json r
      → get_string f h json "method" >>= (λ method. parse_method f h json method) ≡ ok r
  unfolding get_string parse_method
  parse_method-accepted json (inl m) (t, d) =
      let e = parse_publish-accepted json d in rw (t, get_string) (rw e refl)
  parse_method-accepted json (inr s) (t, d) =
      let e = parse_subscribe-accepted json d in rw (t, get_string) (rw e refl)

  -- A request is accepted exactly when it is JSON text that names one of the two methods and holds
  -- what that method asks for; the result is the message or the subscription that it describes.
  pub parse_request-Describes :
      (request : String) (r : Message ⊎ Subscription)
      → (parse_request f h request ≡ ok r)
        ↔ ((json : Value) × (f.from_str request ≡ ok json) × Describes json r)
  unfolding parse_request get_string
  parse_request-Describes request r = (
    (λ e. elim (Result-cases (f.from_str request)) [
      | inr (w, p) ↦ absurd (ground arith)
      | inl (json, p) ↦ elim (Option-cases (text_at f h json "method")) [
        | inl t ↦ absurd (ground arith)
        | inr (method, t) ↦
            let parsed : parse_method f h json method ≡ ok r = ground arith in
            (json, p, parse_method-accepts json method t parsed)
      ]
    ]),
    λ (json, p, d). rw p (parse_method-accepted json r d),
  )
