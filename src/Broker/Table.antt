-- ===== src/Broker/Table.antt =====
-- What holds of the broker's tables after any history, and what `subscriber` and `publisher` promise.
use zenoh_proxy.Prelude.{
  not, ◌&&◌, eq→==, ℕ, ◌≡◌, ◌≢◌, inl, inr, refl, Option, none, some, List, [], ◌∷◌, arith, ◌==◌,
  ==_iff, Bool-cases, Option-cases, if◌then◌else◌, ◌&&◌, ◌∙◌, not, true, false, Bool,
}
use mathlib.Core.Option
use zenoh_proxy.Cbor.Deserializer
use zenoh_proxy.Prelude.Dict.{
  find, emplace, find-emplace, Entries, emplace-Entries, Distinct, emplace-Distinct,
}
use zenoh_proxy.Broker.{
  false, true, Bool, zn_declare_subscriber, BrokerZenoh, Call, Sub, Pub, Op, connects, disconnects,
  subscribes, registers, publishes, unsubscribes, construct, minus_one, connect, disconnect,
  undeclare_subscribers, undeclare_publishers, un_subscribe, subscriber, subscriber_new, publisher,
  publisher_new, publish, step, run,
}

-- The keys are the ids of their entries, none twice, and every subscription is a handle of zenoh.
pub record IsValid (b : BrokerZenoh) : Type 0 where
  pub subs : Entries (λ k (s : Sub). (s.id ≡ k) × (s.zn_subscriber ≢ 0)) b.subscribers
  pub subs_once : Distinct b.subscribers
  pub pubs : Entries (λ k (p : Pub). p.id ≡ k) b.publishers
  pub pubs_once : Distinct b.publishers

-- Calls alone do not touch the tables.
abbrev SameTables : BrokerZenoh → BrokerZenoh → Type 0
SameTables b c = (c.subscribers ≡ b.subscribers) × (c.publishers ≡ b.publishers)

SameTables-IsValid : (b c : BrokerZenoh) → SameTables b c → IsValid b → IsValid c
SameTables-IsValid b c h v = record {
  subs = rw h.0 v.subs;
  subs_once = rw h.0 v.subs_once;
  pubs = rw h.1 v.pubs;
  pubs_once = rw h.1 v.pubs_once;
}

construct-IsValid : IsValid construct
unfolding construct
construct-IsValid = record { subs = tt; subs_once = tt; pubs = tt; pubs_once = tt }

pub undeclare_subscribers-tables :
    (m : List (ℕ × Sub)) (b : BrokerZenoh) → SameTables b (undeclare_subscribers m b)
unfolding undeclare_subscribers
undeclare_subscribers-tables [] b = (refl, refl)
undeclare_subscribers-tables ((id, s) ∷ m) b = undeclare_subscribers-tables m _

pub undeclare_publishers-tables :
    (m : List (ℕ × Pub)) (b : BrokerZenoh) → SameTables b (undeclare_publishers m b)
unfolding undeclare_publishers
undeclare_publishers-tables [] b = (refl, refl)
undeclare_publishers-tables ((id, p) ∷ m) b = undeclare_publishers-tables m _

disconnect-empties :
    (b : BrokerZenoh) → ((disconnect b).0.subscribers ≡ []) × ((disconnect b).0.publishers ≡ [])
unfolding disconnect
disconnect-empties b =
    let b₁ : BrokerZenoh = record (undeclare_subscribers b.subscribers b) { subscribers = [] } in
    ((undeclare_publishers-tables b₁.publishers b₁).0, refl)

disconnect-IsValid : (b : BrokerZenoh) → IsValid (disconnect b).0
disconnect-IsValid b =
    let e = disconnect-empties b in
    record { subs = rw e.0 tt; subs_once = rw e.0 tt; pubs = rw e.1 tt; pubs_once = rw e.1 tt }

module _ (answer : List Call → Call → ℕ) where
  subscriber_new-IsValid :
      (id : ℕ) (topic : List ℕ) (b : BrokerZenoh)
      → IsValid b
      → IsValid (subscriber_new answer id topic b).0
  unfolding subscriber_new
  subscriber_new-IsValid id topic b v =
      elim (Bool-cases (
        answer b.calls (zn_declare_subscriber b.zenoh_session (Deserializer.c_string topic))
        == 0)) [
          | inl refused ↦ rw refused (SameTables-IsValid b _ (refl, refl) v)
          | inr accepted ↦ rw accepted (record {
            subs =
                emplace-Entries _ id _ b.subscribers (refl, λ e. cc (accepted, eq→== _ _ e)) v.subs;
            subs_once = emplace-Distinct id _ b.subscribers v.subs_once;
            pubs = v.pubs;
            pubs_once = v.pubs_once;
          })
        ]

  subscriber-IsValid :
      (id : ℕ) (topic : List ℕ) (b : BrokerZenoh)
      → IsValid b
      → IsValid (subscriber answer id topic b).0
  unfolding subscriber
  subscriber-IsValid id topic b v = elim (Option-cases (find id b.subscribers)) [
    | inl e ↦ rw (e, subscriber) (subscriber_new-IsValid id topic b v)
    | inr (old, e) ↦ rw (e, subscriber) v
  ]

  publisher_new-IsValid :
      (id : ℕ) (key : List ℕ) (b : BrokerZenoh)
      → IsValid b
      → IsValid (publisher_new answer id key b).0
  unfolding publisher_new
  publisher_new-IsValid id key b v = record {
    subs = v.subs;
    subs_once = v.subs_once;
    pubs = emplace-Entries _ id _ b.publishers refl v.pubs;
    pubs_once = emplace-Distinct id _ b.publishers v.pubs_once;
  }

  publisher-IsValid :
      (id : ℕ) (key : List ℕ) (b : BrokerZenoh) → IsValid b → IsValid (publisher answer id key b).0
  unfolding publisher
  publisher-IsValid id key b v = elim (Option-cases (find id b.publishers)) [
    | inl e ↦ rw (e, publisher) (publisher_new-IsValid id key b v)
    | inr (old, e) ↦ rw (e, publisher) v
  ]

  -- Every operation keeps the tables valid, whatever zenoh answers.
  pub step-IsValid : (b : BrokerZenoh) (o : Op) → IsValid b → IsValid (step answer b o)
  unfolding step connect publish un_subscribe
  step-IsValid b (connects client_id) v = SameTables-IsValid b _ (ground arith) v
  step-IsValid b disconnects v = disconnect-IsValid b
  step-IsValid b (subscribes id topic) v = subscriber-IsValid id topic b v
  step-IsValid b (registers id key) v = publisher-IsValid id key b v
  step-IsValid b (publishes id bs) v = SameTables-IsValid b _ (ground arith) v
  step-IsValid b (unsubscribes id) v = SameTables-IsValid b _ (ground arith) v

  run-IsValid_from : (b : BrokerZenoh) (os : List Op) → IsValid b → IsValid (run answer b os)
  unfolding run
  run-IsValid_from b [] v = v
  run-IsValid_from b (o ∷ os) v = run-IsValid_from (step answer b o) os (step-IsValid b o v)

  -- From the constructor on, after any history of operations and whatever zenoh answers, the tables
  -- are valid: keys are the ids of their entries, no key has two, no subscription is NULL.
  pub run-IsValid : (os : List Op) → IsValid (run answer construct os)
  run-IsValid os = run-IsValid_from construct os construct-IsValid

-- The topic that a subscriber id stands for.
pub topic_of : BrokerZenoh → ℕ → Option (List ℕ)
topic_of b id = Option.map (λ s. s.key) (find id b.subscribers)

abbrev pub first_of_two : Option (List ℕ) → List ℕ → Option (List ℕ)
first_of_two none topic = some topic
first_of_two (some old) topic = some old

-- The handle of a subscriber id.
pub handle_of : BrokerZenoh → ℕ → Option ℕ
handle_of b id = Option.map (λ s. s.zn_subscriber) (find id b.subscribers)

abbrev pub is_none : Option Sub → Bool
is_none none = true
is_none (some sub) = false

emplace-found :
    {B : Type 0} (f : Sub → B) (id j : ℕ) (sub : Sub) (m : List (ℕ × Sub))
    → find id m ≡ none
    → Option.map f (find j (emplace id sub m))
      ≡ (if id == j then some (f sub) else Option.map f (find j m))
emplace-found f id j sub m e = rw (find-emplace id j sub m e) (ground arith)

found-same :
    {B : Type 0} (f : Sub → B) (id j : ℕ) (old : Sub) (m : List (ℕ × Sub))
    → find id m ≡ some old
    → Option.map f (find j m) ≡ (if id == j then some (f old) else Option.map f (find j m))
found-same f id j old m e = elim (Bool-cases (id == j)) [
  | inl same ↦ rw (same, ← (==_iff id j).0 same, e)
  | inr other ↦ rw other
]

-- `subscriber`, with what zenoh answers to the declaration of the topic. An id that is in the table
-- keeps its topic and its handle, no call is made, and 0 is returned. For a new id the declaration is
-- made; if zenoh refuses, the result is -1 and no id changes; otherwise it is 0, and the id stands for
-- the topic, with the handle that zenoh has answered. Every other id stands for what it did.
pub subscriber-topic_of :
    (answer : List Call → Call → ℕ) (id : ℕ) (topic : List ℕ) (b : BrokerZenoh)
    → let r = subscriber answer id topic b in
      let c = zn_declare_subscriber b.zenoh_session (Deserializer.c_string topic) in
      let new = is_none (find id b.subscribers) in
      let refused = new && (answer b.calls c == 0) in
      (r.1 ≡ (if refused then minus_one else 0))
      × (r.0.calls ≡ (if new then c ∷ b.calls else b.calls))
      × ((j : ℕ)
          → topic_of r.0 j ≡ (
              if refused
              then topic_of b j
              else (if id == j then first_of_two (topic_of b id) topic else topic_of b j)))
      × (handle_of r.0 id ≡ (
          if new && not (answer b.calls c == 0) then some (answer b.calls c) else handle_of b id))
unfolding subscriber subscriber_new topic_of handle_of
subscriber-topic_of answer id topic b = elim (Option-cases (find id b.subscribers)) [
  | inr (old, e) ↦
      rw (e, subscriber)
        (refl, refl, λ j. found-same (λ s. s.key) id j old b.subscribers e, rw e refl)
  | inl e ↦
      let c : Call = zn_declare_subscriber b.zenoh_session (Deserializer.c_string topic) in
      elim (Bool-cases (answer b.calls c == 0)) [
        | inl refused ↦ rw (e, subscriber, refused) (refl, refl, λ j. refl, rw e refl)
        | inr accepted ↦
            rw (e, subscriber, accepted)
              (
                refl,
                refl,
                λ j. emplace-found (λ s. s.key) id j _ b.subscribers e,
                emplace-found (λ s. s.zn_subscriber) id id _ b.subscribers e
                    ∙ rw (eq→== id id refl),
              )
      ]
]
