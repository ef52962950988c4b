-- ===== src/Broker.antt =====
-- src/BrokerZenoh.cpp and BrokerZenoh.h: the broker that the proxy drives, over the zenoh-c library.
-- The library's answers are the environment's: `answer` gives the result of a call (a pointer as a
-- number, 0 for NULL, a resource id or a return code) from the calls before it. An `int` is its
-- 32-bit pattern, a string the list of its bytes.
pub mod Table
pub mod Balance
pub mod Handles
pub mod Routing
pub mod Session
pub mod Registered
pub mod Tests
use mathlib.Core.List.{foldl}
use zenoh_proxy.Prelude.{
  ℕ, Bool, true, false, Option, none, some, List, [], ◌∷◌, ◌==◌, if◌then◌else◌,
}
use zenoh_proxy.Cbor.Deserializer
use zenoh_proxy.Prelude.Dict.{find, emplace}

-- The calls of zenoh-c that the broker makes.
pub data Call : Type 0 where
  zn_open : Call
  zn_declare_subscriber : ℕ → List ℕ → Call
  zn_undeclare_subscriber : ℕ → Call
  zn_declare_resource : ℕ → List ℕ → Call
  zn_declare_publisher : ℕ → ℕ → Call
  zn_undeclare_publisher : ℕ → Call
  zn_write : ℕ → ℕ → List ℕ → Call

-- `Sub`, without its callback: `subscribe_handler` gives what the callback is called with.
pub record Sub : Type 0 where
  pub id : ℕ
  pub key : List ℕ
  pub zn_subscriber : ℕ

pub record Pub : Type 0 where
  pub id : ℕ
  pub key : List ℕ
  pub zn_reskey : ℕ
  pub zn_publisher : ℕ

-- The object, and the calls that it has made, the newest first.
pub record BrokerZenoh : Type 0 where
  pub zenoh_session : ℕ
  pub subscribers : List (ℕ × Sub)
  pub publishers : List (ℕ × Pub)
  pub calls : List Call

abbrev pub minus_one : ℕ
minus_one = 0xffff_ffff

abbrev pub enoent : ℕ
enoent = 2

-- The constructor.
unfoldable pub construct : BrokerZenoh
construct = record { zenoh_session = 0; subscribers = []; publishers = []; calls = [] }

-- `subscribeHandler`: the arguments of the callback, from the sample's value.
unfoldable pub subscribe_handler : Sub → List ℕ → ℕ × List ℕ
subscribe_handler sub value = (sub.id, value)

-- A call goes into the list; its answer is read off where it is used.
abbrev pub issue : Call → BrokerZenoh → BrokerZenoh
issue c b = record b { calls = c ∷ b.calls }

-- The loops of `disconnect`.
unfoldable pub undeclare_subscribers : List (ℕ × Sub) → BrokerZenoh → BrokerZenoh
undeclare_subscribers [] b = b
undeclare_subscribers ((id, sub) ∷ m) b =
    undeclare_subscribers m (issue (zn_undeclare_subscriber sub.zn_subscriber) b)

unfoldable pub undeclare_publishers : List (ℕ × Pub) → BrokerZenoh → BrokerZenoh
undeclare_publishers [] b = b
undeclare_publishers ((id, publ) ∷ m) b =
    undeclare_publishers m (issue (zn_undeclare_publisher publ.zn_publisher) b)

-- `disconnect` keeps the session open.
unfoldable pub disconnect : BrokerZenoh → BrokerZenoh × ℕ
unfolding undeclare_subscribers undeclare_publishers
disconnect b =
    let b₁ : BrokerZenoh = record (undeclare_subscribers b.subscribers b) { subscribers = [] } in
    let b₂ : BrokerZenoh = record (undeclare_publishers b₁.publishers b₁) { publishers = [] } in
    (b₂, 0)

-- `unSubscribe` undeclares, and leaves the entry in the table.
pub un_subscribe : ℕ → BrokerZenoh → BrokerZenoh × ℕ
un_subscribe id b = elim (find id b.subscribers) [
  | none ↦ (b, 0)
  | some sub ↦ (issue (zn_undeclare_subscriber sub.zn_subscriber) b, 0)
]

-- The public operations, and a history of them.
pub data Op : Type 0 where
  connects : List ℕ → Op
  disconnects : Op
  subscribes : ℕ → List ℕ → Op
  registers : ℕ → List ℕ → Op
  publishes : ℕ → List ℕ → Op
  unsubscribes : ℕ → Op

module _ (answer : List Call → Call → ℕ) where
  -- `connect`; the client id is not used.
  unfoldable pub connect : List ℕ → BrokerZenoh → BrokerZenoh × ℕ
  connect client_id b =
      let opened : BrokerZenoh = record (issue zn_open b) {
        zenoh_session = answer b.calls zn_open;
      } in
      let after : BrokerZenoh = if b.zenoh_session == 0 then opened else b in
      (after, if after.zenoh_session == 0 then minus_one else 0)

  -- The new entry of `subscriber`: nothing is stored if zenoh refuses.
  unfoldable pub subscriber_new : ℕ → List ℕ → BrokerZenoh → BrokerZenoh × ℕ
  subscriber_new id topic b =
      let c : Call = zn_declare_subscriber b.zenoh_session (Deserializer.c_string topic) in
      let zsub : ℕ = answer b.calls c in
      let sub : Sub = record { id = id; key = topic; zn_subscriber = zsub } in
      if zsub == 0
      then (issue c b, minus_one)
      else (record (issue c b) { subscribers = emplace id sub b.subscribers }, 0)

  unfoldable pub subscriber : ℕ → List ℕ → BrokerZenoh → BrokerZenoh × ℕ
  unfolding subscriber_new
  subscriber id topic b = elim (find id b.subscribers) [
    | none ↦ subscriber_new id topic b
    | some old ↦ (b, 0)
  ]

  -- `resource`: the id of a declared resource. The topic goes to zenoh as a C string.
  unfoldable pub resource : List ℕ → BrokerZenoh → BrokerZenoh × ℕ
  resource topic b =
      let c : Call = zn_declare_resource b.zenoh_session (Deserializer.c_string topic) in
      (issue c b, answer b.calls c)

  -- The new entry of `publisher`; a publisher that zenoh refuses is stored all the same.
  unfoldable pub publisher_new : ℕ → List ℕ → BrokerZenoh → BrokerZenoh × ℕ
  unfolding resource
  publisher_new id key b =
      let (b₁, reskey) = resource key b in
      let c : Call = zn_declare_publisher b₁.zenoh_session reskey in
      let publ : Pub = record {
        id = id;
        key = key;
        zn_reskey = reskey;
        zn_publisher = answer b₁.calls c;
      } in
      (record (issue c b₁) { publishers = emplace id publ b₁.publishers }, 0)

  unfoldable pub publisher : ℕ → List ℕ → BrokerZenoh → BrokerZenoh × ℕ
  unfolding publisher_new
  publisher id key b = elim (find id b.publishers) [
    | none ↦ publisher_new id key b
    | some old ↦ (b, 0)
  ]

  -- `publish`: the return code of `zn_write`, or ENOENT.
  unfoldable pub publish : ℕ → List ℕ → BrokerZenoh → BrokerZenoh × ℕ
  publish id bs b = elim (find id b.publishers) [
    | none ↦ (b, enoent)
    | some publ ↦
        let c : Call = zn_write b.zenoh_session publ.zn_reskey bs in (issue c b, answer b.calls c)
  ]

  unfoldable pub step : BrokerZenoh → Op → BrokerZenoh
  step b (connects client_id) = (connect client_id b).0
  step b disconnects = (disconnect b).0
  step b (subscribes id topic) = (subscriber id topic b).0
  step b (registers id key) = (publisher id key b).0
  step b (publishes id bs) = (publish id bs b).0
  step b (unsubscribes id) = (un_subscribe id b).0

  unfoldable pub run : BrokerZenoh → List Op → BrokerZenoh
  run b [] = b
  run b (o ∷ os) = run (step b o) os
