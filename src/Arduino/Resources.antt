-- ===== src/Arduino/Resources.antt =====
-- The resources of the microcontroller's broker: their ids and their keys.
use zenoh_proxy.Prelude.Prefix.{starts_with}
use zenoh_proxy.Prelude.{
  ℕ, ◌+◌, ◌<◌, ◌≡◌, ◌≢◌, ◌⊎◌, inl, inr, refl, true, List, [], ◌∷◌, ◌++◌, All, All-append, arith,
  Bool-cases,
}
use zenoh_proxy.Arduino.{
  Resource, Broker, src_text, dst_text, broker_src_prefix, broker_dst_prefix, topic_of, publisher,
  subscriber,
}
use zenoh_proxy.Arduino.Node.{BrokerSerial, init, uptime_text, latency_text}

-- A declaration of a sketch.
pub data Declaration : Type 0 where
  publishes_to : List ℕ → Declaration
  subscribes_to : List ℕ → Declaration

unfoldable pub declare : Declaration → Broker → Broker
declare (publishes_to name) b = (publisher name b).0
declare (subscribes_to name) b = (subscriber name b).0

unfoldable pub declare_all : List Declaration → Broker → Broker
declare_all [] b = b
declare_all (d ∷ ds) b = declare_all ds (declare d b)

-- A broker without resources.
abbrev pub empty : Broker
empty = record { resource_id = 0; publishers = []; subscribers = [] }

abbrev pub HasPrefix : List ℕ → Type 0
HasPrefix key = (starts_with src_text key ≡ true) ⊎ (starts_with dst_text key ≡ true)

abbrev Known : ℕ → Resource → Type 0
Known n r = (r.id < n) × HasPrefix r.key

abbrev Unlike : Resource → List Resource → Type 0
Unlike r = All (λ s. s.id ≢ r.id)

-- No two resources have the same id.
abbrev pub Unique : List Resource → Type 0
Unique [] = Unit
Unique (r ∷ rs) = Unlike r rs × Unique rs

-- The ids are below the next one and differ, in one list and between the lists, and the keys have a
-- prefix.
pub record WellFormed (b : Broker) : Type 0 where
  pub known_publishers : All (Known b.resource_id) b.publishers
  pub known_subscribers : All (Known b.resource_id) b.subscribers
  pub unique_publishers : Unique b.publishers
  pub unique_subscribers : Unique b.subscribers
  pub apart : All (λ p. Unlike p b.subscribers) b.publishers

All-map :
    {P Q : Resource → Type 0} (rs : List Resource)
    → ((r : Resource) → P r → Q r)
    → All P rs
    → All Q rs
All-map [] f h = tt
All-map (r ∷ rs) f h = (f r h.0, All-map rs f h.1)

later : (n : ℕ) (rs : List Resource) → All (Known n) rs → All (Known (n + 1)) rs
later n rs h = All-map rs (λ r k. (omega (arith, k.0), k.1)) h

new_Unlike : (n : ℕ) (r : Resource) (rs : List Resource) → r.id ≡ n → All (Known n) rs → Unlike r rs
new_Unlike n r rs e h = All-map rs (λ s k same. omega (arith, k.0, same, e)) h

Unique-snoc :
    (n : ℕ) (r : Resource) (rs : List Resource)
    → r.id ≡ n
    → All (Known n) rs
    → Unique rs
    → Unique (rs ++ r ∷ [])
Unique-snoc n r [] e h u = (tt, tt)
Unique-snoc n r (s ∷ rs) e h u = (
  All-append (λ s'. s'.id ≢ s.id) rs (r ∷ []) u.0 ((λ same. omega (arith, h.0.0, same, e)), tt),
  Unique-snoc n r rs e h.1 u.1,
)

topic_of-HasPrefix :
    (prefix name : List ℕ) → HasPrefix (prefix ++ name) → HasPrefix (topic_of prefix name)
unfolding topic_of
topic_of-HasPrefix prefix name h = elim (Bool-cases (starts_with src_text name)) [
  | inl e ↦ rw e (inl e)
  | inr e ↦ elim (Bool-cases (starts_with dst_text name)) [
    | inl f ↦ rw (e, f) (inr f)
    | inr f ↦ rw (e, f) h
  ]
]

publisher-WellFormed : (name : List ℕ) (b : Broker) → WellFormed b → WellFormed (publisher name b).0
unfolding publisher starts_with
publisher-WellFormed name b w =
    let r : Resource = (publisher name b).1 in
    let known : Known (b.resource_id + 1) r =
      (omega arith, topic_of-HasPrefix broker_src_prefix name (inl refl)) in
    let far : Unlike r b.subscribers =
      new_Unlike b.resource_id r b.subscribers refl w.known_subscribers in
    record {
      known_publishers =
          All-append _ b.publishers (r ∷ []) (later _ b.publishers w.known_publishers) (known, tt);
      known_subscribers = later _ b.subscribers w.known_subscribers;
      unique_publishers =
          Unique-snoc b.resource_id r b.publishers refl w.known_publishers w.unique_publishers;
      unique_subscribers = w.unique_subscribers;
      apart = All-append _ b.publishers (r ∷ []) w.apart (far, tt);
    }

add_Unlike :
    (n : ℕ) (r : Resource) (ps ss : List Resource)
    → r.id ≡ n
    → All (Known n) ps
    → All (λ p. Unlike p ss) ps
    → All (λ p. Unlike p (ss ++ r ∷ [])) ps
add_Unlike n r [] ss e h k = tt
add_Unlike n r (p ∷ ps) ss e h k = (
  All-append _ ss (r ∷ []) k.0 ((λ same. omega (arith, h.0.0, same, e)), tt),
  add_Unlike n r ps ss e h.1 k.1,
)

subscriber-WellFormed :
    (name : List ℕ) (b : Broker) → WellFormed b → WellFormed (subscriber name b).0
unfolding subscriber starts_with
subscriber-WellFormed name b w =
    let r : Resource = (subscriber name b).1 in
    let known : Known (b.resource_id + 1) r =
      (omega arith, topic_of-HasPrefix broker_dst_prefix name (inr refl)) in
    record {
      known_publishers = later _ b.publishers w.known_publishers;
      known_subscribers =
          All-append _ b.subscribers (r ∷ []) (later _ b.subscribers w.known_subscribers)
            (known, tt);
      unique_publishers = w.unique_publishers;
      unique_subscribers =
          Unique-snoc b.resource_id r b.subscribers refl w.known_subscribers w.unique_subscribers;
      apart = add_Unlike b.resource_id r b.publishers b.subscribers refl w.known_publishers w.apart;
    }

declare_all-WellFormed :
    (ds : List Declaration) (b : Broker) → WellFormed b → WellFormed (declare_all ds b)
unfolding declare_all declare
declare_all-WellFormed [] b w = w
declare_all-WellFormed (publishes_to name ∷ ds) b w =
    declare_all-WellFormed ds _ (publisher-WellFormed name b w)
declare_all-WellFormed (subscribes_to name ∷ ds) b w =
    declare_all-WellFormed ds _ (subscriber-WellFormed name b w)

-- `init` makes the three declarations of the broker itself.
init-declarations :
    (n : BrokerSerial)
    → (init n).broker
      ≡ declare_all
          (publishes_to uptime_text
            ∷ publishes_to latency_text
            ∷ subscribes_to (broker_src_prefix ++ uptime_text)
            ∷ [])
          n.broker
unfolding init declare_all declare
init-declarations n = refl

-- Whatever a sketch declares before and after `init`, from a broker without resources: the ids of all
-- publishers and subscribers are below the next id and differ from one another, and each key begins
-- with "src/" or "dst/".
pub init-WellFormed :
    (before after : List Declaration) (n : BrokerSerial)
    → n.broker ≡ declare_all before empty
    → WellFormed (declare_all after (init n).broker)
init-WellFormed before after n e =
    rw (init-declarations n, e)
      (declare_all-WellFormed after _ (
        declare_all-WellFormed _ _ (
          declare_all-WellFormed before empty (record {
            known_publishers = tt;
            known_subscribers = tt;
            unique_publishers = tt;
            unique_subscribers = tt;
            apart = tt;
          }))))
