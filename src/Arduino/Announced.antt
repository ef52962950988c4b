-- ===== src/Arduino/Announced.antt =====
-- What the announcement of the microcontroller's resources leaves in the tables of the proxy's broker.
use zenoh_proxy.Prelude.{
  ℕ, ◌≡◌, ◌≢◌, ◌⊎◌, inl, inr, refl, sym, ap, ◌∙◌, none, List, [], ◌∷◌, ◌++◌, All, subst,
}
use zenoh_proxy.Prelude.Dict.{find}
use zenoh_proxy.Broker.{BrokerZenoh, Call, Op, connects, registers, connect, step, run}
use zenoh_proxy.Broker.Registered.{
  Registered, Extends, Extends-Registered, Extends-trans, same_Extends, subscriber-Extends,
  publisher-Extends, publisher-Registered, connect-publishers,
}
use zenoh_proxy.Arduino.{Resource, Broker}
use zenoh_proxy.Arduino.Resources.{Unique}
use zenoh_proxy.Arduino.Handshake.{subscriptions, registrations, announcement}

-- A resource of a list.
abbrev pub Among : Resource → List Resource → Type 0
Among r [] = ⊥
Among r (q ∷ qs) = (q ≡ r) ⊎ Among r qs

All-Among :
    (P : Resource → Type 0) (r : Resource) (qs : List Resource) → All P qs → Among r qs → P r
All-Among P r [] h a = elim a [ ]
All-Among P r (q ∷ qs) h (inl e) = subst P e h.0
All-Among P r (q ∷ qs) h (inr a) = All-Among P r qs h.1 a

module _ (answer : List Call → Call → ℕ) where
  -- The registrations of other resources.
  registrations-Extends :
      (id : ℕ) (qs : List Resource) (b : BrokerZenoh)
      → All (λ q. q.id ≢ id) qs
      → Extends answer id b (run answer b (registrations qs))
  unfolding run step
  registrations-Extends id [] b other = same_Extends answer id b
  registrations-Extends id (q ∷ qs) b other =
      Extends-trans answer id b _ _ (publisher-Extends answer id q.id q.key b other.0)
        (registrations-Extends id qs _ other.1)

  subscriptions-Extends :
      (id : ℕ) (qs : List Resource) (b : BrokerZenoh)
      → Extends answer id b (run answer b (subscriptions qs))
  unfolding run step
  subscriptions-Extends id [] b = same_Extends answer id b
  subscriptions-Extends id (q ∷ qs) b =
      Extends-trans answer id b _ _ (subscriber-Extends answer id q.id q.key b)
        (subscriptions-Extends id qs _)

  run-append :
      (os us : List Op) (b : BrokerZenoh)
      → run answer b (os ++ us) ≡ run answer (run answer b os) us
  unfolding run
  run-append [] us b = refl
  run-append (o ∷ os) us b = run-append os us (step answer b o)

  -- A resource whose id is new, among others with other ids.
  registrations-Registered :
      (r : Resource) (qs : List Resource) (b : BrokerZenoh)
      → Unique qs
      → Among r qs
      → find r.id b.publishers ≡ none
      → Registered answer (run answer b (registrations qs)) r.id r.key
  unfolding run step
  registrations-Registered r [] b once a new = elim a [ ]
  registrations-Registered r (q ∷ qs) b once (inl e) new =
      subst
        (λ x.
          Registered answer (run answer (step answer b (registers q.id q.key)) (registrations qs))
            x.id x.key)
        e
        (Extends-Registered answer q.id q.key _ _ (registrations-Extends q.id qs _ once.0)
          (publisher-Registered answer q.id q.key b (ap (λ x. find x.id b.publishers) e ∙ new)))
  registrations-Registered r (q ∷ qs) b once (inr a) new =
      let other : r.id ≢ q.id = All-Among (λ s. s.id ≢ q.id) r qs once.0 a in
      let next = publisher-Extends answer r.id q.id q.key b (λ e. other (sym e)) in
      registrations-Registered r qs _ once.1 a (next.same ∙ new)

  -- After the announcement to a broker without publishers, every publisher of the microcontroller has
  -- an entry, for the resource that zenoh has answered for its key.
  pub announcement-Registered :
      (client_id : List ℕ) (nb : Broker) (r : Resource) (b : BrokerZenoh)
      → Unique nb.publishers
      → Among r nb.publishers
      → b.publishers ≡ []
      → Registered answer (run answer b (connects client_id ∷ announcement nb)) r.id r.key
  unfolding run step find
  announcement-Registered client_id nb r b once among empty =
      let opened : BrokerZenoh = (connect answer client_id b).0 in
      let told : BrokerZenoh = run answer opened (subscriptions nb.subscribers) in
      let same = subscriptions-Extends r.id nb.subscribers opened in
      let new : find r.id told.publishers ≡ none =
        same.same ∙ ap (find r.id) (connect-publishers answer client_id b ∙ empty) in
      rw (run-append (subscriptions nb.subscribers) (registrations nb.publishers) opened)
        (registrations-Registered r nb.publishers told once among new)
