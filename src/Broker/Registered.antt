-- ===== src/Broker/Registered.antt =====
-- The publishers of src/BrokerZenoh.cpp that were registered: what `publish` finds for them later.
use zenoh_proxy.Prelude.{
  ℕ, ◌≡◌, ◌≢◌, refl, sym, ap, ◌∙◌, none, some, List, [], ◌∷◌, ◌++◌, ◌==◌, eq→==, ne→==, Bool-cases,
  Option-cases, inl, inr, append_assoc,
}
use zenoh_proxy.Cbor.Deserializer
use zenoh_proxy.Prelude.Dict.{find, find-emplace}
use zenoh_proxy.Broker.{
  BrokerZenoh, Call, Pub, zn_declare_resource, zn_declare_publisher, zn_declare_subscriber, connect,
  subscriber, subscriber_new, publisher, publisher_new, resource,
}

module _ (answer : List Call → Call → ℕ) where
  -- The entry of the id is for the resource that zenoh has answered for the key.
  pub record Registered (b : BrokerZenoh) (id : ℕ) (key : List ℕ) : Type 0 where
    pub entry : Pub
    pub newer : List Call
    pub earlier : List Call
    pub found : find id b.publishers ≡ some entry
    pub declared :
        b.calls ≡ newer ++ zn_declare_resource b.zenoh_session (Deserializer.c_string key) ∷ earlier
    pub answered :
        entry.zn_reskey
        ≡ answer earlier (zn_declare_resource b.zenoh_session (Deserializer.c_string key))

  -- The second broker has made more calls, in the same session, and found the same.
  pub record Extends (id : ℕ) (b c : BrokerZenoh) : Type 0 where
    pub more : List Call
    pub calls : c.calls ≡ more ++ b.calls
    pub session : c.zenoh_session ≡ b.zenoh_session
    pub same : find id c.publishers ≡ find id b.publishers

  pub Extends-Registered :
      (id : ℕ) (key : List ℕ) (b c : BrokerZenoh)
      → Extends id b c
      → Registered b id key
      → Registered c id key
  Extends-Registered id key b c x r = record {
    entry = r.entry;
    newer = x.more ++ r.newer;
    earlier = r.earlier;
    found = x.same ∙ r.found;
    declared =
        x.calls
        ∙ ap (λ q. x.more ++ q) r.declared
        ∙ sym (append_assoc x.more r.newer _)
        ∙ ap
            (λ z.
              (x.more ++ r.newer) ++ zn_declare_resource z (Deserializer.c_string key) ∷ r.earlier)
            (sym x.session);
    answered =
        r.answered
        ∙ ap (λ z. answer r.earlier (zn_declare_resource z (Deserializer.c_string key)))
            (sym x.session);
  }

  pub same_Extends : (id : ℕ) (b : BrokerZenoh) → Extends id b b
  same_Extends id b = record { more = []; calls = refl; session = refl; same = refl }

  call_Extends :
      (id : ℕ) (c : Call) (b d : BrokerZenoh)
      → d.calls ≡ c ∷ b.calls
      → d.zenoh_session ≡ b.zenoh_session
      → d.publishers ≡ b.publishers
      → Extends id b d
  call_Extends id c b d calls session same = record {
    more = c ∷ [];
    calls = calls;
    session = session;
    same = ap (find id) same;
  }

  pub Extends-trans :
      (id : ℕ) (b c d : BrokerZenoh) → Extends id b c → Extends id c d → Extends id b d
  Extends-trans id b c d x y = record {
    more = y.more ++ x.more;
    calls = y.calls ∙ ap (λ q. y.more ++ q) x.calls ∙ sym (append_assoc y.more x.more b.calls);
    session = y.session ∙ x.session;
    same = y.same ∙ x.same;
  }

  pub subscriber-Extends :
      (id j : ℕ) (topic : List ℕ) (b : BrokerZenoh) → Extends id b (subscriber answer j topic b).0
  unfolding subscriber subscriber_new
  subscriber-Extends id j topic b = elim (Option-cases (find j b.subscribers)) [
    | inl e ↦
        elim (Bool-cases (
          answer b.calls (zn_declare_subscriber b.zenoh_session (Deserializer.c_string topic))
          == 0)) [
            | inl refused ↦
                rw (e, subscriber, refused)
                  (call_Extends id
                    (zn_declare_subscriber b.zenoh_session (Deserializer.c_string topic)) b _ refl
                    refl refl)
            | inr taken ↦
                rw (e, subscriber, taken)
                  (call_Extends id
                    (zn_declare_subscriber b.zenoh_session (Deserializer.c_string topic)) b _ refl
                    refl refl)
          ]
    | inr (old, e) ↦ rw (e, subscriber) (same_Extends id b)
  ]

  abbrev new_entry : ℕ → List ℕ → BrokerZenoh → Pub
  new_entry id key b =
      let declare : Call = zn_declare_resource b.zenoh_session (Deserializer.c_string key) in
      let reskey : ℕ = answer b.calls declare in
      record {
        id = id;
        key = key;
        zn_reskey = reskey;
        zn_publisher = answer (declare ∷ b.calls) (zn_declare_publisher b.zenoh_session reskey);
      }

  pub publisher-Registered :
      (id : ℕ) (key : List ℕ) (b : BrokerZenoh)
      → find id b.publishers ≡ none
      → Registered (publisher answer id key b).0 id key
  unfolding publisher publisher_new resource
  publisher-Registered id key b e =
      rw (e, publisher)
        (record {
          entry = new_entry id key b;
          newer = zn_declare_publisher b.zenoh_session (new_entry id key b).zn_reskey ∷ [];
          earlier = b.calls;
          found =
              rw (find-emplace id id (new_entry id key b) b.publishers e, eq→== id id refl) refl;
          declared = refl;
          answered = refl;
        })

  pub publisher-Extends :
      (id j : ℕ) (key : List ℕ) (b : BrokerZenoh)
      → j ≢ id
      → Extends id b (publisher answer j key b).0
  unfolding publisher publisher_new resource
  publisher-Extends id j key b other = elim (Option-cases (find j b.publishers)) [
    | inl e ↦
        rw (e, publisher)
          (record {
            more =
                zn_declare_publisher b.zenoh_session (new_entry j key b).zn_reskey
                ∷ zn_declare_resource b.zenoh_session (Deserializer.c_string key)
                ∷ [];
            calls = refl;
            session = refl;
            same = rw (find-emplace j id (new_entry j key b) b.publishers e, ne→== j id other) refl;
          })
    | inr (old, e) ↦ rw (e, publisher) (same_Extends id b)
  ]

  pub connect-publishers :
      (client_id : List ℕ) (b : BrokerZenoh)
      → (connect answer client_id b).0.publishers ≡ b.publishers
  unfolding connect
  connect-publishers client_id b = elim (Bool-cases (b.zenoh_session == 0)) [
    | inl closed ↦ rw closed
    | inr there ↦ rw there
  ]
