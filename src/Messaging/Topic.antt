-- ===== src/Messaging/Topic.antt =====
-- `Initialize` of src/pkg/messaging/topic.go. The admin of the cluster is a parameter.
use allezon.Base.{
  ℕ, ◌≡◌, refl, sym, ap, ◌∙◌, String, Bool, true, false, List, [], ◌∷◌, ◌||◌, Result, ok, err,
  panic, str_eq, eq_refl, if◌then◌else◌, Bool-cases, inl, inr,
}
use allezon.Base.Exec.{Exec, ◌>>=◌, ◌>>◌, return, wrapping, >>=-ok, wrapping-ok, return-ok}
use allezon.Messaging.{user_tags_topic}

pub record TopicDetail : Type 0 where
  pub num_partitions : ℕ
  pub replication_factor : ℕ

-- `connect` is `sarama.NewClusterAdmin`; of the topics that are listed their names are kept.
pub record ClusterAdmin (S : Type 0) : Type 0 where
  pub connect : Exec S (Unit {0})
  pub list_topics : Exec S (List String)
  pub create_topic : String → TopicDetail → Exec S (Unit {0})
  pub close : Exec S (Unit {0})

-- `_, ok := topics[name]`
abbrev pub has_topic : List String → String → Bool
has_topic [] name = false
has_topic (topic ∷ topics) name = str_eq topic name || has_topic topics name

-- What a function returns, once what it has deferred has been run
abbrev pub after_close : {S A : Type 0} → Result A → Result (Unit {0}) × S → Result A × S
after_close r (panic, s) = (panic, s)
after_close r (_, s) = (r, s)

-- `defer func() { err := admin.Close(); … }()`: an error is logged.
abbrev pub closing : {S A : Type 0} → Exec S (Unit {0}) → Exec S A → Exec S A
closing close m s = after_close (m s).0 (close (m s).1)

module _ {S : Type 0} (admin : ClusterAdmin S) where
  unfoldable pub create_missing : TopicDetail → Exec S (Unit {0})
  create_missing details = do
    topics ← wrapping admin.list_topics
    if has_topic topics user_tags_topic
        then return tt
        else wrapping (admin.create_topic user_tags_topic details)

  unfoldable pub initialize : TopicDetail → Exec S (Unit {0})
  unfolding create_missing
  initialize details = wrapping admin.connect >> closing admin.close (create_missing details)

  -- What the cluster documents: `names` are those of its topics.
  pub record AdminLaws : Type 0 where
    pub names : S → List String
    pub connect-names : (s : S) → names (admin.connect s).1 ≡ names s
    pub list-ok :
        (s s' : S) (topics : List String)
        → admin.list_topics s ≡ (ok topics, s')
        → (topics ≡ names s) × (names s' ≡ names s)
    pub create-ok :
        (name : String) (details : TopicDetail) (s s' : S)
        → admin.create_topic name details s ≡ (ok tt, s')
        → names s' ≡ name ∷ names s
    pub close-names : (s : S) → names (admin.close s).1 ≡ names s

  abbrev with_topic : List String → List String
  with_topic names = if has_topic names user_tags_topic then names else user_tags_topic ∷ names

  after_close-ok :
      (r : Result (Unit {0})) (o : Result (Unit {0}) × S) (s' : S)
      → after_close r o ≡ (ok tt, s')
      → (r ≡ ok tt) × (o.1 ≡ s')
  after_close-ok r (ok u, s) s' h =
      (ap (λ (x : Result (Unit {0}) × S). x.0) h, ap (λ (x : Result (Unit {0}) × S). x.1) h)
  after_close-ok r (err e, s) s' h =
      (ap (λ (x : Result (Unit {0}) × S). x.0) h, ap (λ (x : Result (Unit {0}) × S). x.1) h)
  after_close-ok r (panic, s) s' h = absurd cc

  module _ (laws : AdminLaws) where
    create_missing-names :
        (details : TopicDetail) (s s' : S)
        → create_missing details s ≡ (ok tt, s')
        → laws.names s' ≡ with_topic (laws.names s)
    unfolding create_missing
    create_missing-names details s s' h =
        let (topics, s₁, listed, rest) = >>=-ok (wrapping admin.list_topics) _ s tt s' h in
        let (are, as_before) =
          laws.list-ok s s₁ topics (wrapping-ok admin.list_topics s topics s₁ listed) in
        elim (Bool-cases (has_topic topics user_tags_topic)) [
          | inl there ↦
              let (_, same) = return-ok tt tt s₁ s' (rw there at rest) in
              rw (← are) (rw (there) (ap laws.names same ∙ as_before ∙ sym are))
          | inr missing ↦
              let made =
                wrapping-ok (admin.create_topic user_tags_topic details) s₁ tt s'
                  (rw missing at rest) in
              rw (← are) (
                rw missing (
                  laws.create-ok user_tags_topic details s₁ s' made
                  ∙ ap (λ l. user_tags_topic ∷ l) (as_before ∙ sym are)))
        ]

    pub initialize-names :
        (details : TopicDetail) (s s' : S)
        → initialize details s ≡ (ok tt, s')
        → laws.names s' ≡ with_topic (laws.names s)
    unfolding initialize
    initialize-names details s s' h =
        let (u, s₁, connected, rest) =
          >>=-ok (wrapping admin.connect) (λ u. closing admin.close (create_missing details)) s tt
            s' h in
        let (made, last) =
          after_close-ok (create_missing details s₁).0 (admin.close (create_missing details s₁).1)
            s' rest in
        let before =
          ap (λ (o : Result (Unit {0}) × S). o.1) (wrapping-ok admin.connect s u s₁ connected) in
        let o = create_missing details s₁ in
        let names_now = create_missing-names details s₁ o.1 (ap (λ r. (r, o.1)) made) in
        let as_before : laws.names s₁ ≡ laws.names s =
          ap laws.names (sym before) ∙ laws.connect-names s in
        ap laws.names (sym last) ∙ laws.close-names o.1 ∙ names_now ∙ ap with_topic as_before

    has-with_topic : (topics : List String) → has_topic (with_topic topics) user_tags_topic ≡ true
    has-with_topic topics = elim (Bool-cases (has_topic topics user_tags_topic)) [
      | inl there ↦ rw there there
      | inr missing ↦ rw missing (rw (eq_refl user_tags_topic))
    ]

    -- If the admin of the cluster lists and creates topics as it documents, the topic of the tags
    -- exists after an initialization that succeeds, and a second one that succeeds changes no
    -- topic.
    pub initialize-has_topic :
        (details : TopicDetail) (s s' : S)
        → initialize details s ≡ (ok tt, s')
        → (has_topic (laws.names s') user_tags_topic ≡ true)
          × ((t : S) (d : TopicDetail)
              → initialize d s' ≡ (ok tt, t)
              → laws.names t ≡ laws.names s')
    initialize-has_topic details s s' h =
        let there : has_topic (laws.names s') user_tags_topic ≡ true =
          ap (λ l. has_topic l user_tags_topic) (initialize-names details s s' h)
          ∙ has-with_topic (laws.names s) in
        (there, λ t d again. initialize-names d s' t again ∙ rw there refl)
