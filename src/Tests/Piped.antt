-- ===== src/Tests/Piped.antt =====
-- The pipeline of a worker, the loop of its consumer, and the topic.
use allezon.Base.{
  ℕ, suc, ◌+◌, ◌≤◌, ◌≡◌, ◌≢◌, ◌↔◌, refl, Bool, true, ◌==◌, some, String, List, [], ◌∷◌, ok, All,
}
use allezon.Base.Exec.{Exec, return}
use allezon.Types.{UserTag}
use allezon.Types.Marshal.{marshal_user_tag, unmarshal_user_tag}
use allezon.Messaging.{message, done, user_tags_topic}
use allezon.Messaging.Consuming.{consume, Ends, consume_iff}
use allezon.Messaging.Topic.{
  ClusterAdmin, AdminLaws, TopicDetail, initialize, create_missing, has_topic, initialize-has_topic,
}
use allezon.Worker.Pipeline.{Pipeline, receiving, sending, idle, Steps, go, stay, receive}
use allezon.Worker.Pipeline.Conserved.{weigh, unsent, total}
use allezon.Worker.Pipeline.Bounded.{steps_left, length_of, Steps-length}
use allezon.Worker.Pipeline.Drained.{pipeline-drains}
use allezon.Worker.Pipeline.Progress.{IsSafe, IsDrained}
use allezon.Tests.Data.{sale}
use allezon.Tests.Wire.{wire}
use allezon.Tests.Processed.{Log, log, ids, once, letter, noise, never_panics}

abbrev fresh : Pipeline Log
fresh = record {
  claims = receiving (message letter ∷ message noise ∷ done ∷ []) ∷ [];
  tags_chan = [];
  processors = idle ∷ idle ∷ [];
  marked = [];
  processed = [];
  state = [];
}

two_processors : fresh.processors ≢ []
two_processors h = cc

fresh-IsSafe : All (IsSafe wire) fresh.claims
unfolding marshal_user_tag unmarshal_user_tag
fresh-IsSafe = (((λ h. cc), ((λ h. cc), (tt, tt))), tt)

pipeline-drains_example :
    (n : Pipeline Log) × Steps wire ids log once fresh n
    × IsDrained n
    × ((weight : UserTag → ℕ)
        → weigh weight n.processed + unsent wire weight n ≡ total wire weight fresh)
pipeline-drains_example =
    pipeline-drains wire ids log once never_panics fresh two_processors fresh-IsSafe

abbrev received : Pipeline Log
received = record fresh { claims = sending letter sale (message noise ∷ done ∷ []) ∷ [] }

letter_read : unmarshal_user_tag wire letter.value ≡ ok sale
unfolding marshal_user_tag unmarshal_user_tag
letter_read = refl

one_step : Steps wire ids log once fresh received
one_step =
    go fresh received received
      (receive fresh [] [] letter sale (message noise ∷ done ∷ []) refl letter_read) (stay received)

Steps-length_example : length_of wire ids log once one_step + steps_left received ≤ steps_left fresh
Steps-length_example = Steps-length wire ids log once fresh received one_step

-- A session that counts itself, and a context that is cancelled behind the second
abbrev counting : Exec ℕ (Unit {0})
counting n = (ok tt, suc n)

abbrev cancelled : ℕ → Bool
cancelled n = n == 2

consume_iff_example :
    ((n : ℕ) × (consume counting cancelled n 0 ≡ (ok (some tt), 2)))
    ↔ Ends counting cancelled 0 (ok (some tt)) 2
consume_iff_example = consume_iff counting cancelled 0 2 (ok (some tt)) (λ h. cc)

-- A cluster that is the list of its topics
abbrev pub admin : ClusterAdmin (List String)
admin = record {
  connect = return tt;
  list_topics = λ names. (ok names, names);
  create_topic = λ name details names. (ok tt, name ∷ names);
  close = return tt;
}

admin_laws : AdminLaws admin
admin_laws = record {
  names = λ s. s;
  connect-names = λ s. refl;
  list-ok = λ s s' topics h. (cc, cc);
  create-ok = λ name details s s' h. cc;
  close-names = λ s. refl;
}

abbrev details : TopicDetail
details = record { num_partitions = 1; replication_factor = 1 }

initialized : initialize admin details ("other" ∷ []) ≡ (ok tt, user_tags_topic ∷ "other" ∷ [])
unfolding initialize create_missing
initialized = refl

initialize-has_topic_example :
    (has_topic (admin_laws.names (user_tags_topic ∷ "other" ∷ [])) user_tags_topic ≡ true)
    × ((t : List String) (d : TopicDetail)
        → initialize admin d (user_tags_topic ∷ "other" ∷ []) ≡ (ok tt, t)
        → admin_laws.names t ≡ admin_laws.names (user_tags_topic ∷ "other" ∷ []))
initialize-has_topic_example =
    initialize-has_topic admin admin_laws details ("other" ∷ []) (user_tags_topic ∷ "other" ∷ [])
      initialized
