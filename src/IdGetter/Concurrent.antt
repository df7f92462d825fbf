-- ===== src/IdGetter/Concurrent.antt =====
-- `getID` of src/cmd/id_getter/server/server.go run by many requests at once, at any number of replicas with one
-- database: each use of a cache, under its mutex, and each call of the database is a step.
pub mod Growth
pub mod Numbered
use allezon.Base.{
  ℕ, ◌≡◌, String, Bool, true, false, Option, none, some, List, [], ◌∷◌, ◌++◌, Error, Result, ok,
  err, ◌==◌, is as is_error, not_found, if◌then◌else◌,
}
use allezon.Base.Exec.{Exec}
use allezon.IdGetter.{ElementsClient}
use allezon.IdGetter.Server.{Cache, check_in_cache, save_in_cache, get_id_from_db, save_id_in_db}

-- Where a request is: before `checkInCache`, `getIDFromDB`, `saveIDInDB`, `saveInCache`, or at its end
pub data Phase : Type 0 where
  checking reading creating : Phase
  saving : ℕ → Phase
  answered : ℕ → Phase
  refused : Phase

pub record Request : Type 0 where
  pub replica : ℕ
  pub collection : String
  pub element : String
  pub create_missing : Bool
  pub phase : Phase

-- The caches by the numbers of their replicas
pub record Replicas (S : Type 0) : Type 0 where
  pub store : S
  pub caches : ℕ → Cache
  pub requests : List Request

abbrev pub set_cache : ℕ → Cache → (ℕ → Cache) → ℕ → Cache
set_cache r cache caches q = if q == r then cache else caches q

abbrev pub to_phase : Request → Phase → Request
to_phase q phase = record q { phase = phase }

-- One request goes on, from a phase to a phase, with the store and the caches.
module _ {S : Type 0} (db : ElementsClient S) where
  pub data Move (q : Request) : Phase → S × (ℕ → Cache) → Phase → S × (ℕ → Cache) → Type 0 where
    hit :
        (s : S) (caches : ℕ → Cache) (id : ℕ)
        → check_in_cache q.collection q.element (caches q.replica) ≡ some id
        → Move q checking (s, caches) (answered id) (s, caches)
    miss :
        (s : S) (caches : ℕ → Cache)
        → check_in_cache q.collection q.element (caches q.replica) ≡ none
        → Move q checking (s, caches) reading (s, caches)
    read :
        (s s' : S) (caches : ℕ → Cache) (id : ℕ)
        → get_id_from_db db q.collection q.element s ≡ (ok id, s')
        → Move q reading (s, caches) (saving id) (s', caches)
    read_missing :
        (s s' : S) (caches : ℕ → Cache) (e : Error)
        → get_id_from_db db q.collection q.element s ≡ (err e, s')
        → is_error e not_found ≡ true
        → q.create_missing ≡ true
        → Move q reading (s, caches) creating (s', caches)
    not_created :
        (s s' : S) (caches : ℕ → Cache) (e : Error)
        → get_id_from_db db q.collection q.element s ≡ (err e, s')
        → q.create_missing ≡ false
        → Move q reading (s, caches) refused (s', caches)
    read_failed :
        (s s' : S) (caches : ℕ → Cache) (e : Error)
        → get_id_from_db db q.collection q.element s ≡ (err e, s')
        → is_error e not_found ≡ false
        → Move q reading (s, caches) refused (s', caches)
    create :
        (s s' : S) (caches : ℕ → Cache) (id : ℕ)
        → save_id_in_db db q.collection q.element s ≡ (ok id, s')
        → Move q creating (s, caches) (saving id) (s', caches)
    create_failed :
        (s s' : S) (caches : ℕ → Cache) (e : Error)
        → save_id_in_db db q.collection q.element s ≡ (err e, s')
        → Move q creating (s, caches) refused (s', caches)
    save :
        (s : S) (caches : ℕ → Cache) (id : ℕ)
        → Move q
            (saving id)
            (s, caches)
            (answered id)
            (
              s,
              set_cache q.replica
                  (save_in_cache q.collection q.element id (caches q.replica))
                  caches,
            )

  pub data Moves : Replicas S → Replicas S → Type 0 where
    rest : (m : Replicas S) → Moves m m
    -- A request arrives.
    arrive :
        (m n : Replicas S) (replica : ℕ) (collection element : String) (create_missing : Bool)
        → Moves
            (record m {
              requests =
                  record {
                    replica = replica;
                    collection = collection;
                    element = element;
                    create_missing = create_missing;
                    phase = checking;
                  }
                  ∷ m.requests;
            })
            n
        → Moves m n
    move :
        (m n : Replicas S) (before after : List Request) (q : Request) (phase : Phase) (s : S)
        (caches : ℕ → Cache)
        → m.requests ≡ before ++ (q ∷ after)
        → Move q q.phase (m.store, m.caches) phase (s, caches)
        → Moves
            (record { store = s; caches = caches; requests = before ++ (to_phase q phase ∷ after) })
            n
        → Moves m n
    -- A replica is started anew.
    restart :
        (m n : Replicas S) (replica : ℕ)
        → Moves (record m { caches = set_cache replica [] m.caches }) n
        → Moves m n
