-- ===== src/Tests/Raced.antt =====
-- Two replicas that number elements at once.
use allezon.Base.{ℕ, ◌≡◌, refl, String, true, some, [], ◌∷◌, wrapped, sentinel, not_found}
use allezon.Base.Assoc.{lookup}
use allezon.IdGetter.{index}
use allezon.IdGetter.Server.{Cache, check_in_cache, save_in_cache, get_id_from_db, save_id_in_db}
use allezon.IdGetter.Concurrent.{
  Request, Replicas, Phase, checking, reading, creating, saving, answered, miss, read_missing,
  create, save, Moves, rest, arrive, move, set_cache,
}
use allezon.IdGetter.Concurrent.Growth.{AreNumbered}
use allezon.IdGetter.Elements.{elements_client, get_elements, append_element, elements_of, strings}
use allezon.IdGetter.Listed.{elements_laws, growth_laws}
use allezon.IdGetter.Shown.{Moves-listed}
use allezon.Tests.Numbered.{Store, store, lists_db, lists}

abbrev no_caches : ℕ → Cache
no_caches r = []

abbrev started : Replicas Store
started = record { store = λ c. []; caches = no_caches; requests = [] }

no_entry : (c x : String) (id : ℕ) → check_in_cache c x [] ≡ some id → ⊥
unfolding check_in_cache lookup
no_entry c x id h = cc

started-AreNumbered :
    AreNumbered store (elements_laws lists_db lists) (growth_laws lists_db lists) started
unfolding AreNumbered
started-AreNumbered = (λ r c x id h. absurd (no_entry c x id h), tt)

abbrev asked : Phase → Request
asked phase = record {
  replica = 3;
  collection = "brand";
  element = "acme";
  create_missing = true;
  phase = phase;
}

abbrev one_brand : Store
one_brand = (save_id_in_db store "brand" "acme" (λ c. [])).1

abbrev one_cached : ℕ → Cache
one_cached = set_cache 3 (save_in_cache "brand" "acme" 1 []) no_caches

abbrev finished : Replicas Store
finished = record { store = one_brand; caches = one_cached; requests = asked (answered 1) ∷ [] }

created_in_turn : Moves store started finished
unfolding check_in_cache lookup get_id_from_db save_id_in_db index save_in_cache elements_client
    get_elements append_element elements_of strings
created_in_turn = arrive started finished 3 "brand" "acme" true (
    move _ finished [] [] (asked checking) reading (λ c. []) no_caches refl
      (miss (λ c. []) no_caches refl)
      (move _ finished [] [] (asked reading) creating (λ c. []) no_caches refl
        (read_missing (λ c. []) (λ c. []) no_caches (wrapped (sentinel not_found)) refl refl refl)
        (move _ finished [] [] (asked creating) (saving 1) one_brand no_caches refl
          (create (λ c. []) one_brand no_caches 1 refl)
          (move _ finished [] [] (asked (saving 1)) (answered 1) one_brand one_cached refl
            (save one_brand no_caches 1) (rest finished)))))

Moves-listed_example :
    AreNumbered store (elements_laws lists_db lists) (growth_laws lists_db lists) finished
Moves-listed_example =
    Moves-listed lists_db lists started finished created_in_turn started-AreNumbered
