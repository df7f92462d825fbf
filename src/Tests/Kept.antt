-- ===== src/Tests/Kept.antt =====
-- Profiles that are put, trimmed and read in the store in memory.
use allezon.Base.{
  ℕ, arith, ◌<◌, ◌+◌, ◌*◌, ◌≡◌, ◌⊎◌, refl, sym, ap, ◌∙◌, inl, inr, String, some, List, [], ◌∷◌, map,
  Error, Result, ok, err, failed, ℤ, eq_refl, length, true, none,
}
use allezon.Base.Exec.{return, throw}
use allezon.Types.{UserTag, ProductInfo, IsUserTag, buy, mobile}
use allezon.Types.Marshal.{marshal_user_tag, unmarshal_user_tag}
use allezon.Db.Profiles.Client.{add, get, remove_over_limit, user_profiles as user_profiles_client}
use allezon.Db.Profiles.{action_to_bin, decode_bin}
use allezon.Db.Aerospike.{Record, Value, scalar, int, pairs, bin}
use allezon.Db.Profiles.{user_profiles_views_bin, user_profiles_buys_bin}
use allezon.Db.Profiles.Stored.{
  ProfileLaws, insert_entry, insert_tag, as_pair, Encodes, IsAscending,
}
use allezon.Db.Profiles.Storing.{Profiles, Represents, store_tag}
use allezon.Db.Profiles.History.{
  Request, put, trim, perform, change, AreAllowed, IsAllowed, AreAscending, changed,
  perform-Represents,
}
use allezon.Db.{Client}
use allezon.Dto.{UserProfileDto, from_user_tag_dto, to_device, to_action}
use allezon.IdClient.{null_client}
use allezon.Api.{Server}
use allezon.Base.Decimal.{parse_uint}
use allezon.Http.{status, status_no_content}
use allezon.Api.UserTags.{user_tags_handler, handle_tag, run_both, add_user_tag, waited}
use allezon.Api.UserTags.Handled.{cleanup_for}
use allezon.Api.UserTags.Kept.{user_tags_handler-Represents}
use allezon.Api.Profiles.{profile_dto, user_profiles}
use allezon.Api.Profiles.Served.{profile_shown, user_profiles-Represents}
use allezon.Tests.Wire.{wire, wire_laws}
use allezon.Tests.Data.{sale, visit, noon, text, sale_dto, sale_dto_accepted}
use allezon.Time.{Time, minute}
use allezon.Tests.Trimmed.{Store, store, laws, put_in, answer, held_by}

pub got :
    (s : Store) (c b : String) (r : Record)
    → (b ≡ user_profiles_views_bin) ⊎ (b ≡ user_profiles_buys_bin)
    → ◌≡◌ {A = Result Record} (ok (answer (held_by s c))) (ok r)
    → bin b r.bins ≡ some (pairs (map as_pair (s c b)))
got s c b r (inl is) h = let q : answer (held_by s c) ≡ r = cc in rw (← q) (rw is)
got s c b r (inr is) h = let q : answer (held_by s c) ≡ r = cc in rw (← q) (rw is)

first_bin : (b : String) (v : Value) → bin b ((b, v) ∷ []) ≡ some v
first_bin b v = rw (eq_refl b)

pub put_answer :
    (c b : String) (k : ℤ) (v : List ℕ) (s s' : Store) (r : Record)
    → ◌≡◌ {A = Result Record × Store}
        (ok (answer ((b, scalar (int (length (put_in c b k v s c b)))) ∷ [])), put_in c b k v s)
        (ok r, s')
    → (s' ≡ put_in c b k v s) × (bin b r.bins ≡ some (scalar (int (length (s' c b)))))
put_answer c b k v s s' r h =
    let q : answer ((b, scalar (int (length (put_in c b k v s c b)))) ∷ []) ≡ r = cc in
    let same : s' ≡ put_in c b k v s = ap (λ (o : Result Record × Store). o.1) (sym h) in
    (
      same,
      rw (← q) (
          first_bin b (scalar (int (length (put_in c b k v s c b))))
          ∙ ap (λ (t : Store). some (scalar (int (length (t c b))))) (sym same)),
    )

pub no_get_error : (r : Record) (e : Error) → ◌≡◌ {A = Result Record} (ok r) (err e) → ⊥
no_get_error r e h = cc

unfoldable pub profile_laws : ProfileLaws store
unfolding laws
profile_laws = record {
  trim = laws;
  get-ok = λ c b s r known h. inl (got s c b r known h);
  get-missing = λ c b s e h is. absurd (no_get_error _ e h);
  get-err = λ c s e h. absurd (no_get_error _ e h);
  put-ok = λ c b k v s s' r h d a. ap (λ t. t d a) (put_answer c b k v s s' r h).0;
  put-size = λ c b k v s s' r h. (put_answer c b k v s s' r h).1;
}

abbrev later : Time
later = noon + 2 * minute

unfoldable pub nothing : Profiles
nothing c a = []

abbrev pub bare : Store
bare c b = []

pub nothing-Represents : Represents wire store profile_laws bare nothing
unfolding Represents Encodes profile_laws laws nothing
nothing-Represents c a known = tt

abbrev requests : List Request
requests = put visit ∷ put sale ∷ put (record sale { time = later }) ∷ trim "cookie" buy 1 ∷ []

abbrev after_requests : Store
after_requests = (perform wire store requests bare).1

performed : perform wire store requests bare ≡ (ok tt, after_requests)
unfolding perform add remove_over_limit marshal_user_tag action_to_bin insert_entry
performed = refl

pub fields :
    (tag : UserTag)
    → tag.device ≡ mobile
    → tag.action < 2
    → tag.product_info ≡ sale.product_info
    → IsUserTag tag
fields tag device action info = record {
  device = omega arith;
  action = omega arith;
  product_id =
      let q : tag.product_info.product_id ≡ 7 = ap (λ (i : ProductInfo). i.product_id) info in
      omega arith;
  price =
      let q : tag.product_info.price ≡ 250 = ap (λ (i : ProductInfo). i.price) info in omega arith;
}

sales :
    length (
      store_tag
        (record sale { time = later })
        (store_tag sale (store_tag visit nothing))
        "cookie"
        buy)
    ≡ 2
unfolding store_tag insert_tag nothing
sales = refl

allowed : AreAllowed requests nothing
unfolding AreAllowed IsAllowed change
allowed = (
  (fields visit refl (omega arith) refl, inl refl),
  (
    (fields sale refl (omega arith) refl, inr refl),
    (
      (fields (record sale { time = later }) refl (omega arith) refl, inr refl),
      ((inr refl, omega arith, rw sales (omega arith)), tt),
    ),
  ),
)

nothing-AreAscending : AreAscending nothing
unfolding AreAscending IsAscending nothing
nothing-AreAscending c a = tt

perform-Represents_example :
    Represents wire store profile_laws after_requests (changed requests nothing)
    × AreAscending (changed requests nothing)
perform-Represents_example =
    perform-Represents wire store profile_laws wire_laws requests nothing bare after_requests
      allowed nothing-Represents nothing-AreAscending performed

abbrev pub kept : Client Store
kept = record { user_profiles = user_profiles_client wire store; aggregates = throw failed }

abbrev pub server : Server Store
server = record {
  time_text = text;
  send = λ tag. return tt;
  profiles_db = kept;
  aggregates_db = kept;
  id_getter = null_client;
}

abbrev answered : UserProfileDto
answered =
    profile_dto server "cookie" noon (later + minute) 5
      (record { views = visit ∷ []; buys = record sale { time = later } ∷ [] })

served :
    user_profiles server "cookie" noon (later + minute) 5 after_requests
    ≡ (ok answered, after_requests)
unfolding perform add remove_over_limit marshal_user_tag action_to_bin insert_entry user_profiles
    user_profiles_client get decode_bin unmarshal_user_tag
served = refl

user_profiles-Represents_example :
    (after_requests ≡ after_requests)
    × (answered ≡ profile_shown server (changed requests nothing) "cookie" noon (later + minute) 5)
user_profiles-Represents_example =
    user_profiles-Represents server wire store profile_laws "cookie" noon (later + minute) 5
      (changed requests nothing) answered after_requests after_requests
      (unfold user_profiles_client in refl)
      (perform-Represents wire store profile_laws wire_laws requests nothing bare after_requests
        allowed nothing-Represents nothing-AreAscending performed).0
      served

abbrev pub after_sale : Store
after_sale = (user_tags_handler server true (ok sale_dto) bare).1

pub taken :
    user_tags_handler server true (ok sale_dto) bare
    ≡ (ok (status status_no_content, none), after_sale)
unfolding user_tags_handler handle_tag run_both add_user_tag waited from_user_tag_dto parse_uint
    to_device to_action user_profiles_client add marshal_user_tag action_to_bin insert_entry
taken = refl

user_tags_handler-Represents_example :
    Represents wire store profile_laws after_sale (store_tag sale nothing)
    × (none ≡ cleanup_for server sale (length (store_tag sale nothing sale.cookie sale.action)))
user_tags_handler-Represents_example =
    user_tags_handler-Represents server wire store profile_laws wire_laws
      (λ tag. unfold user_profiles_client in refl) (λ tag s. refl) true sale_dto sale none nothing
      bare after_sale sale_dto_accepted (fields sale refl (omega arith) refl) (inr refl)
      nothing-Represents taken
