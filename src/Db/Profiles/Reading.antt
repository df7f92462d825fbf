-- ===== src/Db/Profiles/Reading.antt =====
-- `Get` of src/pkg/db/user_profiles.go beside the abstract store.
use allezon.Base.{
  ◌≡◌, ◌⊎◌, inl, inr, refl, sym, ap, ◌∙◌, String, true, false, Option, none, some, List, [], ◌∷◌,
  map, Error, Result, ok, err, wrapped, sentinel, matches, is as is_error, key_not_found,
  key_not_found_error, if◌then◌else◌, Bool-cases,
}
use allezon.Base.Exec.{
  Exec, throw, reads, catch, catch-ok, catch-err, >>=-ok, >>=-err, throw-err, return-ok,
  throws-not_ok,
}
use mathlib.Core.Bool.{false≢true}
use allezon.Types.{Action, view, buy, UserTag}
use allezon.Types.Marshal.{Protobuf}
use allezon.Types.Roundtrip.{IsAction}
use allezon.Db.{UserProfile}
use allezon.Db.Aerospike.{Database, Record, Value, pairs, bin}
use allezon.Db.Profiles.{
  user_profiles_views_bin, user_profiles_buys_bin, action_to_bin, decode_pairs, decode_raw,
  decode_bin,
}
use allezon.Db.Profiles.Client.{get}
use allezon.Db.Profiles.Trimming.{action_bin}
use allezon.Db.Profiles.Stored.{Entries, ProfileLaws, as_pair, Encodes}
use allezon.Db.Profiles.Storing.{Profiles, Represents, represented, entries_of}

-- The profile of a cookie in the abstract store
abbrev pub profile_of : Profiles → String → UserProfile
profile_of f c = record { views = f c view; buys = f c buy }

module _ (p : Protobuf) where
  decode_pairs-Encodes :
      (entries : Entries) (tags : List UserTag)
      → Encodes p entries tags
      → decode_pairs p (map as_pair entries) ≡ ok tags
  unfolding Encodes decode_pairs
  decode_pairs-Encodes [] [] h = refl
  decode_pairs-Encodes [] (t ∷ tags) h = absurd h
  decode_pairs-Encodes (e ∷ entries) [] h = absurd h
  decode_pairs-Encodes ((k, v) ∷ entries) (t ∷ tags) (at, is, rest) =
      rw (is, decode_pairs-Encodes entries tags rest)

  nothing-Encodes :
      (entries : Entries) (tags : List UserTag) → entries ≡ [] → Encodes p entries tags → tags ≡ []
  unfolding Encodes
  nothing-Encodes [] [] e h = refl
  nothing-Encodes [] (t ∷ tags) e h = absurd h
  nothing-Encodes (x ∷ entries) tags e h = cc

  decode_raw-Encodes :
      (o : Option Value) (entries : Entries) (tags : List UserTag)
      → (o ≡ some (pairs (map as_pair entries))) ⊎ ((o ≡ none) × (entries ≡ []))
      → Encodes p entries tags
      → decode_raw p o ≡ ok tags
  unfolding decode_raw
  decode_raw-Encodes o entries tags (inl is) h = rw is (decode_pairs-Encodes entries tags h)
  decode_raw-Encodes o entries tags (inr (is, nil)) h = rw (is, nothing-Encodes entries tags nil h)

  module _ {S : Type 0} (db : Database S) (laws : ProfileLaws db) where
    abbrev asked : String → S → Result Record
    asked c = db.get (laws.trim.open_key c) (user_profiles_views_bin ∷ user_profiles_buys_bin ∷ [])

    abbrev missing_or_failed : Error → Exec S Record
    missing_or_failed e =
        if matches e key_not_found_error
        then throw (wrapped (sentinel key_not_found))
        else throw (wrapped e)

    other_error :
        {d e : Error}
        → is_error d key_not_found ≡ false
        → wrapped d ≡ e
        → is_error e key_not_found ≡ true
        → ⊥
    other_error {d} {e} h q r = false≢true (sym h ∙ (rw (← q) at r))

    decoded :
        (c : String) (a : Action) (b : String) (f : Profiles) (s : S) (r : Record)
        → IsAction a
        → action_to_bin a ≡ ok b
        → (bin b r.bins ≡ some (pairs (map as_pair (entries_of p db laws s c a))))
          ⊎ ((bin b r.bins ≡ none) × (entries_of p db laws s c a ≡ []))
        → Represents p db laws s f
        → decode_bin p a r.bins ≡ ok (f c a)
    unfolding decode_bin
    decoded c a b f s r known named found holds = rw (
      named,
      decode_raw-Encodes (bin b r.bins) (entries_of p db laws s c a) (f c a) found
          (represented p db laws s f c a known holds),
    )

    pub get-Represents :
        (c : String) (q : UserProfile) (f : Profiles) (s s' : S)
        → Represents p db laws s f
        → get p db c s ≡ (ok q, s')
        → (s' ≡ s) × (q ≡ profile_of f c)
    unfolding get action_to_bin
    get-Represents c q f s s' holds h =
        let (r, s₁, first, rest) =
          >>=-ok (catch (reads (asked c)) missing_or_failed) _ s q s'
            (rw (laws.trim.new_key_ok c) at h) in
        elim (catch-ok (reads (asked c)) missing_or_failed s r s₁ first) [
          | inl done ↦
              let got : asked c s ≡ ok r = ap (λ (o : Result Record × S). o.0) done in
              let same : s₁ ≡ s = ap (λ (o : Result Record × S). o.1) (sym done) in
              let views =
                decoded c view user_profiles_views_bin f s r (inl refl) refl
                  (laws.get-ok c user_profiles_views_bin s r (inl refl) got) holds in
              let buys =
                decoded c buy user_profiles_buys_bin f s r (inr refl) refl
                  (laws.get-ok c user_profiles_buys_bin s r (inr refl) got) holds in
              let (value, as_before) =
                return-ok (profile_of f c) q s₁ s' (rw (views, buys) at rest) in
              (as_before ∙ same, sym value)
          | inr (e, s₂, is, thrown) ↦
              absurd (throws-not_ok (matches e key_not_found_error) _ _ s₂ r s₁ thrown)
        ]

    value-not_error :
        (q : UserProfile) (e : Error) (s s' : S)
        → ◌≡◌ {A = Result UserProfile × S} (ok q, s) (err e, s')
        → ⊥
    value-not_error q e s s' h = cc

    missing_entries :
        (c : String) (a : Action) (d e : Error) (f : Profiles) (s s₁ s' : S)
        → IsAction a
        → Represents p db laws s f
        → reads (asked c) s ≡ (err d, s₁)
        → missing_or_failed d s₁ ≡ (err e, s')
        → is_error e key_not_found ≡ true
        → (s' ≡ s) × (f c a ≡ [])
    missing_entries c a d e f s s₁ s' known holds is thrown missing =
        let got : asked c s ≡ err d = ap (λ (o : Result Record × S). o.0) is in
        let same : s ≡ s₁ = ap (λ (o : Result Record × S). o.1) is in
        elim (Bool-cases (matches d key_not_found_error)) [
          | inl absent ↦
              let (e_is, as_before) =
                throw-err (wrapped (sentinel key_not_found)) e s₁ s' (rw absent at thrown) in
              let empty = laws.get-missing c (action_bin a) s d got absent in
              (
                as_before ∙ sym same,
                nothing-Encodes (entries_of p db laws s c a) (f c a) empty
                    (represented p db laws s f c a known holds),
              )
          | inr other ↦
              let (e_is, as_before) = throw-err (wrapped d) e s₁ s' (rw other at thrown) in
              absurd (other_error (laws.get-err c s d got) e_is missing)
        ]

    -- An error that says that there is no such profile is right.
    pub get-missing-Represents :
        (c : String) (e : Error) (f : Profiles) (s s' : S)
        → Represents p db laws s f
        → get p db c s ≡ (err e, s')
        → is_error e key_not_found ≡ true
        → (s' ≡ s) × (profile_of f c ≡ record { views = []; buys = [] })
    unfolding get action_to_bin
    get-missing-Represents c e f s s' holds h missing =
        elim (>>=-err (catch (reads (asked c)) missing_or_failed) _ s e s'
          (rw (laws.trim.new_key_ok c) at h)) [
            | inl failing ↦
                let (d, s₁, is, thrown) =
                  catch-err (reads (asked c)) missing_or_failed s e s' failing in
                let (same, views) =
                  missing_entries c view d e f s s₁ s' (inl refl) holds is thrown missing in
                let (_, buys) =
                  missing_entries c buy d e f s s₁ s' (inr refl) holds is thrown missing in
                (same, rw (views, buys) refl)
            | inr (r, s₁, first, rest) ↦
                elim (catch-ok (reads (asked c)) missing_or_failed s r s₁ first) [
                  | inl done ↦
                      let got : asked c s ≡ ok r = ap (λ (o : Result Record × S). o.0) done in
                      let views =
                        decoded c view user_profiles_views_bin f s r (inl refl) refl
                          (laws.get-ok c user_profiles_views_bin s r (inl refl) got) holds in
                      let buys =
                        decoded c buy user_profiles_buys_bin f s r (inr refl) refl
                          (laws.get-ok c user_profiles_buys_bin s r (inr refl) got) holds in
                      absurd (value-not_error (profile_of f c) e s₁ s' (rw (views, buys) at rest))
                  | inr (d, s₂, is, thrown) ↦
                      absurd (throws-not_ok (matches d key_not_found_error) _ _ s₂ r s₁ thrown)
                ]
          ]
