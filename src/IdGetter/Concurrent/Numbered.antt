-- ===== src/IdGetter/Concurrent/Numbered.antt =====
-- Which ids requests of src/cmd/id_getter/server/server.go can get while others run.
use allezon.Base.{
  ℕ, ◌≡◌, inl, inr, sym, ◌∙◌, subst, String, some, List, [], ◌∷◌, ◌++◌, ok, err, str_eq, eq_iff,
  ◌==◌, All, Bool-cases,
}
use mathlib.Core.List.{append-nil}
use allezon.Base.Assoc.{lookup}
use allezon.IdGetter.{ElementsClient}
use allezon.IdGetter.Assigned.{ElementsLaws}
use allezon.IdGetter.Caching.{check-save}
use allezon.IdGetter.Server.{Cache, check_in_cache, save_in_cache, get_id_from_db, save_id_in_db}
use allezon.IdGetter.Concurrent.Growth.{
  Grows, GrowthLaws, IsNumbered, HasNumber, IsRequestNumbered, AreCached, AreNumbered,
  IsNumbered-grown, HasNumber-grown, read-Grows, create-Grows, Grows-to, created, found,
}
use allezon.IdGetter.Concurrent.{
  Phase, Request, Replicas, set_cache, to_phase, Move, hit, miss, read, read_missing, not_created,
  read_failed, create, create_failed, save, Moves, rest, arrive, move, restart,
}

module _ {S : Type 0} (db : ElementsClient S) (laws : ElementsLaws db)
    (growth : GrowthLaws db laws) where
  open laws use {elements}

  AreCached-grown :
      (s s' : S) (caches : ℕ → Cache)
      → Grows elements s s'
      → AreCached db laws growth s caches
      → AreCached db laws growth s' caches
  AreCached-grown s s' caches grows h r c x id k =
      IsNumbered-grown db laws growth s s' c x id grows (h r c x id k)

  same_lists : (s : S) → Grows elements s s
  same_lists s c = ([], sym (append-nil (elements s c)))

  some-injective : (a b : ℕ) → some a ≡ some b → a ≡ b
  some-injective a b h = cc

  -- The new entry is that of the element, and the others are those of before.
  saved_entry :
      (s : S) (cache : Cache) (c x d y : String) (id other : ℕ)
      → IsNumbered db laws growth s c x id
      → (check_in_cache d y cache ≡ some other → IsNumbered db laws growth s d y other)
      → check_in_cache d y (save_in_cache c x id cache) ≡ some other
      → IsNumbered db laws growth s d y other
  saved_entry s cache c x d y id other new old k =
      let entry = sym (check-save c x d y id cache) ∙ k in
      elim (Bool-cases (str_eq c d)) [
        | inr other_collection ↦ old (rw other_collection at entry)
        | inl same ↦ elim (Bool-cases (str_eq x y)) [
          | inr other_element ↦ old (rw (same, other_element) at entry)
          | inl same_element ↦
              let c_is : c ≡ d = (eq_iff c d).0 same in
              let x_is : x ≡ y = (eq_iff x y).0 same_element in
              let id_is : id ≡ other = some-injective id other (rw (same, same_element) at entry) in
              rw (← c_is, ← x_is, ← id_is) new
        ]
      ]

  saved :
      (s : S) (caches : ℕ → Cache) (r : ℕ) (c x : String) (id : ℕ)
      → AreCached db laws growth s caches
      → IsNumbered db laws growth s c x id
      → AreCached db laws growth s (set_cache r (save_in_cache c x id (caches r)) caches)
  saved s caches r c x id h new q d y other k = elim (Bool-cases (q == r)) [
    | inl same ↦ saved_entry s (caches r) c x d y id other new (h r d y other) (rw same at k)
    | inr another ↦ h q d y other (rw another at k)
  ]

  Move-IsNumbered :
      (q : Request) (phase phase' : Phase) (x x' : S × (ℕ → Cache))
      → Move db q phase x phase' x'
      → AreCached db laws growth x.0 x.1
      → HasNumber db laws growth x.0 q.collection q.element phase
      → Grows elements x.0 x'.0
        × AreCached db laws growth x'.0 x'.1
        × HasNumber db laws growth x'.0 q.collection q.element phase'
  Move-IsNumbered q _ _ _ _ (hit s caches id is) h k =
      (same_lists s, h, h q.replica q.collection q.element id is)
  Move-IsNumbered q _ _ _ _ (miss s caches is) h k = (same_lists s, h, tt)
  Move-IsNumbered q _ _ _ _ (read s s' caches id is) h k =
      let grows =
        Grows-to db laws growth s s' (get_id_from_db db q.collection q.element s) (ok id) is
          (read-Grows db laws growth q.collection q.element s) in
      (
        grows,
        AreCached-grown s s' caches grows h,
        found db laws growth q.collection q.element id s s' is,
      )
  Move-IsNumbered q _ _ _ _ (read_missing s s' caches e is missing may) h k =
      let grows =
        Grows-to db laws growth s s' (get_id_from_db db q.collection q.element s) (err e) is
          (read-Grows db laws growth q.collection q.element s) in
      (grows, AreCached-grown s s' caches grows h, tt)
  Move-IsNumbered q _ _ _ _ (not_created s s' caches e is may) h k =
      let grows =
        Grows-to db laws growth s s' (get_id_from_db db q.collection q.element s) (err e) is
          (read-Grows db laws growth q.collection q.element s) in
      (grows, AreCached-grown s s' caches grows h, tt)
  Move-IsNumbered q _ _ _ _ (read_failed s s' caches e is other) h k =
      let grows =
        Grows-to db laws growth s s' (get_id_from_db db q.collection q.element s) (err e) is
          (read-Grows db laws growth q.collection q.element s) in
      (grows, AreCached-grown s s' caches grows h, tt)
  Move-IsNumbered q _ _ _ _ (create s s' caches id is) h k =
      let grows =
        Grows-to db laws growth s s' (save_id_in_db db q.collection q.element s) (ok id) is
          (create-Grows db laws growth q.collection q.element s) in
      (
        grows,
        AreCached-grown s s' caches grows h,
        created db laws growth q.collection q.element id s s' is,
      )
  Move-IsNumbered q _ _ _ _ (create_failed s s' caches e is) h k =
      let grows =
        Grows-to db laws growth s s' (save_id_in_db db q.collection q.element s) (err e) is
          (create-Grows db laws growth q.collection q.element s) in
      (grows, AreCached-grown s s' caches grows h, tt)
  Move-IsNumbered q _ _ _ _ (save s caches id) h k =
      (same_lists s, saved s caches q.replica q.collection q.element id h k, k)

  no_entry : (c x : String) (id : ℕ) → check_in_cache c x [] ≡ some id → ⊥
  unfolding check_in_cache lookup
  no_entry c x id h = cc

  emptied :
      (s : S) (caches : ℕ → Cache) (r : ℕ)
      → AreCached db laws growth s caches
      → AreCached db laws growth s (set_cache r [] caches)
  emptied s caches r h q c x id k = elim (Bool-cases (q == r)) [
    | inl same ↦ absurd (no_entry c x id (rw same at k))
    | inr another ↦ h q c x id (rw another at k)
  ]

  others :
      (s s' : S) (requests : List Request)
      → Grows elements s s'
      → All (IsRequestNumbered db laws growth s) requests
      → All (IsRequestNumbered db laws growth s') requests
  others s s' [] grows h = tt
  others s s' (q ∷ requests) grows h = (
    HasNumber-grown db laws growth s s' q.collection q.element q.phase grows h.0,
    others s s' requests grows h.1,
  )

  at_middle :
      (s s' : S) (before after : List Request) (q q' : Request)
      → Grows elements s s'
      → All (IsRequestNumbered db laws growth s) (before ++ (q ∷ after))
      → (IsRequestNumbered db laws growth s q)
        × (IsRequestNumbered db laws growth s' q'
            → All (IsRequestNumbered db laws growth s') (before ++ (q' ∷ after)))
  at_middle s s' [] after q q' grows h = (h.0, λ k. (k, others s s' after grows h.1))
  at_middle s s' (z ∷ before) after q q' grows h =
      let (here, new) = at_middle s s' before after q q' grows h.1 in
      (
        here,
        λ k. (HasNumber-grown db laws growth s s' z.collection z.element z.phase grows h.0, new k),
      )

  -- While requests arrive, move and end in any order at any number of replicas with one database,
  -- and replicas are started anew, every id that is cached, about to be cached or answered is the
  -- index of its element in its list, or one more, if it is so at first, and if reads leave the
  -- lists as they are and appends, also those that fail, take nothing from them.
  pub Moves-AreNumbered :
      (m n : Replicas S)
      → Moves db m n
      → AreNumbered db laws growth m
      → AreNumbered db laws growth n
  unfolding AreNumbered
  Moves-AreNumbered m _ (rest _) h = h
  Moves-AreNumbered m n (arrive _ _ r c x may moves) h =
      Moves-AreNumbered _ n moves (h.0, (tt, h.1))
  Moves-AreNumbered m n (restart _ _ r moves) h =
      Moves-AreNumbered _ n moves (emptied m.store m.caches r h.0, h.1)
  Moves-AreNumbered m n (move _ _ before after q phase s caches at step moves) h =
      let all = subst (All (IsRequestNumbered db laws growth m.store)) at h.1 in
      let (here, _) = at_middle m.store m.store before after q q (same_lists m.store) all in
      let (grows, cached, numbered) =
        Move-IsNumbered q q.phase phase (m.store, m.caches) (s, caches) step h.0 here in
      let (_, new) = at_middle m.store s before after q (to_phase q phase) grows all in
      Moves-AreNumbered _ n moves (cached, new numbered)
