-- ===== src/Messaging/Consuming.antt =====
-- `Consume` of src/pkg/messaging/consumer.go: one session of the consumer group after the other.
use allezon.Base.{
  ℕ, zero, suc, ◌≡◌, ◌↔◌, ◌≢◌, sym, ap, subst, refl, Bool, true, false, Option, none, some, Error,
  Result, ok, err, panic, wrapped, if◌then◌else◌, Bool-cases, inl, inr,
}
use allezon.Base.Exec.{Exec, return}

-- `Setup` and `Cleanup` of `consumerGroupHandler`
unfoldable pub setup : {S : Type 0} → Exec S (Unit {0})
setup = return tt

unfoldable pub cleanup : {S : Type 0} → Exec S (Unit {0})
cleanup = return tt

-- `session` is `c.client.Consume` with the topic and the handler, `cancelled` is `ctx.Err() != nil`.
module _ {S : Type 0} (session : Exec S (Unit {0})) (cancelled : S → Bool) where
  abbrev pub looped :
      Result (Unit {0}) × S → (S → Result (Option (Unit {0})) × S) → Result (Option (Unit {0})) × S
  looped (ok u, s) again = if cancelled s then (ok (some tt), s) else again s
  looped (err e, s) again = (err (wrapped e), s)
  looped (panic, s) again = (panic, s)

  -- The loop for at most so many sessions; `none` if it has not ended by then
  unfoldable pub consume : ℕ → Exec S (Option (Unit {0}))
  consume zero s = (ok none, s)
  consume (suc n) s = looped (session s) (consume n)

  -- The loop ends with its first session that fails, or behind which the context is cancelled.
  pub data Ends : S → Result (Option (Unit {0})) → S → Type 0 where
    cancelled_after :
        (s s' : S) → session s ≡ (ok tt, s') → cancelled s' ≡ true → Ends s (ok (some tt)) s'
    failed_by : (s s' : S) (e : Error) → session s ≡ (err e, s') → Ends s (err (wrapped e)) s'
    panicked_by : (s s' : S) → session s ≡ (panic, s') → Ends s panic s'
    later :
        (s s₁ s' : S) (r : Result (Option (Unit {0})))
        → session s ≡ (ok tt, s₁)
        → cancelled s₁ ≡ false
        → Ends s₁ r s'
        → Ends s r s'

  -- Enough sessions
  consume-some :
      (s s' : S) (r : Result (Option (Unit {0}))) → Ends s r s' → (n : ℕ) × (consume n s ≡ (r, s'))
  unfolding consume
  consume-some s s' _ (cancelled_after _ _ h c) = (1, rw (h, c))
  consume-some s s' _ (failed_by _ _ e h) = (1, rw h)
  consume-some s s' _ (panicked_by _ _ h) = (1, rw h)
  consume-some s s' r (later _ s₁ _ _ h c rest) =
      let (n, is) = consume-some s₁ s' r rest in (suc n, rw (h, c, is))

  Ends-at :
      (s s' : S) (r : Result (Option (Unit {0}))) (o : Result (Option (Unit {0})) × S)
      → o ≡ (r, s')
      → Ends s o.0 o.1
      → Ends s r s'
  Ends-at s s' r o is h = subst (λ (x : Result (Option (Unit {0})) × S). Ends s x.0 x.1) is h

  looped-Ends :
      (o : Result (Unit {0}) × S) (n : ℕ) (s s' : S) (r : Result (Option (Unit {0})))
      → session s ≡ o
      → looped o (consume n) ≡ (r, s')
      → r ≢ ok none
      → ((s₁ : S) → consume n s₁ ≡ (r, s') → Ends s₁ r s')
      → Ends s r s'
  looped-Ends (ok u, s₁) n s s' r is h ended again = elim (Bool-cases (cancelled s₁)) [
    | inl stopped ↦
        Ends-at s s' r (ok (some tt), s₁) (rw stopped at h) (cancelled_after s s₁ is stopped)
    | inr goes_on ↦ later s s₁ s' r is goes_on (again s₁ (rw goes_on at h))
  ]
  looped-Ends (err e, s₁) n s s' r is h ended again =
      Ends-at s s' r (err (wrapped e), s₁) h (failed_by s s₁ e is)
  looped-Ends (panic, s₁) n s s' r is h ended again =
      Ends-at s s' r (panic, s₁) h (panicked_by s s₁ is)

  consume-Ends :
      (n : ℕ) (s s' : S) (r : Result (Option (Unit {0})))
      → r ≢ ok none
      → consume n s ≡ (r, s')
      → Ends s r s'
  unfolding consume
  consume-Ends zero s s' r ended h =
      absurd (ended (ap (λ (o : Result (Option (Unit {0})) × S). o.0) (sym h)))
  consume-Ends (suc n) s s' r ended h =
      looped-Ends (session s) n s s' r refl h ended (λ s₁ k. consume-Ends n s₁ s' r ended k)

  -- Some number of sessions makes the loop return a result exactly when a chain of sessions that
  -- succeed with the context not cancelled leads to one that fails or panics, or behind which the
  -- context is cancelled; the result and the state are those of that session, an error wrapped.
  pub consume_iff :
      (s s' : S) (r : Result (Option (Unit {0})))
      → r ≢ ok none
      → ((n : ℕ) × (consume n s ≡ (r, s'))) ↔ Ends s r s'
  consume_iff s s' r ended = (λ (n, h). consume-Ends n s s' r ended h, consume-some s s' r)
