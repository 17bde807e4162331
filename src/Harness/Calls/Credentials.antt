-- ===== src/Harness/Calls/Credentials.antt =====
-- A creator-owned trip never falls back on the server's key.
use syncinerary.Prelude.{
  ℕ, ◌≡◌, refl, ap, ◌∙◌, sym, String, [], ◌∷◌, ◌++◌, Option, none, some, Outcome, return, raise,
  and_then,
}
use syncinerary.Harness.Budget.{HarnessError, credential_unavailable, TokenPricing}
use syncinerary.Harness.LoopDetector.{Observed}
use syncinerary.Harness.Ledger.{World, creator_key_missing, before_call, call_in, AttemptStatus}
use syncinerary.Harness.Ledger.Saving.{ledger_before_call-scoped_key}
use syncinerary.Harness.Calls.{Provider, call_llm, behind_guards, require_anthropic_api_key}

-- The world after a request that found no key: the two events, and nothing else.
abbrev refused_world : World → World
refused_world v = record v {
  attempts =
      (v.attempts ++ record { attempt = 1; status = AttemptStatus.executing } ∷ [])
      ++ record { attempt = 1; status = AttemptStatus.call_failed } ∷ [];
}

behind_guards_keyless :
    {V R : Type 0} (provider : Provider V R) (request : V) (pricing : Option TokenPricing)
    (v : World)
    → v.scoped_key ≡ creator_key_missing
    → behind_guards provider request none pricing v
      ≡ (raise credential_unavailable, refused_world v)
unfolding behind_guards
behind_guards_keyless {V} {R} provider request pricing v missing = rw missing refl

module _ {V : Type 0} (canonical : Observed V → ℕ) where
  call_in-scoped_key :
      (o : Option ℕ) (arguments : V) (state : Option V) (tool_name : Option String) (w : World)
      → (call_in canonical o arguments state tool_name w).1.scoped_key ≡ w.scoped_key
  call_in-scoped_key none arguments state tool_name w = refl
  call_in-scoped_key (some i) arguments state tool_name w =
      ledger_before_call-scoped_key canonical i arguments state tool_name w

  before_call-scoped_key :
      (arguments : V) (state : Option V) (tool_name : Option String) (w : World)
      → (before_call canonical arguments state tool_name w).1.scoped_key ≡ w.scoped_key
  unfolding before_call
  before_call-scoped_key arguments state tool_name w =
      call_in-scoped_key w.current arguments state tool_name w

-- What a call without a key comes to, once its guards are through.
abbrev keyless_end :
    {R : Type 0} → Outcome HarnessError (Unit {0}) → World → Outcome HarnessError R × World
keyless_end (return _) v = (raise credential_unavailable, refused_world v)
keyless_end (raise e) v = (raise e, v)

keyless_end-raises :
    {R : Type 0} (o : Outcome HarnessError (Unit {0})) (v : World)
    → (e : HarnessError) × ((keyless_end {R = R} o v).0 ≡ raise e)
keyless_end-raises (return _) v = (credential_unavailable, refl)
keyless_end-raises (raise e) v = (e, refl)

module _ {V R : Type 0} (canonical : Observed V → ℕ) where
  keyless_bind :
      (provider : Provider V R) (request : V) (pricing : Option TokenPricing)
      (o : Outcome HarnessError (Unit {0})) (v : World)
      → v.scoped_key ≡ creator_key_missing
      → and_then o (λ _. behind_guards provider request none pricing) v ≡ keyless_end o v
  keyless_bind provider request pricing (return _) v missing =
      behind_guards_keyless provider request pricing v missing
  keyless_bind provider request pricing (raise e) v missing = refl

  call_llm_keyless :
      (provider : Provider V R) (request : V) (pricing : Option TokenPricing) (state : Option V)
      (w : World)
      → w.scoped_key ≡ creator_key_missing
      → let before = before_call canonical request state none w in
        call_llm canonical provider request none pricing state w ≡ keyless_end before.0 before.1
  unfolding call_llm
  call_llm_keyless provider request pricing state w missing =
      let before = before_call canonical request state none w in
      keyless_bind provider request pricing before.0 before.1
        (before_call-scoped_key canonical request state none w ∙ missing)

  -- On a creator-owned trip with no creator key, a call without a client of its own always raises,
  -- and comes to the same whatever the server's key and whatever the provider would answer:
  -- neither is ever asked. The credential scope is then as it was.
  pub required_key_missing :
      (p q : Provider V R) (request : V) (pricing : Option TokenPricing) (state : Option V)
      (w : World)
      → let scoped = λ (provider : Provider V R).
        require_anthropic_api_key none (call_llm canonical provider request none pricing state) w in
        ((e : HarnessError) × ((scoped p).0 ≡ raise e))
        × (scoped p ≡ scoped q)
        × ((scoped p).1.scoped_key ≡ w.scoped_key)
  unfolding require_anthropic_api_key
  required_key_missing p q request pricing state w =
      let w' : World = record w { scoped_key = creator_key_missing } in
      let before = before_call canonical request state none w' in
      let ended =
        λ (provider : Provider V R). call_llm_keyless provider request pricing state w' refl in
      let raised = keyless_end-raises {R = R} before.0 before.1 in
      (
        (raised.0, ap (λ o. o.0) (ended p) ∙ raised.1),
        ap
            (λ (o : Outcome HarnessError R × World).
              (o.0, record (o.1) { scoped_key = w.scoped_key }))
            (ended p ∙ sym (ended q)),
        refl,
      )
