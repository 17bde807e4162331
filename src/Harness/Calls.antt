-- ===== src/Harness/Calls.antt =====
-- `call_llm` and the credential scopes of syncinerary/harness/wrapper.py.
-- The provider is not part of the repository: what it answers to a client and a request, and the
-- validated reading of a response's usage, are parameters.
pub mod Charging
pub mod Credentials
use syncinerary.Prelude.{
  ℕ, String, List, [], ◌∷◌, ◌++◌, Option, none, some, Outcome, return, raise, Action, ◌>>=◌, ◌>>◌,
  pure, throw, if◌then◌else◌, str_eq,
}
use syncinerary.Harness.Budget.{HarnessError, TokenPricing}
use syncinerary.Harness.LoopDetector.{Observed}
use syncinerary.Harness.Ledger.{
  ScopedKey, unset, creator_key_missing, key, AttemptStatus, Attempt, World, Harness, before_call,
  record_usage,
}

-- An event on the active trace span.
unfoldable pub log_attempt : ℕ → AttemptStatus → Harness (Unit {0})
log_attempt attempt status w = (
  return tt,
  record w { attempts = w.attempts ++ record { attempt = attempt; status = status } ∷ [] },
)

-- `value or None` for a text.
abbrev pub or_none : String → Option String
or_none s = if str_eq s "" then none else some s

-- A context manager over `_current_anthropic_api_key`: set, run the body, reset.
unfoldable with_scoped_key : {A : Type 0} → ScopedKey → Harness A → Harness A
with_scoped_key k body w =
    let (r, w') = body (record w { scoped_key = k }) in (r, record w' { scoped_key = w.scoped_key })

unfoldable pub use_anthropic_api_key : {A : Type 0} → String → Harness A → Harness A
unfolding with_scoped_key
use_anthropic_api_key k = with_scoped_key (key k)

-- An empty key is falsy, so it counts as missing too.
unfoldable pub require_anthropic_api_key : {A : Type 0} → Option String → Harness A → Harness A
unfolding with_scoped_key
require_anthropic_api_key none = with_scoped_key creator_key_missing
require_anthropic_api_key (some k) =
    with_scoped_key (if str_eq k "" then creator_key_missing else key k)

-- A client is the caller's own, or built by the factory from a key or from none.
pub data Client : Type 0 where
  given : ℕ → Client
  built : Option String → Client

abbrev client_for : String → ScopedKey → Outcome HarnessError Client
client_for server_key creator_key_missing = raise HarnessError.credential_unavailable
client_for server_key (key k) = return (built (some k))
client_for server_key unset = return (built (or_none server_key))

unfoldable pub make_messages_client : (server_key : String) → Harness Client
make_messages_client server_key w = (client_for server_key w.scoped_key, w)

-- `client or make_messages_client()`
abbrev chosen_client : (server_key : String) → Option ℕ → Harness Client
chosen_client server_key none = make_messages_client server_key
chosen_client server_key (some c) = pure (given c)

-- `except Exception`: logs the failure and passes the exception on. A cancellation is not caught.
abbrev logging_failure : {A : Type 0} → Outcome HarnessError A → Harness A
logging_failure (return a) w = (return a, w)
logging_failure (raise HarnessError.cancelled) w = (raise HarnessError.cancelled, w)
logging_failure (raise e) w = (log_attempt 1 AttemptStatus.call_failed >> throw e) w

pub record Usage : Type 0 where
  pub input_tokens : ℕ
  pub output_tokens : ℕ

-- What `call_llm` takes from outside: the settings, and the provider.
pub record Provider (V R : Type 0) : Type 0 where
  pub server_key : String
  pub default_pricing : TokenPricing
  pub create : Client → V → Outcome HarnessError R
  pub usage_of : R → Option Usage

module _ {V R : Type 0} (provider : Provider V R) where
  -- The `try` around the request: the client is chosen inside it.
  abbrev request_response : Option ℕ → V → Harness R
  request_response client request w =
      let asked : Harness R = (do
        c ← chosen_client provider.server_key client
        λ s. (provider.create c request, s)) in
      let (r, w') = asked w in logging_failure r w'

  abbrev pub pricing_or : Option TokenPricing → TokenPricing
  pricing_or none = provider.default_pricing
  pricing_or (some p) = p

  abbrev charge_usage : ℕ → Option TokenPricing → Option Usage → Harness (Unit {0})
  charge_usage i pricing none =
      log_attempt 1 AttemptStatus.invalid_usage >> throw HarnessError.usage_unavailable
  charge_usage i pricing (some u) = do
    log_attempt 1 AttemptStatus.succeeded
    record_usage i u.input_tokens u.output_tokens (pricing_or pricing)

  -- The accounting of a response: only a run with a ledger is charged.
  abbrev pub account_for : Option ℕ → Option TokenPricing → R → Harness (Unit {0})
  account_for none pricing response = log_attempt 1 AttemptStatus.succeeded
  account_for (some i) pricing response = charge_usage i pricing (provider.usage_of response)

  -- Everything after the guards have passed.
  unfoldable pub behind_guards : V → Option ℕ → Option TokenPricing → Harness R
  unfolding log_attempt make_messages_client
  behind_guards request client pricing = do
    log_attempt 1 AttemptStatus.executing
    response ← request_response client request
    (λ w. account_for w.current pricing response w)
    pure response

module _ {V R : Type 0} (canonical : Observed V → ℕ) (provider : Provider V R) where
  unfoldable pub call_llm : V → Option ℕ → Option TokenPricing → Option V → Harness R
  unfolding behind_guards
  call_llm request client pricing state = do
    before_call canonical request state none
    behind_guards provider request client pricing
