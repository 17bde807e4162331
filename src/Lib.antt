-- ===== src/Lib.antt =====
-- The planning core of Syncinerary, a group travel planner whose agents run on a server, as functions
-- that can be evaluated, with the theorems that hold of them.
--
-- The parts and how they interact. Votes on candidate places are scored and ranked, and the head of
-- the ranking is the shortlist that the solver schedules into itinerary versions. The days of a trip
-- are shared out between its cities before that. A changed itinerary is a new version: a replan
-- proposes one, the group approves or rejects it, and the diff tells what changed between two
-- versions. Places are found before all that, by a discovery job that a worker takes from a table:
-- it searches social platforms city by city, one planned query at a time, merges the places found
-- twice, and orders them as a deck to vote on. The solver asks a chain of providers for the times of
-- transit between places. A traveler's own model key is stored encrypted.
-- Every agent works inside a tracked run: each call of a model or a tool first passes the
-- guards of the run (the step limit, the loop detector), is logged as an attempt, and is charged to
-- the run, whose row in the database follows the ledger in memory.
--
-- Files and what they model (paths from the repository's root):
--   Prelude            names of the libraries, Boolean tests, lists over native numbers, the monad of
--                      state and exceptions (Prelude.Effects), tables as lists of rows
--                      (Prelude.Table), the stable sort of a list by a key (Prelude.Sorting), partial
--                      functions on a list (Prelude.Partial)
--   Harness.Budget     syncinerary/harness/budget.py: RunBudget.charge_step, charge_tokens,
--                      TokenPricing.cost
--   Harness.LoopDetector   syncinerary/harness/loop_detector.py: LoopDetector.__init__,
--                      observe_state, observe_tool
--   Harness.Ledger     syncinerary/harness/wrapper.py: RunLedger, before_call, record_usage, and
--                      AgentRunRepository.record_progress of syncinerary/store/repositories/ops.py
--   Harness.Runs       tracked_run of syncinerary/harness/wrapper.py with the constants of
--                      syncinerary/config/harness.py
--   Harness.Calls      call_llm, make_messages_client, use_anthropic_api_key,
--                      require_anthropic_api_key and log_attempt of syncinerary/harness/wrapper.py
--   Harness.Tools      run_tool of syncinerary/harness/tool_guard.py
--   Trips.CityPlan     syncinerary/domain/city_plan.py: validate_city_plan, suggested_city_days,
--                      city_day_counts
--   Consensus.Scoring  syncinerary/agents/aggregate.py: score_candidate, score_candidates
--   Consensus.Shortlist    syncinerary/agents/shortlist.py: target_size, build_shortlist
--   Itinerary.Diff     syncinerary/diff/itinerary_diff.py: itinerary_diff
--   Itinerary.Decision     decide_replan of syncinerary/agents/rescue.py with set_status, decide and
--                      the locking reads of syncinerary/store/repositories/itinerary.py and ops.py
--   Itinerary.Disruption   select_affected_nodes, _affected_day, _cutoff and
--                      _unavailable_candidates of syncinerary/agents/rescue.py
--   Trips.Invites      TripInvite.is_usable of syncinerary/domain/models.py, claim and revoke of
--                      TripInviteRepository in syncinerary/store/repositories/group.py
--   Trips.CityPlan.Days     city_for_day of syncinerary/agents/manual_itinerary.py
--   Itinerary.Versions     the reading queries of ItineraryVersionRepository and
--                      ReplanEventRepository
--   Solver.Repair      syncinerary/agents/solver/repair.py: learn_day_blocks, PlanValue, plan_value,
--                      select_replacements; its children Capacities and Exchanges:
--                      merge_day_capacities, learn_incompatible_pairs, classify_bucket_changes
--   Gather.Runs        the discovery job: GatherRunRepository.start, current and change of
--                      syncinerary/store/repositories/gather.py, and the writes of work_one and
--                      _execute_run of syncinerary/workers/gather.py
--   Gather.Intents     SearchIntent and the intents of syncinerary/tools/fetch/social.py
--   Gather.SocialSearch    the state of the adaptive search and update_search_state of
--                      syncinerary/agents/gather/social_search.py; its children Choices and Planner
--                      the rules of plan_next_search, and Loop the loop of mine_city in
--                      syncinerary/agents/gather/social.py
--   Gather.Candidates  CandidatePlace and Source of syncinerary/domain/models.py, as Gather reads them
--   Gather.Dedup       syncinerary/agents/gather/dedup.py: _same_place, merge_candidate_evidence,
--                      dedup_candidates
--   Gather.Deck        syncinerary/agents/gather/deck.py: deck_lane, _evidence_rank, order_deck
--   Gather.Pool        syncinerary/agents/gather/live.py: _distance_km, _dense_clusters,
--                      _mix_day_types, select_dense_pool
--   Transit.Request    syncinerary/tools/transit/models.py and estimate.py: cache_id, haversine_km,
--                      choose_mode, wants, the validator of a request, estimated_transit_leg
--   Transit.Resolver   syncinerary/tools/transit/resolver.py: FallbackTransitResolver
--   Security.Keyring   syncinerary/security/credentials.py: CredentialCipher.__init__, _aad, encrypt,
--                      decrypt
-- The children of these modules hold the theorems, and the modules named Examples the concrete runs.
--
-- How the code is rendered:
--   * A method that changes an object, and a coroutine that writes to the database, is an `Action`:
--     a function of the state into an outcome and the next state. The state after an exception is
--     kept, as it is in the source. `try`/`finally` is `try_finally`, and `except Exception` is a
--     case on the outcome that lets a cancellation through.
--   * A context variable is a field of the state. `ContextVar.reset` restores the value from before.
--   * The ledgers of the runs are a function from the identifier of a run, so that the ledger of a
--     nested run never aliases another one.
--   * Identifiers, days and times of day are native numbers. A cost is a whole number of millionths
--     of the price unit, which makes the division by a million exact; the rounding of Python's
--     decimals beyond 28 digits is left out.
--   * Floats are a parameter with their operations. Theorems on the ranking assume that their order
--     is total and transitive, and one also that rounding keeps the order, as it is while no NaN
--     comes up.
--   * SHA-256 over a JSON rendering is a parameter, the function `canonical`: what is stated of the
--     detector is stated of equal fingerprints.
--   * The provider of the model, the clients, the models that validate, the handler of a tool and
--     its repairer are parameters.
--   * A worker owns the trip of a job by an advisory lock, but its writes are taken one by one: the
--     steps of clients and workers may come in any order.
--   * The rows that a decision locks stay locked to its end, so it is one step on the tables. A
--     failure of the database is not modelled, except the missing rows that the source tests for.
--
--   * AES-GCM, the encoding of texts and the answers of the transit providers, of a search and of a
--     verification are parameters.
--   * Fractions that only order things, such as a share of a lane or a position in the deck, are
--     compared by cross-multiplication, which is the order of the exact fractions.
--
-- Bounds: the loop of `run_tool` has the constant of the source as its number of attempts, so nothing
-- runs out early. The search of a city runs on fuel, and any fuel above the budget of searches is
-- enough, as is shown below. The clusters of a pool take as much fuel as there are candidates, and each
-- round takes one at least; its deal takes as many rounds as its limit, and each round adds a place or
-- is the last. All other functions recurse on their lists.
--
-- Not modelled: the agents that call models and web services (extraction, explanation, preferences),
-- the constraint models of the solver, which are calls of OR-Tools, the validation of manual edits,
-- groups and sessions, the HTTP API, the table definitions, tracing, and the iOS client.
pub mod Prelude
pub mod Harness
pub mod Trips
pub mod Consensus
pub mod Itinerary
pub mod Gather
pub mod Solver
pub mod Security
pub mod Transit
