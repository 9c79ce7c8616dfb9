-- ===== src/Lib.antt =====
-- A verification library for the promotion, the serving and the governed experiments of
-- us-flight-delay-mlops.
--
-- The program trains flight-delay models, promotes a version of a model to the serving alias of a
-- W&B Registry under a committed policy, and serves predictions over HTTP with an event store in
-- DynamoDB. The models come from experiments under frozen protocols. Seven parts are modelled.
--
-- Promotion (src/flight_delay/promotion and scripts/promote_model.py) decides which version the
-- alias moves to, and moves it.
--   Promotion.Keys        candidates.py: the errors, `_forbidden_key`, `_scan_keys`
--   Promotion.Candidates  candidates.py: `CandidateRecord`, `from_mapping`
--   Promotion.Policy      policy.py: `PromotionPolicy`, `load_policy`
--   Promotion.Selector    selector.py: the gates, `_rank_value`, `_compare`, the explanation
--   Promotion.Selection   selector.py: `select_candidates`
--   Promotion.Registry    wandb_registry.py: `resolve_alias`, `promote`
--   Promotion.Execute     scripts/promote_model.py: `execute`, the exit status of `main`
--
-- Persistence (src/flight_delay/persistence/dynamodb.py) stores the events.
--   Persistence.Codec       `to_dynamodb`, `from_dynamodb`
--   Persistence.Table       the table as an interface, and what its documentation promises
--   Persistence.Repository  `DynamoDBRepository`
--   Persistence.MemoryTable a table in memory that keeps those promises
--
-- Api (services/api/app/main.py) answers the requests.
--   Api.Service  the state of the application, what its handlers call, and `predict`
--   Api.Feedback `submit_feedback`
--   Api.Reading  `get_prediction` and `_public_record`
--   Api.Lifespan the startup of the lifespan, and `health`
--   Api.Predict  what `predict` answers, stores and caches
--   Api.Stored   the API on the DynamoDB repository
--
-- Features (src/flight_delay/features/leakage.py) keeps a model from reading what is known only after
-- the flight.
--   Features.Leakage  the lists of features, `_comparison_key`, `validate_model_features`
--
-- Modeling (src/flight_delay/modeling) holds the experiments to their protocol.
--   Modeling.Checks               v3/protocol.py: `_mapping`, `_expect`, the loops over rows
--   Modeling.Protocol             v3/protocol.py: the constants
--   Modeling.Protocol.Features    `_validate_feature_contract`, `_validate_seasonal_semantics`
--   Modeling.Protocol.Weights     `_validate_weight_policies`
--   Modeling.Protocol.Candidates  `_validate_candidates`
--   Modeling.Protocol.Ensembles   `_validate_ensembles`
--   Modeling.Protocol.Stages      `_validate_stages`, one function for each of its paragraphs
--   Modeling.Protocol.Governance  `_validate_governance`, likewise
--   Modeling.Protocol.Tree        `_validate_dependency_tree`
--   Modeling.Protocol.Load        `_validate_semantics`, `load_and_validate_v3_protocol`
--   Modeling.Protocol.Frozen      the governed protocol itself (configs/v3_experiment_protocol.yaml)
--   Modeling.Ranking              the order of keys of floats and a name, and `min` by it
--   Modeling.Selection            v3/selection.py: `rank_candidates`, `advance_family`,
--                                 `choose_november_winner`
--
-- Deployment (src/flight_delay/deployment/manifest.py) decides what may be deployed.
--   Deployment.Patterns  the regular expressions
--   Deployment.Manifest  `validate_deployment_manifest`, one function for each of its paragraphs, and
--                        `load_and_validate_manifest`
--
-- LoadTesting (src/flight_delay/load_testing/traffic.py) sends synthetic requests to the API.
--   LoadTesting.Requests  `TrafficPlan`, `_shift_clock`, `generate_requests`, with the constraints of
--                         `FlightPredictionRequest` (src/flight_delay/contracts/api.py)
--   LoadTesting.Traffic   `run_monitoring_traffic`
--
-- Prelude has the tests, lists, integers, comparisons, sorting and texts that the parts share;
-- Python has exceptions as results, floats, dynamic values, their `==`, and `sorted` with a comparison that may
-- raise. The modules named Examples run the definitions on small inputs and apply the theorems
-- there.
--
-- How the parts interact: `execute` reads the alias, gives its identity to `select_candidates` as
-- the incumbent, and calls `promote` with the winner. The API holds a repository and a cache as
-- interfaces; `DynamoDBRepository` is the repository in Api.Stored. The Registry and the table are
-- states that other clients may change before each call of ours: the theorems on one operation are for
-- any such interference, and a history of accepted feedback is made of runs of `update_feedback`
-- (Persistence.Repository.History). The
-- validation of the protocol calls the guard of Features on its own schema, and reads the files that
-- the protocol names.
--
-- Conventions. An exception is the error of a result; what was done before it stays done. A Python
-- int is an integer without bound. A finite float is kept as the integer multiple of 2^-1074 that
-- it is, so comparisons are exact, and `float` of an int rounds to 53 bits and overflows as Python
-- does. The identities and key paths that the promotion joins from parts are lists of character
-- codes. All loops are structural recursions on the data; there is no fuel, except that the
-- rounding of an int to a float halves at most 1024 times: enough for every int below 2^1077, and a larger one overflows anyway.
--
-- A run of consecutive lines `_expect(d.get(key), value, label)` on one mapping is a table of
-- (key, value, label) that `expects` goes through in order.
--
-- Parameters. The random generator of the load test draws through `randrange`, which a theorem takes
-- to stay below its bound; its sender and its clock act on a world of any type. The W&B service, the DynamoDB table, the TTL cache and the model are interfaces. The
-- decimal text of a float, the UTC text of a moment, `int` of a text, `str` of a value that is no
-- text, `str.strip` and `str.upper` of the codes of a request, the tables of Unicode beyond ASCII
-- that the guard of features reads, `json.dumps`, SHA-256 of a value's canonical JSON, the files below the
-- root, git, and the key of the cache are
-- functions given from outside, with the documented property
-- that a theorem uses as a hypothesis, such as that a float is read back from its decimal text, or
-- that two requests have different SHA-256 digests.
--
-- Not modelled: the download of Registry candidates (`list_candidates` is an argument of a run),
-- the audit files, the shutdown, `model_info` and `route_reliability` of the API, pydantic's validation (but for the constraints of a request for a prediction),
-- logging and clocks, the protocols of the first two experiments, the gates of
-- November, and the training code, most of which configures
-- numeric libraries.
pub mod Api
pub mod Deployment
pub mod Features
pub mod LoadTesting
pub mod Modeling
pub mod Persistence
pub mod Prelude
pub mod Promotion
pub mod Python
