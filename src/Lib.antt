-- ===== src/Lib.antt =====
-- apcore: an SDK that runs modules behind governance. A call of a module goes through a pipeline
-- that guards the call chain, asks the access control list (ACL) whether the caller may call the
-- target, asks the execution policy whether a human must approve, and runs middleware around the
-- module, the circuit breaker among it. This library models the parts that decide.
--
-- Prelude: shared names, Boolean tests, lists and texts. A text is its list of code points, so
-- that patterns are matched character by character; the keys of `conditions` and of handlers are
-- strings of the language.
--
-- Pattern (src/apcore/utils/pattern.py): `match_pattern`, `match_glob`, `calculate_specificity`.
-- Find, Segments and Anchors are about searching, splitting and the two ends; Meaning says what a
-- pattern means character by character; Matching, Globbing and Specificity hold the theorems.
--
-- Acl (src/apcore/acl.py, src/apcore/acl_handlers.py): Values is what YAML and JSON give, Rules
-- `ACLRule` and `_validate_rule`, Handlers the built-in handlers and the registries, Conditions
-- `_evaluate_conditions`, `_evaluate_condition`, `$or`, `$not` and `_precheck_conditions`, Check
-- `_match_patterns`, `_matches_rule`, the loop of `check_access` and `_finalize_check`, Store
-- `__init__` and `add_rule`. A handler that a host registers is code outside the repository: it is
-- an entry of the registry, any function from the value and the context to an answer, an
-- exception, or an awaitable that suspends. A host could replace `$or` and `$not` too, which are cases
-- of the evaluator here: that is left out. The sync and the async path are one function with two
-- handler lookups, as their code differs in nothing else. Information compares conditions under
-- handlers that answer more, Resolving carries that to one rule, FailSafe to `check`; Decision and
-- Allowing say which rule decides, Shape which rules are valid, Doors what holds of every ACL that
-- was built, BothWays when the two paths agree.
--
-- Policy (src/apcore/policy.py): `PolicyRule`, `_match`, `resolve`; it uses Pattern. Winner is
-- about the rule that wins, Gate about the approval that follows.
--
-- CallChain (src/apcore/utils/call_chain.py): `guard_call_chain`. The limits are natural numbers:
-- a negative limit fails the test that 0 fails.
--
-- Breaker (src/apcore/middleware/circuit_breaker.py): the circuit of one module and caller as a
-- record, each hook as a function of the record and the time, in microseconds. The lock around each
-- hook makes it one step. The comparison of the error rate with the threshold is one of floats, so
-- the settings hold it as a function of the number of errors and of samples, and so is that of the
-- elapsed time with the recovery window, which they hold as a function of the two times. Machine
-- has the steps and the invariant, Probe the half-open circuit, History the closed one, Circuits
-- the records by key.
--
-- Middleware (src/apcore/middleware/manager.py): `use`, `add`, `remove` and the loops over the
-- hooks. A middleware is a host's code: its hooks are arbitrary functions of a shared state and of
-- the inputs, outputs or error. Order and Managed are about the list, Onion about the hooks.
--
-- Strategy (src/apcore/pipeline.py, `ExecutionStrategy`): the steps of the pipeline and the
-- changes to them; a change gives the strategy it leaves and the error it raises, if any. Names
-- and Changes are about the names, Protected about steps that may not go, Dependencies about
-- `_validate_dependencies`.
--
-- Loading (src/apcore/registry/dependencies.py): `resolve_dependencies`. The version check
-- `matches_version_hint` is an argument, any function that answers or raises. Counting and Sorting
-- are about Kahn's sort, Building about the graph, Order about the result.
--
-- Version (src/apcore/registry/version.py): `parse_semver`, the constraint operators,
-- `matches_version_hint` and `select_best_version`, on texts of ASCII characters; the patterns of
-- `re` are written out as the loops they stand for. Ranges is about the caret and the tilde,
-- Select, Sorting and Best about the version that is selected.
--
-- Conflicts (src/apcore/registry/conflicts.py): `detect_id_conflicts`, on IDs of ASCII characters.
--
-- Engine (src/apcore/pipeline.py, `PipelineEngine`): the data of a run, the step middlewares and
-- their hooks; Turn is one round of the loop of `run`, Loop the loop. A step's body and a
-- middleware's hook are code of the steps and of the host, arbitrary functions of what they see;
-- what they may change is the state of the call, not `module_id` and `dry_run`, which nothing
-- assigns after the context is made. The engine reads the steps through Strategy. Cases is all that
-- a round may do, Entries and Trace the entry it adds, Ends the end of a run, Bodies and DryRun what
-- depends on the bodies, Denial and Denied the step that refuses.
--
-- Tracing (src/apcore/trace_context.py): the W3C headers, on texts of ASCII characters; the
-- patterns of `re` are written out. States is about the trace state, Parents about the
-- traceparent that is read, Writing about one that was written, Solid about `strip` and `lower`,
-- Headers about `inject` and `extract` together.
--
-- Tasks (src/apcore/async_task.py): the tasks of an `AsyncTaskManager`. Between two waits a runner
-- awaits nothing but the store, whose calls do not suspend, as those of `InMemoryTaskStore`; so
-- what it does there is one function. With a store that suspends, a write of others may come
-- between a runner's check and its write, which is not modelled. Steps has the interleavings, with
-- a store of one manager or of several of the same event loop. Final is about the statuses, Limits
-- about `max_concurrent` and `max_tasks`, Attempts about retries.
--
-- Store (src/apcore/registry/version.py, `VersionedStore`): Spec says what it implements, Latest
-- which version is the latest. ModuleIds and Registry (src/apcore/registry/registry.py): the
-- validation of IDs; registration in its phases, removal and lookup, on Store and Conflicts. A
-- module is the number of its object. Each step holds the lock, and `on_load` runs between steps;
-- Agreement says how the maps agree, Publishing and Removing keep that, Consistent is about all
-- interleavings, Registering about which registrations are accepted. Draining has `acquire`,
-- `release` and what `safe_unregister` does before and after its wait, Drained what holds meanwhile.
--
-- Names (src/apcore/utils/normalize.py): the conversion of names and IDs of other languages, on
-- texts of character codes; Shape is about the names that come out, Fixed and Converted about those
-- that are kept.
--
-- Redaction (src/apcore/utils/redaction.py): the redaction by field names and regexes; a regex is
-- an argument, the test whether its search finds something; names are of ASCII characters. Clean is
-- about what is left, Alike about what is hidden. Emission
-- (src/apcore/observability/context_logger.py) is the redaction of what is logged, with its depth
-- limit of 32, Surfaces compares the two.
--
-- Delivery (src/apcore/events/circuit_breaker.py): the circuit in front of a subscriber to events,
-- which is the outcome of its delivery; the float comparison of the elapsed time is an argument.
-- Told is about overlapping deliveries and the circuit's own events, Window about a subscriber that
-- fails.
--
-- Kahn's loop and the loop of `PipelineEngine.run` have fuel. The first has as many rounds as there
-- are modules, which is enough, since no module is queued twice; the second has one for each step
-- and one for the test that ends it, which is enough, since a skip only goes forward. All
-- other loops are structural recursion, and `while i <= end` of `match_glob` recurses on the rounds
-- that are left, which is exact. In-degrees are natural numbers: one is decreased only over an edge
-- that it counts. Priorities are natural numbers, as `Middleware.__init__` has them.
--
-- Not modelled: logging, audit entries and event delivery (output), file loading, the search for a
-- cycle that words the error of `resolve_dependencies`, the executor and the built-in steps,
-- discovery and hot reload of the registry, the redaction along a schema's markers (its resolver is a
-- third-party package), configuration, schemas, the rest of observability, system modules and
-- bindings. The last five are I/O or glue over third-party packages.
pub mod Prelude
pub mod Pattern
pub mod Acl
pub mod Policy
pub mod CallChain
pub mod Breaker
pub mod Conflicts
pub mod Delivery
pub mod Engine
pub mod Loading
pub mod Middleware
pub mod ModuleIds
pub mod Names
pub mod Redaction
pub mod Registry
pub mod Store
pub mod Strategy
pub mod Tasks
pub mod Tracing
pub mod Version
