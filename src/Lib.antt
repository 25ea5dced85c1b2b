-- ===== src/Lib.antt =====
-- A verification of the services of a sales-lead generator: it discovers companies by an ideal-customer
-- profile, watches them for signals, has a language model classify and score each signal, and acts on
-- the scored signals. External services are called through one client with retries, a circuit breaker
-- and a rate limiter.
--
-- Parts and files, with the code of each:
-- Base, Base/Tests, Base/Lists: shared names, Boolean tests on the native numbers, lists.
-- Models: the enumerations and the rows of backend/app/models, with the columns that the modelled
--   services use, and reads and writes by primary key.
-- Api/Breaker: `CircuitBreaker` of backend/app/services/api/base_client.py. One function for each
--   method, the clock being an argument.
-- Api/Limiter: `RateLimiter` of the same file; the Lua script on a Redis hash, and its expiry.
-- Api/Errors: backend/app/services/api/errors.py.
-- Api/Client: `BaseAPIClient.request`, `_send`, `_check_response` and `_backoff_delay`. The state
--   holds the breaker, the bucket, and what was sent, slept and recorded. The provider, the
--   clock and the random draws are a record of functions of the attempt. The loop recurses on the
--   number of attempts that are left.
-- Intelligence: backend/app/services/intelligence.py, with the language model as a record of two
--   functions, where `none` is an exception. The queue recurses on the list of pending identifiers.
-- Orchestrator: backend/app/services/action_orchestrator.py. Session holds its state and results,
--   Dispatch the dispatchers, Notify the notification of a company with its cooldown.
-- Dedup: `merge_companies` of backend/app/services/deduplication.py; Rows is the loop that its
--   contacts and signals share.
-- Texts: `normalize_domain` and `company_name_similarity` of the same file, over a record of the text
--   operations of Python, urllib and rapidfuzz.
-- Discovery: backend/app/services/discovery.py; Score is `calculate_icp_score`, and Rows the
--   row that a search result gives.
-- Profiles: backend/app/services/icp_profile.py, the validators of backend/app/schemas/icp_profile.py,
--   and in Handlers the handlers of backend/app/api/v1/icp_profiles.py.
-- Auth: backend/app/core/security.py, redis.py and deps.py, and `refresh` and `logout` of
--   backend/app/api/v1/auth.py. Blacklist is the use of Redis. Decoding a token is a parameter.
-- Llm: `_run` and `_is_rate_limit` of backend/app/services/llm/client.py. An exception is the list of
--   itself and its causes.
-- Like: `escape_like` of backend/app/core/utils.py, and the pattern of `list_companies` in
--   backend/app/api/v1/companies.py. A text is the list of its characters, and `ILIKE` a parameter with
--   the laws of its documentation, in which a function takes the case off a character.
-- Concurrency: `gather_rate_limited` of backend/app/utils/concurrency.py; a coroutine factory is what
--   its calls do one after another. The tasks take steps in the order of a schedule, one task holding a
--   place of the semaphore from its first step to its end, and `asyncio.gather` is what it documents of
--   the order of its results and of `return_exceptions`. Slots is one task's end, Retries what the
--   gathering returns, and Progress that it does return.
-- Monitor: `monitor_company` of backend/app/services/signal_monitor.py; Urls and Fragments are the
--   choice of pages in backend/app/services/intel_target_urls.py. The hashes in Redis are a list with
--   the latest entry first, each with the time at which it expires.
-- Enrichment: the waterfall, the storage of contacts and the batch of
--   backend/app/services/enrichment.py; Contacts is what each provider contributes. The clock is read
--   once for each provider, before it is called, and whether a provider returns in time is a function.
-- Scoring: backend/app/services/lead_scoring.py; Fractions holds the numbers of a score.
-- Dedup/Scan: `scan_duplicates` of backend/app/services/deduplication.py; a set of ids is a list.
-- Companies: the handlers of backend/app/api/v1/companies.py that change the table of companies; Domains
--   is `validate_public_domain` of backend/app/services/deduplication.py, and Columns the columns of an
--   imported sheet. A handler that checks before it commits takes the rows at the check as an argument.
-- Tests: the theorems at concrete inputs.
--
-- How they meet: the client composes the breaker and the limiter; the queue hands processed signals to
-- the orchestrator by the table of signals, which both read and write; discovery reads the active
-- profile that Profiles keeps; the scan for duplicates names the companies that a merge then joins;
-- scoring reads the contacts that enrichment stores, whose verified ones have an email.
--
-- Numbers: all are native naturals. The client counts milliseconds in delays and the limiter thousandths
-- of a token; sessions count milliseconds; an ideal-customer score is in tenths of a point. A
-- lead score is an exact fraction, where the code has a floating-point number, and is rounded to
-- hundredths, with a half rounded up; a similarity of names is rounded down to whole points. No
-- definition runs on fuel: every loop is structural.
--
-- Not modelled: logging, HTML and JSON formats, the connections to the database and to HTTP, concurrent
-- transactions (a row lock serialises those that matter; the handlers of companies are the exception,
-- whose commit meets another table than their check), the clients of the providers, the generation of
-- company profiles, the background tasks, the other routers, the migrations and the user interface.
-- Left out too are three exceptions that end a whole handler: a refusal by the database for a column
-- other than the name and the domain of an imported company, one for a contact of the waterfall, and the
-- `ValueError` of `urlparse`.
pub mod Base
pub mod Api
pub mod Models
pub mod Intelligence
pub mod Orchestrator
pub mod Dedup
pub mod Texts
pub mod Discovery
pub mod Enrichment
pub mod Scoring
pub mod Companies
pub mod Auth
pub mod Profiles
pub mod Llm
pub mod Like
pub mod Monitor
pub mod Concurrency
pub mod Tests
