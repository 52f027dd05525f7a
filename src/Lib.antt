-- ===== src/Lib.antt =====
-- A model of the backend of DreamWeaver, a bedtime story companion (the folder api/src of the
-- repository), and what is proved of it.
--
-- The conductor (api/src/domain/agents/BedtimeConductorAgent.ts) leads a session. It keeps the
-- state of the session in a store, asks a language model for its next thought, lets fixed rules overrule the
-- thought, and asks a recovery service what to do when a call fails. A story is generated on top of
-- that: the conductor is asked, the text is streamed, the guardian checks it, and what happens is
-- published on the event bus, to which the conductor and the summaries listen; the sleep sentinel
-- publishes its cues there. Around it are the services of the API: authentication, the rate limit,
-- links to share, tickets and the relay of the live session, its tools, companions, voices,
-- moderation, and the checks of what is kept.
--
-- Files, and what they model:
--   Goal: bedtime goals (api/src/domain/entities/ActiveGoal.ts).
--   Thought: the phases of a session, and in Thought/Arbiter the rules that overrule a thought
--     (api/src/domain/services/AtomOfThoughtEngine.ts).
--   Session: the state of a session (api/src/application/ports/SessionStatePort.ts); Session/Store
--     and Session/Lua: its two stores (api/src/infrastructure/adapters/InMemorySessionState.ts, and
--     the scripts of RedisSessionState.ts beside it); Session/Agreement: whether they do the same;
--     Session/Redis: the rest of RedisSessionState.ts, with its keys, expiry and indices.
--   Resilience: recovery (api/src/infrastructure/services/ResilienceEngine.ts, of which
--     api/src/domain/services/ResilienceEngine.ts is a copy); Resilience/Retry:
--     api/src/infrastructure/resilience.ts.
--   Ambient: api/src/infrastructure/services/AmbientContextService.ts.
--   Conductor: goals and beats (`_getOrInitState`, `setGoal`, `handleStoryBeat`); its children are
--     the sleep cue and the start of a session (Cues), the calls of the model in a story session
--     (Attempts), `conductStorySession` as a whole (Sessions), `processTurn` (Turns),
--     `generateSuggestions` (Suggestions), and any sequence of these calls (Phases). It works on
--     any store that fills the record SessionPort, and its theorems need PortLaws, which
--     Conductor/Stores proves of both stores.
--   RateLimit: api/src/middleware/rateLimit.ts.
--   Companions: api/src/domain/entities/DreamCompanion.ts and
--     api/src/application/use-cases/CheckUnlockUseCase.ts.
--   Verification and Quality: api/src/domain/services/VerificationPipeline.ts and
--     api/src/domain/services/QualityGate.ts.
--   Sharing: api/src/domain/entities/SharedLink.ts, with CreateShareLinkUseCase.ts and
--     GetSharedContentUseCase.ts of api/src/application/use-cases, and the count of the views in
--     supabase/migrations/20260129000006_shared_link_logic_cleanup.sql.
--   Story: api/src/domain/entities/Story.ts and api/src/domain/value-objects/StoryContent.ts.
--   Tools: api/src/application/use-cases/Live/ToolExecutionRouter.ts.
--   Tickets and AgentMemory: InMemoryTicketStore.ts and InMemoryAgentMemory.ts of
--     api/src/infrastructure/memory; PersistedMemory: PersistedAgentMemory.ts beside them. Cache:
--     api/src/infrastructure/adapters/InMemoryCacheAdapter.ts.
--   Events: the buses of api/src/infrastructure/events; Events/Bus is SupabaseEventBus.ts.
--   Sentinel: api/src/domain/agents/SleepSentinelAgent.ts and ManageSleepCycleUseCase.ts of
--     api/src/application/use-cases.
--   Generation: api/src/application/use-cases/GenerateStoryUseCase.ts.
--   Safety and Intent: SafetyGuardian.ts and IntentClassifier.ts of api/src/domain/services, on the
--     regular expressions of Pattern.
--   Voice: api/src/domain/entities/VoiceProfile.ts, with UploadVoiceUseCase.ts and
--     SelectVoiceUseCase.ts of api/src/application/use-cases.
--   Consolidation: api/src/domain/services/MemorySummarizationService.ts and
--     api/src/application/handlers/SessionConsolidator.ts.
--   Conversation: api/src/application/use-cases/ProcessConversationTurnUseCase.ts.
--   Moments: api/src/application/use-cases/AnalyzeSessionForMomentsUseCase.ts. Moderation:
--     FlagContentUseCase.ts and ReviewFeedbackUseCase.ts beside it.
--   Auth: api/src/middleware/auth.ts. Worker: ws-worker/src/index.ts.
--   LiveRelay: api/src/infrastructure/services/GeminiLiveRelay.ts.
--   Prelude: shared names, tests, lists, dictionaries and texts. Tests: runs at concrete inputs.
--
-- Functions have the names of the methods, in lower case with underscores. A method that changes
-- an object takes the state and returns the new one; a method that throws returns an option. A `Map`
-- is a dictionary in the order of insertion.
--
-- What is simplified: a `Date` is its number of milliseconds, and a call reads the clock once; the
-- progress of a story and the rates of the quality gate are exact fractions in place of floating
-- point, and costs, confidences and tones are whole numbers of small units; `toLowerCase` changes
-- ASCII letters only. Under the conductor, in Redis, each session is one key that does not expire,
-- and the encoding drops `undefined`. Stores do not fail under the conductor. Where a state that was
-- read is the object in the store, the assignments to it change the store at once. What happens to
-- a connection or a sentinel is a list of happenings in any order, so that a call that waits in the
-- source is two of them. A bus is different: it gets the answer of the database to a batch before
-- the next thing happens to it, so that its calls do not overlap. The schemas of the conductor's input
-- (api/src/domain/schemas/AgentSchemas.ts) are tests, on the fields that the model has, and the test
-- for a UUID of their library is a parameter; an exception of them is `none`. Loops run over lists or over the number of rounds that are left, so
-- that they end: the loop over the calls of the model has three rounds, the digits of a number have
-- the number plus one as fuel, which is more than its digits, and the repetitions of a regular
-- expression the length of the text, since each takes a character.
--
-- Not modelled: repositories and clients of Supabase, Gemini and Redis, prompts and texts of traces,
-- logging, the routes, the web client, the signal processing of the sleep sentinel, and the agent's
-- memory in Supabase.
mod Prelude
mod Tests
pub mod Goal
pub mod Thought
pub mod Session
pub mod Resilience
pub mod Ambient
pub mod Conductor
pub mod RateLimit
pub mod Companions
pub mod Verification
pub mod Quality
pub mod Sharing
pub mod Story
pub mod Tools
pub mod Tickets
pub mod Events
pub mod Sentinel
pub mod Pattern
pub mod Intent
pub mod Safety
pub mod Voice
pub mod Generation
pub mod Worker
pub mod LiveRelay
pub mod Consolidation
pub mod Conversation
pub mod Moderation
pub mod Moments
pub mod Auth
pub mod Cache
pub mod AgentMemory
pub mod PersistedMemory
