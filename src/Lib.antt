-- ===== src/Lib.antt =====
-- A verification library of the RAG agent (app/).
--
-- What is modelled, and where.
--
-- Routing is app/model_runtime/routing.py with the chat service and the first-packet probe of
-- app/model_runtime/chat. Health is `ModelHealthStore`, a circuit breaker for each model; its
-- methods are functions of the same names that take the store and the clock's reading and return the
-- new store. Selector is `ModelSelector`, with Candidates for the models outside the chat tiers,
-- Fallback is `ModelRoutingExecutor`, Fallback.Streams is `stream_chat` and `_try_stream_candidate`,
-- FirstPacket is `ProbeStreamBridge`.
-- `commit` of the probe is suspended only while an action runs, and is split into steps there.
-- The selector asks the health store, the executor asks it for permits and reports outcomes to it.
--
-- RateLimit is app/rag/ratelimit. Semaphore is `PermitExpirableSemaphore` (semaphore.py) on what
-- Redis holds under its keys; Claim is the queue of `FairDistributedRateLimiter` (fair_limiter.py),
-- whose claim script runs the semaphore's. The loop over the head of the queue has the 17 places of
-- the script's ZRANGE as its fuel. Process is what one process keeps beside Redis: the waiters, their
-- futures and the dispatcher, with Steps as the order in which they run. There the end of an `acquire`,
-- with the awaits of its clean-up, is one step that may fail: behind its first part it changes nothing
-- that the process reads. A claim is granted when Redis runs its script, so its answer may be lost.
--
-- Ingestion is app/ingestion/engine/engine.py. Pipeline is `ordered_nodes`: each statement of it is a
-- definition, and its loop along the links has the number of the nodes and one as fuel, which is
-- enough since each round sees a new id. Execution is `execute`, with the nodes' work, conditions and
-- outputs as parameters.
--
-- TaskQueue is app/framework/task_queue.py. Rows holds the columns of t_async_task and what the
-- methods assign to one row, Methods and Recovery the methods of `TaskQueue` under their names. The
-- table is a list of rows; a statement that selects by the primary key acts on the first row of its
-- WHERE clause. A callback of a method works in its transaction on the rest of the database.
--
-- Idempotency is app/framework/idempotency.py. Keys are the Redis keys with their expiry, Locks the
-- methods of `SubmitLockExecutor` and `ConsumeMarkExecutor` with their scripts; the tokens of a
-- process's executor are part of its state, and the keys are shared by all. Worker is `handle` of
-- app/worker.py, a task's work between its two calls on the mark.
--
-- Stream is app/framework/sse.py and app/framework/stream_tasks.py. Sender is `SseSender`, whose
-- reader is `stream`, Pieces is `split_message_chunk`, whose fuel is the length of the text, Tasks is
-- `StreamTaskManager` and Broadcast is `RedisStreamTaskManager`; the callbacks that a method runs are
-- part of its result.
--
-- Chunking is app/core/chunk with the blocks of app/core/parser/models.py. Split is `split_text`, whose
-- loop has the length of the text as fuel, since each round begins at least one code point later;
-- Blocks is `render_block`, Service is `ChunkingService.chunk` with its two loops.
--
-- Rewrite is app/rag/rewrite/term_mapping.py: Mapping has `apply_mapping`, whose loop has the length of
-- the text and one as fuel, since each round passes over at least one code point of the text that was
-- given, and `normalize`.
--
-- Retrieval is app/rag/retrieval/postprocessors.py: PostProcessors has `DeduplicationPostProcessor` and
-- `WeightedRrfFusion`. Intent is `IntentResolver` of app/rag/intent/resolver.py. Scores are floating-point
-- numbers in the source and an abstract type here, of which a theorem names what it needs.
--
-- Prelude passes on the library's names and holds the shared lemmas, Dict is an association list with
-- the laws of a Python dict.
--
-- Conventions. A method that changes an object takes it and returns the new object beside its
-- result. Each method that holds an asyncio lock, and each Lua script, is one step; what runs between
-- two awaits of one task is one step as well. Times are natural numbers in the unit of the source, so
-- the rounding of floating point is not modelled. Dictionaries are association lists in insertion
-- order (Dict). Provider clients, callers and callbacks are parameters.
--
-- Not modelled: the HTTP clients of the providers, the parsers, the stores behind retrieval and
-- knowledge bases, configuration, logging, tracing and the endpoints, since they are input and
-- output; the consuming loop of the worker, the loops of the subscriptions to Redis, the expiry of the
-- marks of stream tasks, the intent tree and its classification, the scope of a retrieval, the memory of
-- a conversation and the condition language of pipelines.
pub mod Prelude
pub mod Dict
pub mod Routing
pub mod RateLimit
pub mod Ingestion
pub mod TaskQueue
pub mod Idempotency
pub mod Stream
pub mod Chunking
pub mod Retrieval
pub mod Rewrite
pub mod Intent
