-- ===== src/Lib.antt =====
-- A Telegram bot that downloads media (src/instagram_video_bot): the parts that keep its promises to
-- users, payments and accounts. The bot takes links from chats and from inline queries. For a chat, the
-- job manager runs one download for all requesters of the same link and hands the delivery from one
-- requester to the next; for an inline message, a session is claimed and delivered, and may be paid
-- for by a one-time payment. Both keep their records in one SQLite store, which also limits rates and
-- keeps subscriptions and settings. Downloads from Instagram lease accounts from a pool.
--
-- Files and the code they are about, under src/instagram_video_bot:
--   Base, Base/*: Boolean tests, lists, integers for Telegram ids, and Python's `in` and slices on texts.
--   Sql: SELECT, UPDATE, DELETE, INSERT, ON CONFLICT and ORDER BY on a table as a list of rows in rowid
--     order; Sql/Keys: a table with a primary key as a map; Sql/Refinement: what an operation on one key
--     promises, and the conditional UPDATE that keeps it; Sql/Order, Sql/Sorting: least rows, sorted rows.
--   Store/InlineSessions: the table inline_sessions of services/state_schema.py and its methods in
--     services/state_store.py (create_inline_session, claim_inline_delivery, claim_inline_retry,
--     cancel_inline_delivery, advance_inline_delivery_stage, finish_inline_delivery and the others).
--     Machine is the abstract specification, a state machine on one row; Refine shows the SQL statements
--     against it; Trace and Trace/Counts are about every sequence of calls,
--     Fresh about a session from its creation to its first claim.
--   Store/Payments: inline_one_time_payments, its methods, and _claim_one_time_payment_for_session of
--     services/telegram_bot.py; Laws, and Trace for every sequence of events.
--   Store/Jobs, Store/Jobs/Metrics: jobs, request_events and performance_metrics with their writers.
--   Store/RateLimit: check_user_rate_limit. Store/Access: the whitelist, subscriptions and promo counts.
--   Store/Groups: chat settings, user languages, and notifications.
--   Jobs/States: services/job_states.py. Jobs: the data of services/job_manager.py and its functions on
--     one job; Jobs/Manager: submit; Jobs/Running: _run_job and _set_state; Jobs/Requests: cancel_request
--     and mark_request_*; Jobs/Views: the snapshots. Jobs/Delivery, Jobs/Invariant,
--     Jobs/Submission and Jobs/Cancellation hold the proofs.
--   Accounts: utils/account_manager.py; Accounts/Pool is about leases. Accounts/Health has the failures
--     and the quarantine, and Accounts/Health/Quarantine is about them.
--   Store/Cache: recent_results and inline_cached_media; Store/Events: inline_delivery_events;
--     Store/Runtime: inline_runtime_settings.
--   Telegram/Retry: services/telegram_media_retry.py, with its proofs in Attempts and Sends.
--   Telegram/Actions: services/telegram/job_actions.py and services/telegram/inline_actions.py.
--   AuthPool: services/instagram_auth_pool.py; Cooling, Turns and Headers hold its proofs.
--   Notices: services/post_deploy_notifications.py, with Notices/Once on every sequence of deploys.
--   Inline/Access: services/inline_access.py and the parsing of services/telegram_inline_sessions.py.
--   Inline/Bot: the state of TelegramBot that inline delivery uses (services/telegram_bot.py);
--     Inline/Answers: inline_query_handler; Inline/Taps: chosen_inline_result_handler,
--     inline_callback_handler and inline_action_callback_handler; Inline/Failure: how errors are read;
--     Inline/Delivery: _deliver_inline_session step by step, Inline/Delivery/Whole as one function;
--     Inline/Checkout: pre_checkout_handler, successful_payment_handler and the refund checks;
--     Inline/Refunds: inline_refund_command, with telegram_update_helpers.py's parse_positive_int_arg.
--     Inline/Steps is the whole as steps that interleave; Inline/Quiet and its children hold the proof
--     that each step changes payments by the methods of StateStore alone and closes what it records.
--   The Tests modules run the definitions on concrete data.
--
-- How the model stands to the code. A method of StateStore is a function from its table, its arguments,
-- the clock it reads and the fresh id it draws, to the new table and the answer: the store's lock and
-- transactions make each method one step, so interleavings are sequences of calls. Instants are natural
-- numbers; the ISO texts in UTC that the store compares order as they do. Ids of
-- chats are integers, and so are those of requesters, of who is limited and of who is notified, as
-- request_user_id may give a chat's id; the ids of users are natural numbers. Rows that the code reads back
-- through a dict are records. A ValueError or an IntegrityError is a value of the result. A SharedJob is
-- a row of `objects`, named by its id, and the dicts of JobManager hold ids, so a job that has left them
-- is still there for its task, as the Python object is. A coroutine is split at its awaits into steps of
-- the state. An asyncio future is one of four states; waiters are not modelled. An exception is what the
-- code reads of it: its class among those it tests, its text and its name. Accounts are named by their
-- usernames, which are taken as different. A handler or a delivery is cut at its awaits into steps, and Inline/Steps runs
-- steps in any order with any arguments, which includes every schedule of the event loop. Within a step
-- the clock stands still. The discard of a token that comes with the end of a delivery is put at its last
-- change of the tables; nothing reads that set. A loop over attempts recurs on the attempts left; all
-- other recursion is on lists and texts.
--
-- Parameters, as they are not code of the repository: the settings, `str.lower` (an error's text comes in
-- lower case), str and int on numbers, random.choice (the index it draws), clocks, uuids and tokens, what
-- Telegram answers, and whether a file exists. Rate limits and windows are not negative. The hierarchy of
-- telegram.error is as documented: TimedOut and BadRequest are NetworkErrors, RetryAfter is not. The link
-- that RequestParser finds in a query is an argument.
--
-- Not modelled: requests in chats and the senders of media, the clients of Instagram, Twitter and
-- YouTube, ffmpeg, the files of the account pool and its logins, the credential file and the cache of auth pools, semaphores, listeners, report queries,
-- the other commands of the owner, and migrations.
pub mod Base
pub mod Sql
pub mod Store
pub mod Jobs
pub mod Accounts
pub mod Telegram
pub mod Inline
pub mod AuthPool
pub mod Notices
