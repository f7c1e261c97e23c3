-- ===== src/Lib.antt =====
-- A verification library for the Telegram matching bot: the coin economy, the services around it, the
-- payment callback, the matching engine, the scheduler and the middlewares, as functions on a
-- database state and on the keys of Redis, with the theorems that make them correct.
--
-- The parts and how they meet. A handler of the bot or a route of the API opens a database session and
-- calls the queries of database/queries/crud.py and the engines of services/. They read and write
-- rows through one session and are serialised by row locks, so each is a function from a state of
-- the tables to a state and an answer; an interleaving is a sequence of such calls. A coin that moves
-- leaves an entry in the table of coin transactions, but for the transfer of the bot's own handler
-- (Handlers.Transfer): that ledger is what most parts share, and the module of histories runs them in
-- any order against it. An update reaches a handler through the middlewares. Background tasks share
-- the matches and Redis with the handlers; where they run side by side without a row lock, a step is
-- one command (Scheduler.Race).
--
-- Models: database/models/models.py. `Db` is the state, one list of rows for each table; a row is a
--   record with the columns that some modelled operation reads or writes; AUTO_INCREMENT is one
--   counter. Python's datetimes are seconds with the flag for a time zone, so that a comparison that
--   raises TypeError is a value.
-- Session: get_user_by_tg_id, row updates and the coin log of database/queries/crud.py.
-- Economy: Coins is process_coin_transaction (the event multiplier of Redis is a parameter),
--   Transfer is transfer_coins, Accounts is create_user, complete_user_registration and the ledger of
--   deleted accounts (database/queries/crud.py), with the shard of bot/core/bot_shard_manager.py.
-- Level: add_xp_to_user (database/queries/crud.py). Its loop runs on fuel, one more than the points,
--   which is enough since each round takes at least 100 points.
-- Quota: consume_vip_quota_or_coin (database/queries/crud.py).
-- Gifts: sell_gift, purchase_gift, credit_gift, transfer_gift (services/gift_engine.py).
-- Matches: the rows of a match (database/queries/crud.py) and the end that a ban brings, with the
--   effects outside the database as a list (services/warning_engine.py).
-- Warnings: issue_warning, approve_report, reject_report (services/warning_engine.py) and
--   create_user_report (database/queries/crud.py).
-- Referral: ensure_referral_code, attribute_referral, process_commission_on_purchase and the totals
--   (services/referral_engine.py).
-- Vip: VIPSubscriptionManager (services/vip_subscription.py); what the driver gives back for a stored
--   time is a parameter.
-- Completion: ProfileCompletionService (services/profile_completion.py).
-- Payment: Gateway is verify_payment (services/zarinpal.py) with the gateway's answer as a parameter;
--   Callback is zarinpal_callback and Limiter its brute-force guard (api/routes/payment.py).
-- Matching: the queue keys, the queues in Redis and find_match (services/matching_engine.py), each call
--   as one step; the number of batches of a queue is fixed before the first is read, so the loops
--   are recursion on it and need no fuel of their own.
-- Scheduler: services/scheduler.py. Store is what DatingScheduler keeps in Redis, Termination is
--   terminate_match_unified as a function, Race its callers side by side as a step relation, Poll what
--   the polling loop does with the timer of one match. The loop for the lock runs over the readings of
--   the clock, so it needs no fuel.
-- Middlewares: StateLock is bot/middlewares/state_lock.py with its whole table in LockTables, AntiSpam
--   the two rate limits of bot/middlewares/anti_spam.py.
-- Handlers: Gacha is the loot box (bot/handlers/gacha.py), Transfer the amount and the atomic transfer of
--   bot/handlers/transfer.py, Receipts the card orders of bot/handlers/vip.py and bot/handlers/payments.py.
--   Questionnaire is bot/handlers/questionnaire.py for one match: the handler of an answer, the step to
--   the next question, the end and the score, with what can fail in a call as a parameter of it.
--   Beginning is the start of a match (bot/handlers/matching.py), before and after its wait of five
--   seconds. Consent is the approval of a chat by both partners, and its end
--   (bot/handlers/anonymous_chat.py).
-- Channels: the channels of the forced membership (database/queries/crud.py) and their cached list
--   (services/cache.py).
-- Workers: the queue timeout, the cleaner of states and the online status of services/scheduler.py. The
--   chunks of the last run on fuel, one for each id, which is enough since each takes at least one.
-- Social: likes, friends, blocks, comments, packages and orders (database/queries/crud.py).
-- History: sequences of the operations above.
-- Tests: a small database, and the theorems at concrete inputs.
--
-- Numbers are the native naturals; signed columns are the integers of Prelude.Int. Python's integers
-- have no bound, and the bounds of the MySQL columns are not modelled. Texts that are only shown are
-- left out; a text that goes into a log is a constructor with its values.
--
-- Not modelled: the discovery queries (read-only rankings in floating point), anonymous messages,
-- questions and tags, the dialogues, keyboards and texts of the other handlers of bot/, the middlewares
-- that ask Telegram or open a session, the admin routes, the admin's broadcast and other workers,
-- metrics, settings and migrations. A commit that fails is modelled where a handler goes on after it;
-- elsewhere an operation's writes count as made when it returns.
pub mod Prelude
pub mod Models
pub mod Session
pub mod Economy
pub mod Level
pub mod Quota
pub mod Gifts
pub mod Matches
pub mod Matching
pub mod Warnings
pub mod Referral
pub mod Vip
pub mod Payment
pub mod Completion
pub mod Scheduler
pub mod Middlewares
pub mod Handlers
pub mod Channels
pub mod Workers
pub mod Social
pub mod History
pub mod Tests
