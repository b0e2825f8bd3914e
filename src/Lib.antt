-- ===== src/Lib.antt =====
-- The handbook is a collection of worked designs. This library models eleven of them that keep
-- state and make promises about it, with the code they share.
--
-- Parts, and where they are modelled:
--
-- - code/lld/kv_store_transactions, a key-value store with nested transactions. Kv/Models is
--   models.py, Kv/Transactions is transactions.py, Kv/Durable is Storage and the logs of
--   services.py, Kv is its KVStore and Kv/Scan its listing of keys (with Kv/Stack for the stack of
--   savepoints on its own), each method under its name (get_item for __getitem__, read and write
--   for _read and _write). A thread's own stack of transactions is a session, named by a number.
--   Kv/Commands has the calls as data: scripts of one session, and events of all of them in any
--   order.
-- - code/hld/ledger.py, a double-entry ledger (Ledger), a payment state machine (Payments) and the
--   settlement reconciliation (Payments/Reconcile). Calls are data in Ledger/Calls; the helpers of
--   the method post stand before it, in the order in which it runs them.
-- - code/hld/ot_transform.py, collaborative editing (Ot): operations, transform, DocumentServer
--   and ClientDocument. A text is a list of characters. Ot/Editing has the calls of one client and
--   the submissions of all others as events.
-- - code/hld/fencing_lock.py, leases with fencing tokens and a store that checks them (Fencing).
-- - code/hld/idempotency_store.py, claims on idempotency keys (Idempotency). The handler, the
--   payloads, their fingerprint and the bodies of the responses are parameters. Only subclasses of
--   HandbookError become responses; another exception of the handler leaves the claim.
-- - code/hld/logical_clocks.py, Lamport, vector and hybrid clocks with the stores that use them
--   (Clocks). A negative counter and a negative stamp are integers, as the code checks them.
-- - code/hld/inventory_reservation.py, the stock table and its reservations (Inventory,
--   Inventory/Reserve), with the outbox and the sharded counter (Inventory/FlashSale,
--   where an index may count from the end, as in Python). Identifiers of reservations are prefix and
--   number.
-- - code/hld/snowflake.py, identifiers from a timestamp, a machine and a sequence number (Snowflake,
--   Snowflake/Registry for the leases of machine numbers). Mask and shifts are arithmetic at every
--   width (Prelude/Bits).
-- - code/hld/base62.py, short codes (Shortener): the codec, the permutation of counters
--   (Shortener/Feistel) and the strategies that claim a code (Shortener/Links). The hashes and the
--   test for a blank URL are parameters.
-- - code/hld/two_phase_commit.py, two-phase commit with injected crashes: Participant in TwoPhase,
--   Coordinator in TwoPhase/Coordinator, which holds the registered participants by name.
--   TwoPhase/Atomic has runs, crashes and recoveries as events.
-- - code/hld/matching_engine.py, a limit order book (Matching), its matching (Matching/Match) and the
--   engine with its sequencer (Matching/Engine). Orders are objects kept by number, the number of a
--   new one being how many there are; a heap is a sorted list. The rounds of the outer loop of match
--   are one more than the prices in the heap of the other side.
-- - code/common: the fake clock, sequential identifiers, money and errors (Common; Common/Allocate
--   for its shares), with the test of an empty text that several guards share. Seconds are whole
--   ticks, and an identifier keeps its prefix and its number apart.
--
-- Conventions. A method is a state-passing function that returns a result and the state after the
-- call, the state of a raising call included; an error is the class of the exception, without its
-- message (Common/Error, Common/Action). A dict is the list of its items in insertion order
-- (Dict). A Python int is an integer without bounds (Prelude/Int). Every loop is a recursion on
-- the list it walks, or on the number of rounds that its range names, but for three: the loops of
-- match, above; the loop of encode in Shortener/Codec, which runs on the number that it spells
-- as fuel, and at least halves it in each round; and the decimal digits of an attempt in
-- Shortener/Links, for which a round more than the number is enough, since a round divides by ten.
--
-- Not modelled: locks and threads, each method being one step, so that interleavings are sequences
-- of whole calls; reading and printing of texts and decimals, but for the number of an attempt in a
-- hash seed; the system clock and random identifiers; and the remaining designs of the handbook.
pub mod Prelude
pub mod Dict
pub mod Common
pub mod Kv
pub mod Ledger
pub mod Payments
pub mod Ot
pub mod Fencing
pub mod Idempotency
pub mod Clocks
pub mod Inventory
pub mod Snowflake
pub mod Shortener
pub mod TwoPhase
pub mod Matching
pub mod Tests
