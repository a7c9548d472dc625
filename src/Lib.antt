-- ===== src/Lib.antt =====
-- Defiant FleetOps: the server's authority over Assets, as models with theorems.
--
-- The server keeps physical Assets for many organizations. PostgreSQL functions, which the Alembic
-- migrations under server/alembic/ create, are the only writers of an Asset's state; the Python
-- services under server/fleetops/ decide what is asked of them. A failure of any statement ends the
-- request's transaction, so an operation here is a function to a Result whose error has no state.
--
-- The parts, and the files that model them:
--
--   Base, Text        shared names, Boolean tests, lists, the failures; texts as code points, with
--                     btrim and normalize_correction_reason.
--   Lifecycle         server/fleetops/domain/lifecycle.py: states, LIFECYCLE, validate_edge.
--   History           a row of the five history tables, the views effective_<history> of
--                     server/alembic/versions/0011_corrections.py, and the latest row.
--   Ledger            one Asset with its histories. Transition, Physical and Assignment are the SQL
--                     functions transition_asset, move_asset, change_custody, change_ownership,
--                     assign_asset and unassign_asset of versions 0006, 0007 and 0008, as 0011 and 0012
--                     adapt them; Creation is the rows that create_received_unit (0010) writes;
--                     Anomalies and Authority are asset_correction_anomalies and
--                     assert_asset_correction_authority; Correction is the template of the five
--                     correct_* functions and Corrections its five instances. Invariant, Table,
--                     Extension, Pair, Coherence and Reachable carry the invariant of the whole.
--   Evidence          server/alembic/versions/0012_evidence.py, server/fleetops/evidence/storage.py
--                     (Storage) and the verification in evidence/service.py (Service).
--   Assets            server/fleetops/domain/assets.py, and asset_facts.py with assignments.py (Facts).
--   Reconcile         RECONCILIATION_SQL and reconcile_assets of server/fleetops/domain/asset_facts.py.
--   Corrections       server/fleetops/domain/corrections.py: the correction services in front of the
--                     SQL functions, the lifecycle issues of corrected edges, and audit_rows.
--   Capture           server/fleetops/capture/service.py: Order, Batch, Sequence, Facts, Apply and Process.
--   Receiving         the classification of server/fleetops/domain/receiving.py against the triggers of
--                     server/alembic/versions/0010_receiving.py (Agreement); its tables (Books) and guards
--                     (Guards, Units); the services (Service) and their transactions (Recording). Entries,
--                     Made and Performed take an operation apart; Recorded is about sequences
--                     of them.
--   Exceptions        server/fleetops/domain/exception_workflow.py with the SQL function of
--                     server/alembic/correction_records_0011.py.
--   Space             server/fleetops/domain/space.py with the tables and the guard of
--                     server/alembic/versions/0004_space.py and 0005_space_cycle_guard.py. Ancestry, Chains
--                     and Path are about the walk to the root, Insertion about the guard.
--   Procurement       the tables and guards of server/alembic/versions/0009_procurement.py, with the
--                     services of server/fleetops/domain/procurement.py (Services, Listing). Lineage says
--                     what a stored lineage is; Steps, Changes, Invariant, Issued and Current are about
--                     sequences of operations, and the children of Listing about list_lines.
--   Labels            the tables and guards of server/alembic/label_schema_0013.py and
--                     server/alembic/versions/0013_labels.py, with server/fleetops/labels/service.py (Service)
--                     and the directory of artifacts of server/fleetops/labels/adapters (Store). Added and Batch
--                     are about the queue, Publication about the directory; Steps, Changes, Attempts, Later,
--                     Backed and Delivered are about sequences of operations.
--   Tests             the theorems at concrete inputs.
--
-- How they interact: Capture calls Assets, which checks Lifecycle and Evidence and calls the functions of
-- Ledger; Reconcile reads what Ledger leaves. Receiving creates Ledgers and its exceptions have their
-- status from Exceptions.
--
-- What the models take as given: the rows of one organization, as row-level security shows them;
-- one Asset's tables in a Ledger, newest row first, though no query depends on that order; UUIDs
-- and times as numbers; identifiers that the server generates as arguments; the Actor to which
-- current_authenticated_actor resolves the credential in the Session. Versions are bounded by the
-- integer column (int_max), and an operation that would exceed it fails. hashlib.sha256 is a
-- parameter of the storages; the rendering of a label and its encoding are parameters of Labels,
-- and what the file system refuses of an artifact is an argument of each call. Receiving reads
-- order lines, Items, Parties and Locations from a catalog that may change between operations. Row
-- and advisory locks make each operation atomic, so interleavings are sequences of whole
-- operations. The two recursive queries on locations and the loop of list_lines run on fuel, one
-- unit for each row and one more, which is proved to be enough for any table; every other recursion
-- is on a list.
--
-- Not modelled: the deferred triggers that check correction pairs at commit, the descriptive
-- columns, notes, the reading of a receipt, configurations, effective_events, record corrections,
-- authentication, the HTTP layer and the web client. In Capture the verbs RECEIVE_SCAN,
-- ATTACH_EVIDENCE and RESOLVE are an interface (Unversioned). Reconcile lists the discrepancies of
-- one class after another, and an Asset's correction pairs that name another Asset are outside a
-- Ledger.
pub mod Base
pub mod Text
pub mod Lifecycle
pub mod Evidence
pub mod Assets
pub mod Corrections
pub mod Capture
pub mod Reconcile
pub mod Receiving
pub mod Exceptions
pub mod Space
pub mod Procurement
pub mod Tests
pub mod History
pub mod Labels
pub mod Ledger
