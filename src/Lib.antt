-- ===== src/Lib.antt =====
-- Verification of the commercial automation of afiliado-shopee: sending Shopee offers to WhatsApp
-- groups.
--
-- The program. An API (apps/api) decides when the automation may send and to which group, claims a
-- dispatch for one message and stores what becomes of it; a worker sends the message and reports
-- delivery events, which finalize the pipeline run and the manual publication that asked for it.
-- PostgreSQL holds the state, so each operation is a sequence of reads and conditional updates
-- between which other processes write.
--
-- The parts and their files:
--   Dispatch (Row, Store, Writes): `PrismaWhatsAppDispatchRepository` of
--     apps/api/src/prisma-repositories.ts with `deliveryStage`, `eventAlreadySatisfied` and
--     `eventBlockedByTerminalState`. A table is a list of rows. `applyDeliveryEvent` is
--     `apply_delivery_event`, its loop `apply_to_row`, one round `attempt`; `markAttemptPending`,
--     `claimPendingForSending`, `markSubmitted`, `expireSubmittedConfirmations` and `markFailed`
--     keep their names.
--   Run: `finalizeByDispatchId`, `resolveFinalizationKind`, `isFinalizationPersisted` of the same
--     file.
--   Publication: apps/api/src/manual-publication-lifecycle-finalizer.ts, which projects a manual
--     publication from the run, the dispatch and the outbox.
--   Instance: apps/api/src/commercial-instance-stickiness.ts.
--   Group: apps/api/src/commercial-group-selection.ts,
--     apps/api/src/whatsapp-group-send-policy.ts and
--     packages/providers/src/whatsapp-group-directory.ts. It uses Instance for the assignment of a
--     group.
--   Schedule (Clock, Windows, Opening, Days, Updates, WellFormed, Pause) and Policy: the schedule and the status of
--     apps/api/src/commercial-automation-policy-service.ts, with `updateSchedule` and `setPaused` of
--     apps/api/src/prisma-repositories.ts. Policy uses Schedule for the windows.
--   Planner (Target, Rounds, Slots): `planCommercialTargetSlots` of
--     apps/api/src/commercial-automation-scheduler-planner.ts, which plans the slots of a day for the
--     targets. `targetStates` is `target_states`, the `while` loop `plan_rounds`, the `for` loop
--     `visit_all`, its body `visit`; `findNextGridSlot` and `findNextValidSlot` keep their names. Grid,
--     Valid, Started, Kept, Spacing, Bounds, Limits and Ends have the lemmas, Promises what holds of a
--     plan. It uses Schedule for the windows and the day.
--   Execution (Table, Start): `PrismaCommercialAutomationExecutionRepository` of
--     apps/api/src/prisma-repositories.ts and
--     apps/api/src/commercial-automation-execution-domain.ts: `start`, `createBlocked`, `heartbeat`,
--     `markExternalMayHaveStarted`, `finish`, `markQueuedAmbiguous` and `recoverStale`. Transactions
--     has what `recoverSafePreExternalFailure`, `recoverStalePreMarkerReservation`,
--     `recoverStalePreConfirmationReservation`, `reconcileSafePreProviderAmbiguity` and the handoff
--     of a prepared message write to the same table. Steps has all of these, the whole of the writes
--     to the table, as a step relation; Unique and Machine say what each step keeps.
--   Recovery (Identity): `validateStickyIdentity` and `classify` of
--     apps/api/src/commercial-automation-execution-recovery-service.ts, and the end of `recover`, which
--     writes the decision with `recover_stale` of Execution. It uses Instance for the identity.
--   Outbox: `markPublished` and `markAmbiguous` of `PrismaCommercialDispatchOutboxRepository` in
--     apps/api/src/prisma-repositories.ts.
--   Prelude: shared tests, lists, text, results and lemmas. Examples: concrete inputs.
--
-- How state is modelled. A guarded write of a dispatch or a run is a function on a `World`, the row and the number
-- of database calls so far; `env k` is what the other processes do to the row before call `k`. The table of
-- executions is a list of rows, which each call changes alone: a unique value that is taken is an error
-- of `create`, and a transaction conflict is left out. A transaction that writes other tables too reads
-- the execution first and commits where its write changes one row, else it leaves the table. A
-- thrown `AppError` is `err` with its code, a nullable column an `Option`, a field that may also be
-- undefined a `Nullish`, and a property of which the source asks whether it is there a `Property`. An instant is a number of milliseconds since 1970, a text a list of UTF-16
-- code units.
--
-- Bounds and fuel. The loop of `apply_to_row` takes the attempts left as fuel, 3 in the source; that
-- of `finalize_attempts` 2; the search for an opening 72 * 60 minutes. All three are the bounds of
-- the source, so no run is cut short by the model. The two loops of `get_local_day_range` have none
-- in the source: 9 steps of six hours leave a day of at most 48 hours, and 25 halvings bisect six
-- hours of milliseconds.
-- The loops of `find_next_valid_slot` and `find_next_grid_slot` take the 2880 attempts of the source.
-- `plan_rounds` has no bound in the source: each round that goes on takes a slot from some target, so
-- one round more than there are slots left is enough.
--
-- Parameters. `Intl.DateTimeFormat` is `zoned` (the local parts of an instant) and `known_timezone`;
-- SHA-256 is `sha256_hex`, and the planner's `Runtime` has it
-- with `localeCompare` and `toISOString`. The `cuid()` of a new execution is an
-- argument, and so are the answers of the queue to the recovery, which asks it twice. The one hypothesis about them says where the local day around an instant
-- begins and ends. `zoned` answers for every time zone: that `getFormatter` throws on an unknown one is
-- left out.
--
-- Not modelled: the inbox of pending delivery events, the scheduling
-- service around the planner, the guards of the recoveries of an execution before its external marker and their
-- writes to other tables, the
-- orchestrator, the publisher of the outbox, copy and mining services, the HTTP routes, the worker's
-- wiring, the system supervisor, the dashboard and the database schema. `number` reads numerals
-- other than digits as NaN, and `split` and `trim` are written out.
pub mod Dispatch
pub mod Examples
pub mod Execution
pub mod Group
pub mod Instance
pub mod Outbox
pub mod Planner
pub mod Policy
pub mod Prelude
pub mod Publication
pub mod Recovery
pub mod Run
pub mod Schedule
