-- ===== src/Lib.antt =====
-- Verification of ralph-autopilot, a daemon that takes labelled GitHub issues, runs coding agents
-- on them in containers, reviews and merges what they did, and escalates to a stronger "master"
-- model or to a human where they fail.
--
-- Parts and files. Paths of the program are from the repository's root.
--
-- - Store: src/store. Every fact about an issue is an event on the issue's stream. `EventTypes` are
--   the events (src/store/events/event-types.ts), `Decider` the commands and the fold of one event
--   (`evolve`, `decide` of decider.ts), `Streams` the stream ids (streams.ts), `Projection` the
--   read model: `foldIssueState`, the columns of its row and their decode (projection.ts), and
--   `handle`, which src/store/event-log.ts runs inside the transaction of an append
--   (`createIssueProjection`). `Types` are the vocabulary of src/store/types.ts.
-- - Github: `Blocked` is `parseBlockedBy` of src/github/blocked.ts, with its three regular
--   expressions written as scanners over code units: `heading`, `list_item`, `issue_ref`.
-- - Core: `Labels` is src/core/labels.ts. `Admission` is src/core/admission.ts: `Gate` has the label
--   gate, the dependency cache and the two finishers (`gate_one`, `evaluate_gate`), `Admission`
--   itself the scheduling order and `admit`. It reads the labels, the blocked-by section of a body,
--   and the status of a run from Store. `Moding` is the candidate selection of src/core/moding.ts,
--   a client of the gate.
-- - Daemon: `Completeness` is the classifier of src/daemon/completeness.ts, a client of Core for
--   which statuses still hold an issue.
-- - Master: `History` is the fold of src/master/history.ts over the raw stream of an issue, `Budget`
--   is src/master/budget.ts with the part of src/master/engine.ts that chooses the attempt of a
--   session, `Queue` and `Lease` are src/master/queue.ts and lease.ts.
-- - Ledger: `Fold` is `foldDecisionLedger` of src/ledger/fold.ts, over the references of
--   src/github/ref.ts (`Github.Ref`); `Groups` is the `Map` that it fills.
-- - Review: `Phase` is src/review/phase.ts, the labels of an agent's phase. `Worklist` is
--   src/review/worklist.ts, with its consolidation in `dedupe_worklist`.
-- - Review.Hosted: the gate on the conversations of the reviewer that GitHub hosts. `Hosted` and
--   `Threads` are the reading of threads into a worklist (src/review/hosted-review.ts, to
--   `buildHostedWorklist`), `Block` is `classifyMergeBlock` there, `Gate` is the disposition of a
--   finding with the record that a restart reads and what may come of each write, and `Observe` the
--   wait for the reviewer (src/review/hosted-gate.ts).
-- - Review.Loop: src/review/review-loop.ts. `Loop` has the outcomes and the steps, `Fix` is
--   `boundedFixLoop` with `degradeContainerFault`, `Phases` the gate of the checks, the two phases and
--   `settle`, `Sync` is `syncWithBase` with the resolution of conflicts and `runReview`, `Merge` is
--   `awaitMergeable`, `runIntegration` and `run`, `Drive` the fix lane of the hosted gate with its
--   consultations (`Consult`), what the lane writes (`Answers`, `Disposed`) and the loop with them in
--   place (`Wired`). It reads the worklist of a review and the states of a merge from the other two.
-- - Usage: src/core/usage.ts. `Usage` has the picture of a login and its gate, `Reset` is
--   `soonestReset`, `Rotation` is `pickActiveToken`; `Cooldown` and `Gate` describe the two levers.
-- - Providers: `Providers` is src/providers/select.ts, `Route` src/providers/resolve.ts, `Master`
--   src/master/route.ts, over the routing blocks of src/config/schema.ts.
-- - Notify: src/notify/decide.ts, which events of a committed batch page the operator.
-- - Guardrails: the shell commands that are refused to an agent, src/executor/git-guardrails.ts, and
--   with `Master` to a master, src/master/guardrails.ts; `Chain` and `Parts` are about chains.
-- - Common: lists, texts, sorting, comparators, decimals and JSON values, as the program uses them.
-- - Examples: runs of the definitions, and each theorem at a concrete input.
--
-- Correspondence. Functions and fields keep the program's names in snake case; a string union is a
-- data type; `null` and `undefined` are `none`. A string that the code walks or orders is the list
-- of its code units (`Text`), one that it only compares is a native string. State that a closure or
-- a loop mutates is an explicit record that is passed on: the cache and the call log of
-- `createDepCache` (`DepCache`), the loop of `admit` (`AdmitState`), the lease and its handles. A
-- reference into a list (`inProgress` of the master history) is a copy, found again by its attempt
-- number and phase.
--
-- The steps of the review loop stand as the fields of `LoopDeps`, each a function of the world that
-- returns a result or a fault with the world behind it (`Act`): a fault keeps what was done before
-- it, as an exception does. `HostedDeps` has those of the fix lane, over the record of the gate, and
-- `wired` gives the loop the consultations themselves. A write of the gate to GitHub and its record
-- are two steps: `WriteOutcome` says whether both, neither or the write alone came about, so a fault
-- and a stop of the process may fall between any two of them. The account that a route asks for
-- (`acquire_account`), the lower case and the digest of `Platform`, and the folding of a title are
-- parameters.
--
-- What GitHub answers about a dependency is a parameter, `Port`: a function of the number of the
-- call and of the issue, so the answer may change from one call to the next.
--
-- Bounds. Most loops of the modelled code run over a list and are structural recursion. The loop of
-- fixes runs on as many turns as its attempts and retries allow and one more, the sync on the three
-- rounds of the code, the conflict fix on the retries, the waits on their polls. The integration
-- loop is bounded in the code by the clock alone; its fuel stands for the clock and its end is a
-- fault. The number printer `decimal` runs on fuel n + 1, which is enough since a division by ten
-- decreases a positive number (`Common.Decimal`). Numbers are natural numbers without an upper bound;
-- the program's are exact below 2 ^ 53, and the numbers here are issue numbers, counts and positions.
-- `Array.prototype.sort` is stable and is insertion here, which gives the same list for a comparator
-- that is a total preorder.
--
-- Not modelled. A dependency lookup that throws (it ends the pass with no plan). JSON texts are what
-- `JSON.parse` makes of them. An event type of a later version is `unknown`, a status outside the
-- union is `unrecognised`. Sessions, containers, git, the GitHub client, the texts of worklists and
-- escalations, aborts, the reconciler's effects, configuration, the delivery of notifications and the
-- web console are input and output around these decisions.
pub mod Common
pub mod Store
pub mod Github
pub mod Core
pub mod Daemon
pub mod Master
pub mod Ledger
pub mod Review
pub mod Providers
pub mod Usage
pub mod Notify
pub mod Guardrails
mod Examples
