-- ===== src/Lib.antt =====
-- SwiftProof reviews a change of a program: it runs tests on the baseline and on the candidate,
-- records what it ran as checks and evidence, and turns the record into a report. This library
-- models the part that decides what the report may conclude, two of its readers (the queries of the
-- knowledge graph and the coverage profiles), and the logins and tokens of the hub.
--
-- Model (app/internal/model) has the records: Model the checks, evidence, hypotheses, signals,
-- Model/Change the change and the plan contract, Model/Report the report, Model/Status and
-- Model/Kind the constants. Severity and Texts have the shared tests on texts.
-- Ledger is the ledger of app/internal/report/verify.go: `new_ledger` indexes the records,
-- `admit`, `reject`, `merge_owned` let verified statuses in, `apply_masks` takes some out.
-- Verify is `verifyReport` with the core verifier; Support is the table of accepted pairs,
-- `supports`, the criterion index and `normalizeIntentLink`.
-- Assessments is app/internal/report/assessments.go, Drift and DriftSignals are
-- app/internal/plan/drift.go, Gate is
-- app/internal/report/plandrift.go, Categories is `Categorize` of app/internal/plan/evaluate.go,
-- and Conclude is `Finalize` and `conclude` of
-- app/internal/report/report.go, which call all of these in the source's order.
-- Divergences is `selectDivergences` and `linkDivergences` of app/internal/report/verify.go.
-- TestLog has two readers of go test logs: app/internal/mutation/events.go and `GoTestOutcome` of
-- app/internal/harness/existingtests.go; the line scanner and the JSON decoder are its interface
-- `LogReader`.
-- Classify is `validateControl` and `Classify` of app/internal/mutation/events.go.
-- Limiter is the window limiter of hub/internal/server/ratelimit.go, with the order in which Go
-- visits a map as the interface `MapOrder`.
-- UserCode, Devices and LoginApi are hub/internal/server/device.go: the codes that a user types,
-- the pending logins `deviceFlows` with `start`, `sweep`, `pending`, `decide` and `poll`, and the
-- handlers; Devices/Runs has the histories of logins and Devices/Refines the phases that a caller
-- sees. Tokens and TokenApi are hub/internal/server/tokens.go: `issue_agent_token`,
-- `authenticate_agent` and the handlers that create and revoke tokens. LoginApi calls Devices,
-- Tokens and Limiter. Random answers, hashes, the clock and the caller that `require` finds are
-- arguments, and the store is an association list of accounts.
-- Graph is app/internal/graph/query.go: `NewView` and the search of `Path`, whose outer loop has
-- fuel 12, the source's bound, and whose loop back has the same, which is enough. Neighbors is
-- `Neighbors` of the same file.
-- Profile, Lcov and GoProfile are app/internal/coverage/profile.go and lcov.go: the blocks and
-- their numbers, with additions of counts that wrap around at 2^64, `ParseLCOV`, and `ParseGoProfile` with `Parse`. Words is strings.Fields and
-- strings.Join.
-- Examples has one small report, concrete components and the tests.
--
-- Maps with text keys are association lists; an iteration that Go leaves unordered runs in the
-- order of the list. A call that changes a report returns the changed report. All recursion is
-- structural; only the search of Graph has fuel.
--
-- Components that the modelled code calls are interfaces, records that the definitions take as
-- arguments. `Verifiers` has the verifiers of the other evidence kinds, the masks, the reader of
-- test logs, the redaction. `PathRules` and `Plans` have the path tests and the merge of
-- signals. `Sections` has the two feeds of divergence candidates, the
-- answers of the section finalizers, and the text of a note. The theorems hold for every value of them that keeps their
-- laws: `validate_execution` keeps the cache record of a check, and a log line that decodes into
-- the larger event structure decodes into the smaller one with the same fields, and a
-- visit of a map yields entries of it, and one at least if it has one.
--
-- Not modelled: the rendering of reports, the review targets, the execution of tests, git, the
-- language models, the web interface, the forges and the files of the hub, which are I/O around this. Case
-- mapping of texts is that of ASCII.
pub mod Prelude
pub mod Texts
pub mod Model
pub mod Severity
pub mod Ledger
pub mod UserCode
pub mod Words
pub mod Devices
pub mod Tokens
pub mod LoginApi
pub mod TokenApi
pub mod Verify
pub mod Support
pub mod Assessments
pub mod Drift
pub mod DriftSignals
pub mod Gate
pub mod Categories
pub mod Divergences
pub mod TestLog
pub mod Classify
pub mod Conclude
pub mod Limiter
pub mod Graph
pub mod Neighbors
pub mod Profile
pub mod Lcov
pub mod GoProfile
pub mod Examples
