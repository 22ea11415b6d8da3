-- ===== src/Lib.antt =====
-- A verification library of drift-sentinel, a Kubernetes admission webhook that compares the old and
-- the new object of an update and denies, warns of or records changes of fields that a rule does not
-- declare mutable.
--
-- The parts, with the code they model (paths from the root of the repository):
-- - Base: what the parts share. Text is a Go string as its code points, with the functions of the
--   package strings that the code uses; Trim has the lemmas on `strings.TrimSpace`; Number is Go's
--   `int`, `strconv.Atoi` and `%d`; Quote is `%q`; Sort is a stable sort by a test of "less"; Assoc is
--   a map as a list of entries; Result is a value with an `error`. Http is a response of a handler and
--   `http.Error`.
-- - Diff, for pkg/diff. Segment: `Segment`, `PathPattern` and the matching of paths (paths.go,
--   diff.go). Value: decoded objects, `valuesEqual`, `cloneValue` (diff.go). Render and Parse:
--   `RenderPath`, `ParsePath`, `ParsePatterns`, `MatchAny` (paths.go). Compare: `Compare` with
--   `compareValue`, `compareMap`, `compareList` (diff.go). Strip and Extract: `Strip` (strip.go) and
--   `Extract` (extract.go). Below Compare, Nodes says what stands at a path and where two objects
--   differ, Reference lists the differences without the traversal, Listing and First connect the two.
--   Children and Cover are about what `Strip` and `Extract` make child by child, and about which paths
--   some pattern covers.
-- - Rules, for pkg/rules. Types: types.go. Store: `Store` with `Replace`, `Snapshot` and `sortRules`
--   (store.go). Matcher: `Match` and its tests (matcher.go) and `Store.Match`. PathMatch: the glob
--   `path.Match` of the standard library, as its documentation has it.
--   Matcher/Priority is about the order of the rules, Matcher/Applies about the tests.
-- - Rules.Config, for pkg/rules/config.go: `ParseConfigMap` and its checks. Config/Line: scalars,
--   comments, indentation and key/value pairs of a line; Config/Lists: inline lists, blocks of texts
--   and blocks of selectors; Config/Spec: the keys, and the loop of `parseRuleSpec`. Print is an
--   independent printer of the block form of the text, with lemmas on its lines, blocks, keys and
--   sections; RoundTrip and Accepts are about parsing its output, Spec/Sound, Lists/Sound and WellFormed
--   about what is parsed.
-- - Rules.Watcher, for pkg/rules/watcher.go: `Start`, the handlers of the informer with
--   `triggerRebuild`, `rebuildRules`, `FromCoreConfigMap`, and `ResolveMode`. Each effect on what is
--   shared (the informer's cache, the flag, the store, the metrics) is one step. System interleaves
--   the steps of `Start`, of the handlers and of the informer in any order; Tracked, Drains, Lost, Past
--   and Rebuilt are about its runs.
-- - Admission, for pkg/admission. Review: the messages, `NewResponse`, `DecodeReview` and
--   `EncodeReview` (review.go). Flow, Object, Scope and Validator: `Validate` and its helpers
--   (validator.go); Object/Removal and Validator/Bypass are about taking the bypass annotation away.
--   Handler: `ServeHTTP` and its helpers (handler.go).
-- - Metrics, for pkg/metrics/metrics.go. Labels: labels, keys of labels and counters; Registry: the
--   registry and its `Record` methods; Render: its text and its response.
-- - Config, for pkg/config: `Load` (config.go), and in Config/Kubernetes the client (kubernetes.go).
-- - Health, for pkg/health/health.go.
-- - Server, for cmd/server/main.go: the three handlers over the shared store and metrics, and `main` with
--   its outcomes. Server/AtRest is about its answers while the controller rests.
-- - Tests: runs, and the theorems at concrete inputs.
--
-- How they interact: the controller writes the rules of the config maps to the store and counts its
-- events in the metrics; `ServeHTTP` decodes the review, asks `Validate`, counts the decision in the
-- metrics and encodes the answer; `validate` decodes the two objects, asks the store for the rule,
-- scopes the objects by `strip` and `extract`, compares them, and meets the texts of the changed paths
-- with the mutable patterns of the rule, so that a path goes through `render_path` and `parse_path` on
-- its way.
--
-- How the code is represented: a map is the list of its entries in some order of iteration, with
-- distinct keys where a theorem says so; a float is its bit pattern; a duration is its nanoseconds; a
-- `return` in `Validate` ends a flow of steps (`Flow`); an error is its message. The methods of the
-- store and of the registry hold their lock for their whole effect, so each is one step. An HTTP
-- handler is the function from its request to its response. The texts are valid UTF-8.
--
-- Fuel: the loop of `ParsePath` runs on the length of its input, of which each round takes at least
-- one character, and the digits of a number on the number. The loops of `parseRuleSpec` and
-- `parseSelectorList` run on the number of their lines, of which each round takes at least one. All
-- other loops are structural recursion.
--
-- Parameters: the tables of the package unicode above ASCII (`Unicode`; letters and digits are no
-- white space), the outcome of `json.Unmarshal` on an object (`Unmarshalled`) and the coding of reviews
-- (`Json`), the operations on `float64` (`Float64`), the answers of the namespace lister
-- (`NamespaceAnswer`), the variables of the process (`Environment`) with the readers of levels and
-- durations (`Readers`), the Kubernetes client library (`ClientLibrary`), `http.ServeMux` (`Mux`), and
-- what `main` waits for: the caches of the informers, the end of the server or a signal, and the
-- shutdown (`Process`).
--
-- Not modelled: the running HTTP server, that is sockets, TLS, signals and the time they take; log
-- lines, but for the errors with which `main` exits; the informer and its listers, but for the events
-- and the cache that the controller sees (the lister reads memory and has no errors, so the branch of
-- `rebuildRules` for one is left out); pkg/certs, which has no code.
pub mod Base
pub mod Diff
pub mod Rules
pub mod Server
pub mod Metrics
pub mod Http
pub mod Health
pub mod Config
pub mod Admission
mod Tests
