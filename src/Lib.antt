-- ===== src/Lib.antt =====
-- The verification library of blue: Go packages behind a package registry, a contributor program
-- and their tools.
--
-- The program's parts. Most packages of the repository wrap services: documents, issues, releases,
-- secrets, mail. Its own core is the package contributor, which turns the receipts of a month and
-- the approved awards into entitlements and obligations: awards give accounts credits, a program
-- gives the share of the receipts that is paid out, ComputeRound adds both up and Allocate splits
-- the pool, and VerifyRound recomputes a published round from its statement. Obligations then
-- follow a state machine until they are settled. The ledger reads all of that from document stores,
-- closes one month after the other and carries forward what a month left. The package document is
-- what the rest stores in: a service keeps documents under IDs, and a partition is a service inside
-- another one. The issue tracker numbers reports per package and docrelease keeps releases in
-- chunks, both over a document service. Beside them stand small libraries: ipblock answers whether
-- an address is blocked, retry repeats calls, iterator streams values, upspin holds files, cli
-- reads command lines.
--
-- Files.
--   Prelude: shared operators and lemmas; Prelude/Int the integers over the native numbers,
--     Prelude/Word int64 with its wrap-around, Prelude/Bytes texts as lists of bytes with the order
--     of Go's strings, Prelude/Sort the stable sort of sort.SliceStable and sort.Strings,
--     Prelude/Ascending sorted lists, Prelude/Split texts cut at a byte and decimal numbers.
--   Contributor/Result: errors, panics and the chaining of checks. An error is named for its
--     message.
--   Contributor/Month: contributor/month.go. A Month is its text; MonthStart is the time.Time at
--     the first instant of a month. time.Parse and time.Format are written out for the layout
--     2006-01. Month/Canonical, Month/Order and Month/Shift hold its theorems.
--   Contributor/Program, Award, Receipt, Participant, Round: the types and methods of the files of
--     those names in contributor.
--   Contributor/Obligation: contributor/obligation.go (Transition is transition); Lifecycle holds
--     the step relation and the histories.
--   Contributor/Engine: ActiveCredits (active_credits), PoolShareCents (pool_share_cents) and
--     Allocate (allocate) of contributor/engine.go. A map from accounts to credits is the list of
--     its entries in the order in which range meets them, so that a theorem for all such lists is a
--     theorem for every order. Engine/Shares, Leftover, Holders, Exact and Order count the cents,
--     Ranking and Fair compare entitlements, Allocation and Deterministic hold what Allocate
--     promises, Tally what ActiveCredits does.
--   Contributor/Clock: the calendar that DueDate needs; an instant is its nanoseconds.
--   Contributor/Compute: DueDate (due_date) and ComputeRound (compute_round); Inversion lists what
--     a returned round has passed, Balance follows the cents.
--   Contributor/Verify: VerifyRound (verify_round) of contributor/verify.go; Rebuild and RoundTrip
--     compare it with ComputeRound.
--   Document: the contract of document/service.go (Create, Get, Set, Delete, List), a collection as
--     the list of its documents by ID; Document/Laws its laws, Document/Outcome the errors of
--     document/errors.go and panics.
--   Document/Fields: documents as maps of values, and the preconditions (precond_field), updates
--     (update_field, UpdateProto is update_proto) and filters (match_filter) of
--     document/encoding.go. Fields/Paths follows one path through an update.
--   Document/Service: what the services store, with the stamping of times and Encode (encode) of
--     document/encoding.go, and the operations of a service as a record.
--   Document/InMemory: document/inmemory.go, encoded documents in a map. InMemory/Specified is the
--     same service on documents that are not encoded, InMemory/Refines compares the two, with
--     Related for an answer and Listing for those of List. InMemory/Promised is what is to be made of
--     single documents; Kept, Updated and Filtered compare it with document/encoding.go.
--   Document/Partition: document/partition.go over any service; Partition/Isolation says what a
--     partition relies on.
--   Issue: issue/document_tracker.go. Issue/Format is a report, its ID, its document and its
--     filters; Ids, Numbers, Reports and Filed hold the theorems, on IDs, on the numbers that
--     CreateReport gives out, on listings and on what the storage holds.
--   Release: release/docrelease/document_manager.go (Upload is upload, Get is get). Chunks follows
--     the data into its chunks, RoundTrip compares a download with its upload. Calls are all calls
--     that change the documents, in any order; Intact is about what they leave, with Apart for the
--     IDs that differ and Keeps for the documents that an Upload leaves alone.
--   Cli: cli/parse.go (Parse is parse), with what it uses of the package flag, and RunCommand and
--     ParseAndRunCommand of cli/cli.go. Options is about command lines as they are written.
--   Contributor/Store: contributor/document_store.go, each store over a collection of its own. The
--     calls of the document service that fail are a parameter. Store/Effective is about ProgramFor.
--   Contributor/Ledger: contributor/ledger.go, a method as a function of the books of all stores.
--     Ledger/Reads compares reads under failing calls with reads under none, Retry is about closing
--     again after a failure, with Ledger/Obligations for the obligations it stores, Commit lists
--     what a close has stored, Chain follows the closed months, with Month/Succession for the order
--     of months, Conserved follows their money, and Gaps is about months closed out of order.
--   Contributor/Admin: contributor/admin.go. Admin/Imports, Admin/Decisions and Admin/Proposals
--     hold its theorems.
--   Ipblock: the package ipblock. Address is what it uses of net/netip, with canonical and
--     canonicalAddr; BlockSet is set.go with the Block of ipblock.go, Memory is memory.go,
--     DocumentList is document.go and Cache is cache.go, as the steps that its lock keeps apart.
--     Covering is about prefixes, BlockSet/Lengths, BlockSet/Index and BlockSet/Narrowest about
--     lookup, Memory/Maps, Memory/Refinement and Memory/Answers compare the memory list with a map
--     from prefixes to blocks, DocumentList/Canonical and DocumentList/Agreement the list over
--     documents with the one in memory; Cache/Loads follows the loads of a cache and Cache/Copies,
--     with Cache/Listing, compares a copy with its source.
--   Retry: retry/retry.go, the strategies and the loop of Retry (retry). The function, the context
--     and multierror.Append are parameters. Retry/Backoff is about the sleeps, Retry/Attempts about
--     the number of calls.
--   Upspin/File: upspin/file.go. The client is a parameter: what it answers is an argument. A slice
--     is its bytes and the spare bytes of its array. Contents, Bounds and Closed hold the theorems.
--   Iterator: the package iterator: iterator.go, utils.go (ToSlice, FromSlice, FromFunc), map.go,
--     reduce.go, aggregate.go and error.go; Iterator/Skipping is filter.go, unslice.go and IsEmpty
--     of utils.go. An iterator is its state and its methods. Aggregate is of iterators of one kind;
--     multierror.Append is a parameter. Iterator/Streams relates iterators to lists.
--   Contributor/Examples, Contributor/Ledger/Examples, Contributor/Admin/Examples,
--     Ipblock/Examples, Ipblock/DocumentList/Examples, Retry/Examples, Upspin/Examples,
--     Iterator/Examples, Document/Examples, Issue/Examples, Release/Examples, Cli/Examples: runs,
--     and the theorems at concrete inputs.
--
-- Bounds. int64 and int are 64 bits wide and wrap around; the products of Allocate and
-- PoolShareCents are exact, as in math/big. The sums of credits are not checked by the code, so
-- the theorems ask that they fit an int64. Most loops are structural. decimal runs on fuel, the
-- number that it prints, which has no more digits than its value. CreateReport makes its attempts
-- on the limit of its strategy, a thousand. retry runs on a number of calls of the function, which
-- Retry/Attempts bounds by the limit of the strategy; to_slice and reduce run on a number of calls
-- of Next, of which to_slice needs one more than there are elements, as do the calls of a filter
-- and of unslice, whose loops have such a number too. A file is below 2^61 bytes where a theorem
-- says so, the last issue number is a thousand below 2^63, and Month.Add is by fewer than 2^40
-- months, for which time.Date does not wrap around. The offsets that Truncate compares are below
-- 2^53, where its float64 is exact.
--
-- Not modelled. The fields CreatedAt and UpdatedAt, which the document store sets, are left out of
-- the documents of contributor. So are the adapters of iterator, and File.Sync of upspin/file.go,
-- which beyond sync only waits for the client. A time of ipblock is no earlier than the zero time.
-- The texts that net/netip prints and reads are parameters, and so are the marshaler of a document
-- service and the comparisons of its filters. A receiver of Get is a pointer to a map, a call of a
-- service reads the clock once, and in the issue tracker no context ends and the document service
-- fails only as its contract says. Text is in ASCII where letters are raised or lowered, the
-- numbers in a document are of one Go type, and none of its values is a slice. A writer of a
-- release takes every write, and the filters of its lists are left out. ConsistentUpdate and the
-- locks of document/sync.go are about documents that others change between two calls, which a
-- collection does not show. The other packages, which mostly wrap services, are not modelled.
mod Prelude
pub mod Contributor
pub mod Document
pub mod Issue
pub mod Release
pub mod Cli
pub mod Ipblock
pub mod Upspin
pub mod Iterator
pub mod Retry
