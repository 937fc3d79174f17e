-- ===== src/Lib.antt =====
-- Corkscrew scans cloud accounts through provider plugins and stores what it finds. This library
-- models the parts of it that decide what a scan claims to have observed, and the part that
-- unpacks archives from the network.
--
-- Parts and files:
--
-- * Archive models internal/archive. Archive/Types has the limits, the errors and the members of an
--   archive as the readers of the Go standard library deliver them; the bytes of a member, their
--   end with or without an error, and the errors of opening and closing are arbitrary.
--   Archive/Budget models `budget` of archive.go (newBudget, admit, skip, copy, assertBalanced),
--   Archive/Paths models confine, with filepath.Join and filepath.Rel on absolute clean paths as
--   lists of elements. Archive/World models writeEntry, writeAtomic and removeIfExists over an
--   operating system that may refuse any call; every call is recorded in a log. Archive/Walk models
--   walk.go (walk, walkTarGz, walkTar, walkZip, walkZipFiles) and Archive/Extract models
--   ExtractTree, ExtractFile and assertDestination. The children of these files hold the proofs.
-- * ScanErrors models internal/shared/scan_errors.go: the entries that providers put into the error
--   list of a response, and SplitScanErrors.
-- * Paging models internal/shared/paging/paging.go (Paging/Guard) and the loop listPages of
--   plugins/gcp-provider/paging.go, which calls it (Paging/ListPages).
-- * ScanExec models internal/scanexec/executor.go: Scope has scanScope, which calls
--   SplitScanErrors; Pool has dispatchScopes, as the steps its goroutines may take in any order;
--   Collect has collectScopeResults; Dedupe has dedupeResources; Aggregate has aggregateScopes and
--   assertMergedTotal; Execute has the end of Execute and the whole of it over the results that the
--   channel delivers.
-- * Tui models the navigation of the terminal interface: internal/tui/router.go (Tui/Router), the
--   path of internal/tui/components/breadcrumb.go (Tui/Breadcrumb), and what Update of
--   internal/tui/app.go does with a switch of the view and with going back (Tui/App). The views of
--   internal/tui/views are a parameter, the record `Views`.
-- * Drift models compare and changedFields of internal/app/drift/drift.go. The loops over its two
--   maps may go in any order, so compare_entries takes the entries in the order of each loop.
-- * Packs models the loader of pkg/query/compliance/loader.go: Packs/Manifest has findPackManifest,
--   loadSQLFile and manifestToPack, Packs/Load has loadPackInternal, LoadPack, cachePack and
--   isCacheValid, Packs/Cache has NewPackLoader and InvalidateCache, Packs/Validate has
--   ValidateManifest. Packs/FilePath has filepath.Clean, Join and Dir of a Unix. The files, the
--   clock, the YAML parser, the hash and regexp.Compile are the parameter `Env`, fixed during a
--   call. Of pkg/query/compliance/pack.go, Packs/Version has ParseVersion and Compare, Packs/Check
--   has ValidatePack, which the loader calls, Packs/Registry has register, GetPack and
--   getLatestVersion, with the order in which Go visits the map as an argument,
--   Packs/Registry/File has LoadPack of the registry, and Packs/Parameter has ValidateParameter. A
--   compiled pattern is its text, and the rules that a manifest shares with its pack are copied:
--   the loader compiles them again for every pack that it makes of the manifest. Prelude/Float has
--   float64 by its bits; the conversion to an int of what an int cannot hold is that of amd64.
-- * Findings models how internal/app/findings/findings.go records the results of an evaluation.
--   Findings/Tables has what the SQL statements do to the tables `findings` and
--   `finding_occurrences`, Findings/Attempt the transaction, of which the database may refuse any
--   statement, Findings/Record has foldFailingRows and findingFingerprint, Findings/Batches has
--   existingFingerprints, upsertFindings, insertOccurrences and recordResult, and Findings/Results
--   has resolveAbsent and recordResults. A reading of rows that breaks off is a refused statement
--   where the source asks rows.Err(); in resolveAbsent, which does not, it shortens the candidates.
--   Findings/PerRow is the loop row by row that the comments of the source describe, the reference
--   for recordResult.
-- * Cloudflare models two parts of plugins/cloudflare-provider: collectAutoPaging of traversal.go
--   (Cloudflare/Collect), and list.go (Cloudflare/Listing), which hands a cached listing out in
--   pages; Prelude/Decimal has strconv.Atoi and Itoa, by which a page's token is an offset.
-- * Prelude passes on the names that all of these share: lists, Boolean tests, texts as lists of
--   bytes, and `Run`, the result of code whose assertions may fail (internal/assert).
--
-- Modelling choices. An assertion that fails is `panic`, and a theorem that a call is `done` says
-- that none fails. Sums of int32 and int64 statistics wrap. The counters of the budget are numbers,
-- because the limits were validated and each subtraction is guarded; the sum `limit + 1` in copy
-- keeps its wrap-around. An error is the list of what errors.Join puts together, and the words of
-- an error are not modelled. The map of service counts is an association list. A BatchScan call is
-- a function of the number of its scope and of the request, so a provider may answer every call
-- differently.
--
-- Fuel. list_loop of Paging/ListPages takes one unit of fuel for each page; the page limit of the
-- guard is enough, as the theorem on list_pages shows. load_pack_internal of Packs/Load takes one
-- for each level of dependencies; one more than packDepthMax is enough, as the theorem on load_pack
-- shows. The chunks of Findings/Batches take one for each
-- fingerprint, of which a chunk takes at least one. collect_loop of
-- Cloudflare/Collect takes one for each item; the cap and one more is enough, as its theorem shows.
-- The digits of Prelude/Decimal take one for each division, and the number and one more is enough.
-- All other loops recurse on a list.
--
-- Not modelled: durations and deadlines, the delivery of events over an observer that blocks, what
-- tar, zip and gzip readers do with bytes, permissions of files beside the two modes, path syntax
-- of Windows, and the parts of the repository that drive databases, cloud SDKs and terminals.
pub mod Prelude
pub mod Archive
pub mod Cloudflare
pub mod Drift
pub mod Findings
pub mod Packs
pub mod Paging
pub mod ScanErrors
pub mod ScanExec
pub mod Tui
