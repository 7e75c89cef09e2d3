-- ===== src/Lib.antt =====
-- codesoul indexes a repository into a graph of its code and a table of vectors, and answers
-- queries from both. This library models the parts of it that carry its logic, translated from the
-- TypeScript of packages/, and proves what makes each of them correct.
--
-- The parts and their files:
--
-- Core (packages/core/src): Core.Ids models ids.ts (stableId, contentId, edgeContentHash) and
-- Core.Normalize its normalizers; Core.Schema and Core.Enums are the schemas of schema/, each as a
-- record and the Boolean test of its constraints; Core.Errors has the classes of errors.ts and the
-- result of an awaited call: `ok` for a fulfilled promise, `raise` for one that is rejected.
--
-- Manifest (packages/manifest-store/src/memory.ts and transitions.ts): the state of
-- InMemoryManifestStore is the record ManifestStore, and each method a function from the state to
-- its result and the next state (recordBatch is record_batch, and so on). Manifest.Audit reads the
-- event trail of a batch independently of the stored manifests.
--
-- Sqlite (packages/manifest-store/src/sqlite.ts and schema.ts): the manifest store behind SQLite.
-- The record Tables has the rows of the three tables, and each method is a function on it with the
-- suffix _sql (recordBatch is record_batch_sql, and so on). Sqlite.View maps the tables to the
-- state of the in-memory store, Sqlite.Rows has what holds of any table with a key, and the other
-- files take the methods one by one: Batches, Transitions, Ingestions, then Refines, Reads and
-- Listing.
--
-- Graph (packages/graph-store/src/mock.ts): MockGraphStore, with the breadth-first traversal of
-- neighbors. Graph.Rounds says independently what can be reached in a number of steps, and
-- Graph.Filters what an optional filter asks of a record.
--
-- Neo4j (packages/graph-store-neo4j/src): the graph store behind Neo4j, with the migrations of its
-- first write; its methods carry the suffix _neo4j. Neo4j.Mapping has the properties of nodes and
-- edges (cypher-mapping.ts). Neo4j.Represents says when a database stands for the state of the
-- in-memory store; Queries has what the query of a layer returns, Layers and Records read its answer,
-- whatever the order, as the hits that Graph.Rounds asks for, and Neighbors and Writes draw the conclusions.
--
-- Rig (packages/rig/src/dispatcher.ts): the merge of the architecture graphs of the extractors and
-- the dispatcher over them. Materialize (packages/indexer/src/rig-materialize.ts) turns such a
-- graph into nodes and edges.
--
-- Embedder (packages/embedder, packages/embedder-http/src): the HTTP embedder and the wrapper that
-- falls back to another embedder.
--
-- Reranker (packages/reranker, packages/reranker-http/src): the HTTP reranker, the wrapper that
-- falls back to another reranker, and the mock.
--
-- Retrieval (packages/retrieval/src/pipeline.ts): the pipeline from a query to the bundle of
-- snippets, over the interfaces of the stores, the embedder, the reranker and the source provider.
--
-- Indexer (packages/indexer/src/mock-fixture.ts and build-batch.ts): the write of a batch, which
-- records it in the manifest store before it touches the other stores, and settles it afterwards;
-- and the batch that buildBatch makes of the parsed files.
--
-- Vectors (packages/vector-store/src/mock.ts): MockVectorStore, with its upsert, its search by the
-- cosine (Vectors.Search) and its listing.
--
-- Source (packages/core/src/source-provider.ts and token-estimator.ts): the lines of a file that
-- readRange returns, and the estimate of the tokens of a text. Line numbers are natural numbers
-- here, as the evidence of a node has them; the estimate is exact as long as twice the bytes is a
-- number that a double holds exactly.
--
-- Latency (latency-logging-embedder.ts and latency-logging-reranker.ts): the wrappers that log every call,
-- with the lines as part of the result.
--
-- Prelude has what the parts share, and JsMap the Map and the Set of JavaScript with string keys,
-- in insertion order. Tests holds concrete inputs.
--
-- How the code is modelled. A string is the list of its UTF-16 code units. An async method is a
-- function to a Result, with the state of its object before and after where it keeps one; the
-- methods of the stores in memory run without interruption, as they do in the source, since they
-- never await in their bodies. Numbers are natural numbers where the schema asks for integers that
-- are not negative; the floating-point numbers of scores and vectors are a parameter with the
-- operations that the code uses. Promise.all over the reads of the snippets is modelled by its
-- first rejection in list order.
--
-- Parameters. SHA-1 (`sha1`, with the UTF-8 encoding and the hexadecimal digest), zod (`Zod`: parse
-- returns a value that satisfies the schema and throws for any other), fetch with the schema of its
-- response (`Platform`), the file system and node:path (`Files`), localeCompare (`locale_le`), the
-- clock's readings, and the implementations behind the interfaces of the retrieval and of the
-- indexer's other stores. better-sqlite3 (`Engine`) and the Neo4j driver (`Driver`), each by what
-- its documentation says of the statements that the code runs: the engine refuses a primary key
-- that is taken, numbers the events and rolls back a transaction that throws; the driver merges by
-- id, and finds all that matches a pattern, in any order; what the query of a layer returns of a match
-- (`returned`) is written out here. A connection that fails is not part of
-- either. JSON (`Json`) reads back what it has printed of an object whose numbers are finite.
--
-- Where a sort by scores is concerned, the scores are in a total order, as numbers are that are not
-- NaN. The answer of fetch is settled, and so is the body of a response: a body that is neither read to
-- its end nor fails is not modelled, although the HTTP reranker clears its timer before it reads the
-- body. A row of the SQLite table of events with a status that is none of the four, which the
-- store never writes, reads as pending here, where the source passes its text on.
--
-- Loops. The traversal of neighbors recurses on the depth that remains, as the loop of the source
-- counts it, and so does that of the Neo4j store. The removal of block comments in normalizeBody
-- recurses on fuel, of which it gets the length of the text; each step takes at least one unit off.
-- Every other loop is a recursion on a list.
--
-- Not modelled: the store behind LanceDB, the parser over tree-sitter, the extractors of the
-- architecture graphs, the mock embedder, the walk over the directory, the vectors and the manifest
-- counts of the indexer, the configuration, the command line and the Python
-- workers.
pub mod Prelude
pub mod JsMap
pub mod Core
pub mod Manifest
pub mod Sqlite
pub mod Neo4j
pub mod Graph
pub mod Rig
pub mod Materialize
pub mod Embedder
pub mod Latency
pub mod Source
pub mod Retrieval
pub mod Reranker
pub mod Vectors
pub mod Indexer
pub mod Tests
