-- ===== src/Tests.antt =====
-- Concrete inputs, and each theorem with hypotheses applied to one of them.
mod Samples
mod Core
mod Manifest
mod Sqlite
mod Graph
mod Symbols
mod Neo4j
mod Rig
mod Embedder
mod Latency
mod Source
mod Retrieval
mod Reranker
mod Vectors
mod Indexer
