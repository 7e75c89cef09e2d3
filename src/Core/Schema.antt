-- ===== src/Core/Schema.antt =====
-- packages/core/src/schema: the persisted records, each with the test of its schema's
-- constraints. What a TypeScript type fixes already (a number that is an integer at least 0, a
-- member of an enumeration) is the type of the field here and needs no test.
use codesoul.Prelude.{
  ℤ, ℕ, Text, Bool, true, ◌&&◌, not, Option, none, some, List, is_empty, leb, nat_eq,
}
use codesoul.Core.Enums.{BatchStatus, EdgeType, NodeKind, Language}
use codesoul.Core.Ids.{is_sym_id, is_content_hash}
use codesoul.Core.Zod.{Zod}

abbrev pub schema_version : ℕ
schema_version = 1

abbrev pub embedding_dim : ℕ
embedding_dim = 1024

-- `z.string().min(1)`
abbrev pub is_full : Text → Bool
is_full s = not (is_empty s)

-- The fields that every persisted record carries.
pub record PersistedMeta : Type 0 where
  pub repo_id : Text
  pub index_run_id : Text
  pub batch_id : Text
  pub source_path : Text
  pub content_hash : Text
  pub version : ℕ

unfoldable pub is_meta : PersistedMeta → Bool
is_meta m =
    is_full m.repo_id
    && is_full m.index_run_id
    && is_full m.batch_id
    && is_full m.source_path
    && is_content_hash m.content_hash
    && nat_eq m.version schema_version

pub record Evidence : Type 0 where
  pub start_line : ℕ
  pub end_line : ℕ

unfoldable pub is_evidence : Evidence → Bool
is_evidence e = leb 1 e.start_line && leb 1 e.end_line && leb e.start_line e.end_line

pub record GraphNode : Type 0 where
  pub meta : PersistedMeta
  pub open meta use *
  pub id : Text
  pub path : Text
  pub kind : NodeKind
  pub language : Language
  pub qualified_name : Text
  pub signature : Text
  pub evidence : Evidence

unfoldable pub is_graph_node : GraphNode → Bool
is_graph_node n =
    is_meta n.meta
    && is_sym_id n.id
    && is_full n.path
    && is_full n.qualified_name
    && is_evidence n.evidence

-- A value of the optional `attributes`; a number stands by its printed form.
pub data Attribute : Type 0 where
  string_attribute : Text → Attribute
  number_attribute : Text → Attribute
  boolean_attribute : Bool → Attribute

pub record GraphEdge : Type 0 where
  pub meta : PersistedMeta
  pub open meta use *
  pub src : Text
  pub dst : Text
  pub type : EdgeType
  pub attributes : Option (List (Text × Attribute))

unfoldable pub is_graph_edge : GraphEdge → Bool
is_graph_edge e = is_meta e.meta && is_sym_id e.src && is_sym_id e.dst

pub record BatchManifest : Type 0 where
  pub batch_id : Text
  pub index_run_id : Text
  pub repo_id : Text
  pub source_path : Text
  pub source_content_hash : Text
  pub status : BatchStatus
  pub node_count : ℕ
  pub edge_count : ℕ
  pub vector_count : ℕ
  pub created_at : Text
  pub committed_at : Option Text
  pub checksum : Text
  pub version : ℕ

pub record IngestionManifest : Type 0 where
  pub index_run_id : Text
  pub repo_id : Text
  pub started_at : Text
  pub finished_at : Option Text
  pub embedding_model : Text
  pub embedding_revision : Text
  pub dim : ℤ
  pub reranker_model : Option Text
  pub reranker_revision : Option Text
  pub tokenizer_version : Text
  pub version : ℕ

module _ (zod : Zod) where
  -- `z.string().datetime().nullable()`
  abbrev pub is_nullable_datetime : Option Text → Bool
  is_nullable_datetime none = true
  is_nullable_datetime (some t) = zod.is_datetime t

  unfoldable pub is_batch_manifest : BatchManifest → Bool
  is_batch_manifest m =
      is_content_hash m.source_content_hash
      && zod.is_datetime m.created_at
      && is_nullable_datetime m.committed_at
      && nat_eq m.version schema_version

  unfoldable pub is_ingestion_manifest : IngestionManifest → Bool
  is_ingestion_manifest m =
      zod.is_datetime m.started_at
      && is_nullable_datetime m.finished_at
      && nat_eq m.version schema_version
