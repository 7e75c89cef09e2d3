-- ===== src/Tests/Samples.antt =====
-- The data that the tests share.
use codesoul.Prelude.{Text, codes, true, none, List, [], ◌∷◌, refl, if◌then◌else◌}
use codesoul.Core.Errors.{ok, raise, zod_error}
use codesoul.Core.Zod.{Zod}
use codesoul.Core.Enums.{BatchStatus, pending, committed, failed, calls, function_kind, typescript}
use codesoul.Core.Schema.{PersistedMeta, GraphNode, GraphEdge, BatchManifest}
use codesoul.Graph.{GraphStore, empty_graph, upsert_nodes, upsert_edges}
use codesoul.Manifest.Audit.{Op, record_op, transition_op}

abbrev pub zod_of_checks : Zod
zod_of_checks = record {
  parse = λ A check a. if check a then ok a else raise (zod_error []);
  is_datetime = λ t. true;
  accepts = λ A check a h. rw h refl;
  rejects = λ A check a h. ([], rw h refl);
}

abbrev pub hex_a : Text
hex_a = codes "da39a3ee5e6b4b0d3255bfef95601890afd80709"

abbrev pub hex_b : Text
hex_b = codes "0a4d55a8d778e5022fab701977c5d840bbc486d0"

abbrev pub sym_a : Text
sym_a = codes "sym_da39a3ee5e6b4b0d3255bfef95601890afd80709"

abbrev pub sym_b : Text
sym_b = codes "sym_0a4d55a8d778e5022fab701977c5d840bbc486d0"

abbrev pub sample_meta : PersistedMeta
sample_meta = record {
  repo_id = codes "repo";
  index_run_id = codes "run";
  batch_id = codes "batch";
  source_path = codes "a.ts";
  content_hash = codes "cnt_da39a3ee5e6b4b0d3255bfef95601890afd80709";
  version = 1;
}

abbrev pub node_with : Text → Text → GraphNode
node_with id name = record {
  meta = sample_meta;
  id = id;
  path = codes "a.ts";
  kind = function_kind;
  language = typescript;
  qualified_name = name;
  signature = name;
  evidence = record { start_line = 1; end_line = 2 };
}

abbrev pub node_a : GraphNode
node_a = node_with sym_a (codes "f")

abbrev pub node_b : GraphNode
node_b = node_with sym_b (codes "g")

abbrev pub edge_ab : GraphEdge
edge_ab = record { meta = sample_meta; src = sym_a; dst = sym_b; type = calls; attributes = none }

abbrev pub two_nodes : GraphStore
two_nodes =
    (upsert_edges zod_of_checks (edge_ab ∷ [])
      (upsert_nodes zod_of_checks (node_a ∷ node_b ∷ []) empty_graph).1).1

abbrev pub manifest_of : BatchStatus → BatchManifest
manifest_of status = record {
  batch_id = codes "batch";
  index_run_id = codes "run";
  repo_id = codes "repo";
  source_path = codes "/repo";
  source_content_hash = codes "cnt_da39a3ee5e6b4b0d3255bfef95601890afd80709";
  status = status;
  node_count = 2;
  edge_count = 1;
  vector_count = 0;
  created_at = codes "2024-01-01T00:00:00.000Z";
  committed_at = none;
  checksum = hex_a;
  version = 1;
}

abbrev pub commit_op : Op
commit_op =
    transition_op (record { batch_id = codes "batch"; to_status = committed; message = none })
      (codes "2024-01-01T00:00:01.000Z")

abbrev pub fail_op : Op
fail_op =
    transition_op (record { batch_id = codes "batch"; to_status = failed; message = none })
      (codes "2024-01-01T00:00:02.000Z")

-- A batch that is recorded and committed, and a transition that is refused.
abbrev pub sample_ops : List Op
sample_ops = record_op (manifest_of pending) ∷ commit_op ∷ fail_op ∷ []
