-- ===== src/Recovery/Store.antt =====
-- memstore.go as the storage that recovery.go works on.
use raft.Prelude.{none, some}
use raft.Types.{ok}
use raft.MemStore.Defs.{
  MemStore, load_hard_state, load_snapshot, first_index, last_index, get_log_entries,
  load_commit_index, save_hard_state, truncate_suffix, append_log_entries,
}
use raft.Recovery.Defs.{Storage}

-- The contract as `MemStore` fills it.
unfoldable pub mem_storage : Storage MemStore
unfolding load_hard_state load_snapshot first_index last_index get_log_entries load_commit_index
    save_hard_state truncate_suffix append_log_entries
mem_storage = record {
  load_hard_state = λ m. ok (load_hard_state m);
  load_snapshot = load_snapshot;
  first_index = λ m. ok (first_index m);
  last_index = λ m. ok (last_index m);
  get_log_entries = get_log_entries;
  load_commit_index = some (λ m. ok (load_commit_index m));
  save_hard_state = λ hs m. (none, save_hard_state hs m);
  truncate_suffix = truncate_suffix;
  append_log_entries = λ es m. (none, append_log_entries es m);
}
