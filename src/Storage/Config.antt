-- ===== src/Storage/Config.antt =====
-- packages/raft-core/src/storage/inMemory/InMemoryConfigStorage.ts: the committed configuration.
-- The copies that `read` and `write` make are the values themselves.
use compaction.Prelude.{Option, none, some, Bool, true, false, not, List}
use compaction.Prelude.Exec.{Exec, storage, throw_if, gets, modify, ◌>>=◌, ◌>>◌}
use compaction.Config.{ClusterMember, ClusterConfig}

pub record ConfigStorage : Type 0 where
  pub content : Option ClusterConfig
  pub is_open_flag : Bool

abbrev pub empty : ConfigStorage
empty = record { content = none; is_open_flag = false }

unfoldable pub ensure_open : Exec ConfigStorage Unit
ensure_open m = throw_if (not m.is_open_flag) storage m

unfoldable pub open_storage : Exec ConfigStorage Unit
open_storage = do
  flag ← gets (λ m. m.is_open_flag)
  throw_if flag storage
  modify (λ m. record m { is_open_flag = true })

unfoldable pub close : Exec ConfigStorage Unit
unfolding ensure_open
close = do ensure_open; modify (λ m. record m { is_open_flag = false })

unfoldable pub read : Exec ConfigStorage (Option ClusterConfig)
unfolding ensure_open
read = do ensure_open; gets (λ m. m.content)

unfoldable pub write : List ClusterMember → List ClusterMember → Exec ConfigStorage Unit
unfolding ensure_open
write vs ls = do
  ensure_open
  modify (λ m. record m { content = some (record { voters = vs; learners = ls }) })
