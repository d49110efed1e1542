-- ===== src/Storage/Meta.antt =====
-- packages/raft-core/src/storage/inMemory/InMemoryMetaStorage.ts: the durable term and vote.
use compaction.Prelude.{ℕ, Option, none, some, Bool, true, false, not, String}
use compaction.Prelude.Exec.{Exec, storage, throw_if, gets, modify, ◌>>=◌, ◌>>◌}

-- A node's identifier (`NodeId` of core/Config.ts).
abbrev pub NodeId : Type 0
NodeId = String

pub record MetaData : Type 0 where
  pub term : ℕ
  pub voted_for : Option NodeId

pub record MetaStorage : Type 0 where
  pub content : Option MetaData
  pub is_open_flag : Bool

abbrev pub empty : MetaStorage
empty = record { content = none; is_open_flag = false }

unfoldable pub ensure_open : Exec MetaStorage Unit
ensure_open m = throw_if (not m.is_open_flag) storage m

unfoldable pub open_storage : Exec MetaStorage Unit
open_storage = do
  flag ← gets (λ m. m.is_open_flag)
  throw_if flag storage
  modify (λ m. record m { is_open_flag = true })

unfoldable pub close : Exec MetaStorage Unit
unfolding ensure_open
close = do ensure_open; modify (λ m. record m { is_open_flag = false })

unfoldable pub is_open : MetaStorage → Bool
is_open m = m.is_open_flag

unfoldable pub read : Exec MetaStorage (Option MetaData)
unfolding ensure_open
read = do ensure_open; gets (λ m. m.content)

unfoldable pub write : ℕ → Option NodeId → Exec MetaStorage Unit
unfolding ensure_open
write t v = do
  ensure_open
  modify (λ m. record m { content = some (record { term = t; voted_for = v }) })
