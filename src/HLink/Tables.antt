-- ===== src/HLink/Tables.antt =====
-- hlinkstate.cpp: the two inode tables, each a cache in memory over a table of the store.
--
-- A table maps an inode to a reference into the arena. `none` as a result is `exit(1)`.
pub mod View
pub mod Updates
use copy.Prelude.{
  ℕ, ◌+◌, ◌≤◌, Bool, Option, none, some, List, [], ◌∷◌, ◌==◌, leb, if◌then◌else◌, length, ◌≡◌, refl,
}
use copy.HLink.Lmdb.{Txn, Dbi, Reply, done, not_found, failed, Lmdb}

abbrev pub Cache : Type 0
Cache = List (ℕ × ℕ)

-- `cache.find(k)`.
unfoldable pub cache_find : ℕ → Cache → Option ℕ
cache_find k [] = none
cache_find k ((j, v) ∷ c) = if k == j then some v else cache_find k c

-- `cache[k] = v`.
unfoldable pub cache_insert : ℕ → ℕ → Cache → Cache
cache_insert k v [] = (k, v) ∷ []
cache_insert k v ((j, w) ∷ c) = if k == j then (k, v) ∷ c else (j, w) ∷ cache_insert k v c

-- `cache.erase(k)`.
unfoldable pub cache_erase : ℕ → Cache → Cache
cache_erase k [] = []
cache_erase k ((j, w) ∷ c) = if k == j then cache_erase k c else (j, w) ∷ cache_erase k c

-- One table of the state, with the store that both tables share.
pub record Table (Store : Type 0) : Type 0 where
  pub cache : Cache
  pub store : Store

module _ {Store : Type 0} (db : Lmdb Store) (d : Dbi) where
  unfoldable pub stored : Reply ℕ → Option (Option ℕ)
  stored (done v) = some (some v)
  stored not_found = some none
  stored failed = none

  -- `readPair`: the inner option is its result, with the reference found.
  unfoldable pub read_pair : Txn → Table Store → ℕ → Option (Option ℕ)
  unfolding stored cache_find
  read_pair txn t k = elim (cache_find k t.cache) [
    | some v ↦ some (some v)
    | none ↦ stored (db.mdb_get txn d k t.store)
  ]

  unfoldable pub put_all : Cache → Store → Option Store
  put_all [] s = some s
  put_all ((k, v) ∷ c) s = elim (db.mdb_put d k v s) [ none ↦ none | some s' ↦ put_all c s' ]

  -- `flushCache`.
  unfoldable pub flush_cache : Table Store → Option (Table Store)
  flush_cache t = elim (put_all t.cache t.store) [
    | none ↦ none
    | some s ↦ elim (db.commit_and_begin s) [
      | none ↦ none
      | some s' ↦ some (record { cache = []; store = db.reset_and_renew s' })
    ]
  ]

  -- `writePair`.
  unfoldable pub write_pair : ℕ → Table Store → ℕ → ℕ → Option (Table Store)
  write_pair max_cache_size t k v =
      let t' : Table Store = record t { cache = cache_insert k v t.cache } in
      if leb max_cache_size (length t'.cache) then flush_cache t' else some t'

  unfoldable pub deleted : Cache → Store → Reply Store → Option (Table Store)
  deleted c s (done s') = some (record { cache = c; store = db.reset_and_renew s' })
  deleted c s not_found = some (record { cache = c; store = db.reset_and_renew s })
  deleted c s failed = none

  -- `deletePair`.
  unfoldable pub delete_pair : Table Store → ℕ → Option (Table Store)
  delete_pair t k = deleted (cache_erase k t.cache) t.store (db.mdb_del d k t.store)
