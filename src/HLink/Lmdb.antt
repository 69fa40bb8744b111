-- ===== src/HLink/Lmdb.antt =====
-- What hlinkstate.cpp uses of LMDB, another project's key-value store, and of its documentation.
--
-- A `Store` is the environment with its open transactions: the write transaction `wrTxn`, and those of
-- `rdTxns`. `getRDOnlyTxn` begins these with no flags, as write transactions too, on an environment
-- without locks; each thread is taken to have begun its own already.
use copy.Prelude.{ℕ, ◌≡◌, ◌==◌, if◌then◌else◌, Option, some}

-- Which transaction a read goes through.
pub data Txn : Type 0 where
  rd_txn wr_txn : Txn

-- Which of the two tables.
pub data Dbi : Type 0 where
  forward_table rev_table : Dbi

-- The outcome of a call: its result, `MDB_NOTFOUND`, or another error.
pub data Reply {ℓ} (A : Type ℓ) : Type ℓ where
  done : A → Reply A
  not_found : Reply A
  failed : Reply A

pub record Lmdb (Store : Type 0) : Type 0 where
  pub mdb_get : Txn → Dbi → ℕ → Store → Reply ℕ
  pub mdb_put : Dbi → ℕ → ℕ → Store → Option Store
  pub mdb_del : Dbi → ℕ → Store → Reply Store
  -- `mdb_txn_commit` and `mdb_txn_begin` of the write transaction; `none` if the second fails.
  pub commit_and_begin : Store → Option Store
  -- `mdb_txn_reset` and `mdb_txn_renew` of each of `rdTxns`.
  pub reset_and_renew : Store → Store

-- The documented behaviour, for stores whose calls succeed: a transaction sees its own puts and
-- deletions and nothing else of what was there changes by them, a commit keeps them, an environment
-- has one write transaction at a time, so that what `getRDOnlyTxn` begins is the same one, and a reset or
-- a renewal of a transaction that is not read-only does nothing.
pub record IsTransactional {Store : Type 0} (db : Lmdb Store) : Type 0 where
  pub put :
      (d : Dbi) (k v : ℕ) (s s' : Store)
      → db.mdb_put d k v s ≡ some s'
      → (j : ℕ) → db.mdb_get wr_txn d j s' ≡ (if j == k then done v else db.mdb_get wr_txn d j s)
  pub del :
      (d : Dbi) (k : ℕ) (s s' : Store)
      → db.mdb_del d k s ≡ done s'
      → (j : ℕ) → db.mdb_get wr_txn d j s' ≡ (if j == k then not_found else db.mdb_get wr_txn d j s)
  pub missing :
      (d : Dbi) (k : ℕ) (s : Store)
      → db.mdb_del d k s ≡ not_found
      → db.mdb_get wr_txn d k s ≡ not_found
  pub commit :
      (d : Dbi) (s s' : Store)
      → db.commit_and_begin s ≡ some s'
      → (j : ℕ) → db.mdb_get wr_txn d j s' ≡ db.mdb_get wr_txn d j s
  pub reset :
      (d : Dbi) (s : Store) (j : ℕ)
      → db.mdb_get wr_txn d j (db.reset_and_renew s) ≡ db.mdb_get wr_txn d j s
  pub one_txn : (d : Dbi) (s : Store) (j : ℕ) → db.mdb_get rd_txn d j s ≡ db.mdb_get wr_txn d j s
