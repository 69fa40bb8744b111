-- ===== src/HLink/Tests.antt =====
-- A store in memory that behaves as LMDB is documented to, and the inode tables on it.
use copy.Prelude.{ℕ, ◌≡◌, refl, ◌==◌, if◌then◌else◌, none, some, [], ◌∷◌}
use copy.HLink.Lmdb.{Txn, forward_table, Reply, done, not_found, failed, Lmdb, IsTransactional}
use copy.HLink.Tables.{Table, cache_erase, cache_find, read_pair, deleted, delete_pair}
use copy.HLink.Tables.View.{Unique}
use copy.HLink.Tables.Updates.{read_pair-delete_pair}

-- What the transaction sees, and what is committed; one map for both tables.
record Versions : Type 0 where
  now : ℕ → Reply ℕ
  committed : ℕ → Reply ℕ

abbrev without : ℕ → Versions → Reply ℕ → Reply Versions
without k s (done v) = done (record s { now = λ j. if j == k then not_found else s.now j })
without k s not_found = not_found
without k s failed = failed

abbrev in_memory : Lmdb Versions
in_memory = record {
  mdb_get = λ x d k s. s.now k;
  mdb_put = λ d k v s. some (record s { now = λ j. if j == k then done v else s.now j });
  mdb_del = λ d k s. without k s (s.now k);
  commit_and_begin = λ s. some (record s { committed = s.now });
  reset_and_renew = λ s. s;
}

put_some : (x s : Versions) → some x ≡ some s → x ≡ s
put_some x s e = cc

del_done :
    (k : ℕ) (s s' : Versions) (o : Reply ℕ)
    → without k s o ≡ done s'
    → record s { now = λ j. if j == k then not_found else s.now j } ≡ s'
del_done k s s' (done v) e = cc
del_done k s s' not_found e = absurd (cc e)
del_done k s s' failed e = absurd (cc e)

del_missing : (k : ℕ) (s : Versions) (o : Reply ℕ) → without k s o ≡ not_found → o ≡ not_found
del_missing k s (done v) e = absurd (cc e)
del_missing k s not_found e = refl
del_missing k s failed e = absurd (cc e)

in_memory-IsTransactional : IsTransactional in_memory
in_memory-IsTransactional = record {
  put = λ d k v s s' e j.
      rw (← put_some (record s { now = λ i. if i == k then done v else s.now i }) s' e) refl;
  del = λ d k s s' e j. rw (← del_done k s s' (s.now k) e) refl;
  missing = λ d k s e. del_missing k s (s.now k) e;
  commit = λ d s s' e j. rw (← put_some (record s { committed = s.now }) s' e) refl;
  reset = λ d s j. refl;
  one_txn = λ d s j. refl;
}

-- Inode 5 is stored with reference 9, and inode 6 is in the cache.
abbrev versions : Versions
versions = record {
  now = λ j. if j == 5 then done 9 else not_found;
  committed = λ j. if j == 5 then done 9 else not_found;
}

abbrev table : Table Versions
table = record { cache = (6, 1) ∷ []; store = versions }

table-Unique : Unique table.cache
unfolding cache_find
table-Unique = (refl, tt)

-- With a limit of two entries, the second one flushes the cache.
abbrev with_seven : Table Versions
with_seven = record {
  cache = [];
  store = record {
    now = λ j. if j == 7 then done 2 else if j == 6 then done 1 else versions.now j;
    committed = λ j. if j == 7 then done 2 else if j == 6 then done 1 else versions.now j;
  };
}

abbrev without_five : Table Versions
without_five = record table {
  store = record versions { now = λ j. if j == 5 then not_found else versions.now j };
}

delete_run : delete_pair in_memory forward_table table 5 ≡ some without_five
unfolding delete_pair deleted cache_erase
delete_run = refl

read_pair-delete_pair_example :
    ((x : Txn) (j : ℕ)
      → read_pair in_memory forward_table x without_five j
        ≡ (if j == 5 then some none else read_pair in_memory forward_table x table j))
    × Unique without_five.cache
read_pair-delete_pair_example =
    read_pair-delete_pair in_memory forward_table in_memory-IsTransactional table without_five 5
      table-Unique delete_run
