-- ===== src/HLink/Tables/Updates.antt =====
-- hlinkstate.cpp: `writePair` and `deletePair` as updates of what `readPair` answers.
use copy.Prelude.{ℕ, none, some, ◌==◌, if◌then◌else◌, ◌≡◌, refl, ap, ◌∙◌, arith, Bool, true, false}
use copy.HLink.Lmdb.{Txn, Dbi, Reply, done, not_found, failed, Lmdb, IsTransactional}
use copy.HLink.Tables.{Table, cache_erase, stored, read_pair, deleted, delete_pair}
use copy.HLink.Tables.View.{Unique, cache_find-erase, cache_erase-Unique, view, read_pair-view}

module _ {Store : Type 0} (db : Lmdb Store) (d : Dbi) (law : IsTransactional db) where
  -- A returned table is the computed one.
  returned : (x y : Table Store) → some x ≡ some y → x ≡ y
  returned x y e = cc

  -- A view that changes at one key, as the answers of `readPair`.
  answers :
      (x : Txn) (t t' : Table Store) (j : ℕ) (c : Bool) (r : Reply ℕ)
      → view db d t' j ≡ (if c then r else view db d t j)
      → read_pair db d x t' j ≡ (if c then stored db d r else read_pair db d x t j)
  answers x t t' j true r e = read_pair-view db d law x t' j ∙ ap (stored db d) e
  answers x t t' j false r e =
      read_pair-view db d law x t' j ∙ ap (stored db d) e ∙ rw (read_pair-view db d law x t j) refl

  deleted-view :
      (t t' : Table Store) (k : ℕ) (r : Reply Store)
      → db.mdb_del d k t.store ≡ r
      → Unique t.cache
      → deleted db d (cache_erase k t.cache) t.store r ≡ some t'
      → ((j : ℕ) → view db d t' j ≡ (if j == k then not_found else view db d t j)) × Unique t'.cache
  unfolding deleted
  deleted-view t t' k (done s) del u e =
      let final =
        returned (record { cache = cache_erase k t.cache; store = db.reset_and_renew s }) t' e in
      rw (← final) (
        (λ j.
            ground
              (arith, cache_find-erase k j t.cache, law.reset d s j, law.del d k t.store s del j)),
        cache_erase-Unique k t.cache u,
      )
  deleted-view t t' k not_found del u e =
      let final =
        returned (record { cache = cache_erase k t.cache; store = db.reset_and_renew t.store }) t'
          e in
      rw (← final) (
        (λ j. ground (
          arith,
          cache_find-erase k j t.cache,
          law.reset d t.store j,
          law.missing d k t.store del,
        )),
        cache_erase-Unique k t.cache u,
      )
  deleted-view t t' k failed del u e = cc

  -- After a `deletePair` that does not exit, of a table whose cache has no key twice, `readPair`
  -- answers through either transaction that its key is not there, and for every other key as
  -- before, whether the entry was in the cache, in the store, in both or in neither; the cache again
  -- has no key twice.
  pub read_pair-delete_pair :
      (t t' : Table Store) (k : ℕ)
      → Unique t.cache
      → delete_pair db d t k ≡ some t'
      → ((x : Txn) (j : ℕ)
          → read_pair db d x t' j ≡ (if j == k then some none else read_pair db d x t j))
        × Unique t'.cache
  unfolding stored delete_pair
  read_pair-delete_pair t t' k u e =
      let (w, u') = deleted-view t t' k (db.mdb_del d k t.store) refl u e in
      ((λ x j. answers x t t' j (j == k) not_found (w j)), u')
