-- ===== src/HLink/Tables/View.antt =====
-- hlinkstate.cpp: a table with its cache is one map, and how reads see it.
use copy.Prelude.{
  ℕ, Option, none, some, [], ◌∷◌, ◌==◌, if◌then◌else◌, ◌≡◌, refl, arith, Option-cases, inl, inr,
}
use copy.HLink.Lmdb.{Txn, rd_txn, wr_txn, Dbi, Reply, done, Lmdb, IsTransactional}
use copy.HLink.Tables.{
  stored, Cache, Table, cache_find, cache_insert, cache_erase, read_pair, put_all, flush_cache,
}

-- An entry of the cache comes before one of the store.
abbrev pub over : Option ℕ → Reply ℕ → Reply ℕ
over (some v) r = done v
over none r = r

-- No key twice: the cache is a hash map.
abbrev pub Unique : Cache → Type 0
Unique [] = Unit {0}
Unique ((k, v) ∷ c) = (cache_find k c ≡ none) × Unique c

pub cache_find-insert :
    (k v j : ℕ) (c : Cache)
    → cache_find j (cache_insert k v c) ≡ (if j == k then some v else cache_find j c)
unfolding cache_find cache_insert
cache_find-insert k v j [] = refl
cache_find-insert k v j ((i, w) ∷ c) = ground (arith, cache_find-insert k v j c)

pub cache_find-erase :
    (k j : ℕ) (c : Cache)
    → cache_find j (cache_erase k c) ≡ (if j == k then none else cache_find j c)
unfolding cache_find cache_erase
cache_find-erase k j [] = ground arith
cache_find-erase k j ((i, w) ∷ c) = ground (arith, cache_find-erase k j c)

pub cache_insert-Unique : (k v : ℕ) (c : Cache) → Unique c → Unique (cache_insert k v c)
unfolding cache_insert cache_find
cache_insert-Unique k v [] u = (refl, tt)
cache_insert-Unique k v ((i, w) ∷ c) u =
    ground (arith, cache_find-insert k v i c, cache_insert-Unique k v c u.1)

pub cache_erase-Unique : (k : ℕ) (c : Cache) → Unique c → Unique (cache_erase k c)
unfolding cache_erase cache_find
cache_erase-Unique k [] u = tt
cache_erase-Unique k ((i, w) ∷ c) u =
    ground (arith, cache_find-erase k i c, cache_erase-Unique k c u.1)

module _ {Store : Type 0} (db : Lmdb Store) (d : Dbi) where
  -- What a key maps to in the one transaction.
  abbrev pub view : Table Store → ℕ → Reply ℕ
  view t j = over (cache_find j t.cache) (db.mdb_get wr_txn d j t.store)

  module _ (law : IsTransactional db) where
    -- Through either handle, `readPair` answers with the view.
    pub read_pair-view :
        (x : Txn) (t : Table Store) (k : ℕ) → read_pair db d x t k ≡ stored db d (view t k)
    unfolding read_pair stored
    read_pair-view rd_txn t k = rw (← law.one_txn d t.store k) (ground arith)
    read_pair-view wr_txn t k = ground arith

    pub put_all_view :
        (c : Cache) (s s' : Store)
        → Unique c
        → put_all db d c s ≡ some s'
        → (j : ℕ) → db.mdb_get wr_txn d j s' ≡ over (cache_find j c) (db.mdb_get wr_txn d j s)
    unfolding put_all cache_find
    put_all_view [] s s' u e j = ground arith
    put_all_view ((k, v) ∷ c) s s' u e j = elim (Option-cases (db.mdb_put d k v s)) [
      | inl exits ↦ absurd (cc (rw (exits, put_all) at e))
      | inr (s₁, put) ↦
          let first = law.put d k v s s₁ put j in
          let later = put_all_view c s₁ s' u.1 (rw (put, put_all) at e) j in
          ground (arith, first, later)
    ]

    module _ (t t' : Table Store) (u : Unique t.cache) (e : flush_cache db d t ≡ some t') where
      pub flushed :
          (s : Store) × (s' : Store) × (put_all db d t.cache t.store ≡ some s)
          × (db.commit_and_begin s ≡ some s')
          × (t' ≡ record { cache = []; store = db.reset_and_renew s' })
      unfolding flush_cache
      flushed = ground arith
