-- ===== src/HLink/Links.antt =====
-- hlinkstate.cpp: which links of an inode are made, which wait, and which file is transferred.
--
-- The lock of the state is only promoted between the steps of one call, so a call whose second read
-- finds the state that its first did not is repeated; `fuel` bounds these repetitions.
pub mod Pending
use copy.Prelude.{
  ℕ, zero, suc, ◌-◌, Bool, true, false, not, ◌&&◌, ◌||◌, Option, none, some, List, [], ◌∷◌, ◌++◌,
  ◌==◌, ltb, if◌then◌else◌, word, sub64, add64, length, set,
}
use copy.HLink.Lmdb.{Lmdb, Txn, rd_txn, wr_txn, Dbi, forward_table, rev_table}
use copy.HLink.Tables.{Table, read_pair, write_pair, delete_pair}
use copy.World.{
  Bytes, World, Action, ◌>>=◌, ◌>>◌, pure, modify, gets, or_stop, at_ref, string_at, HlinkInfo,
  HlinkInfoRev, LinkEntry,
}
use copy.Syscalls.{Kernel, enoent, unlinkat_wrapper, linkat_wrapper}
use copy.Fdrc.{incref, release_fdrc}

module _ {Fs : Type 0} where
  abbrev pub table_of : Dbi → World Fs → Table Fs
  table_of forward_table w = record { cache = w.forward_table_cache; store = w.fs }
  table_of rev_table w = record { cache = w.rev_table_cache; store = w.fs }

  abbrev pub set_table : Dbi → Table Fs → World Fs → World Fs
  set_table forward_table t w = record w { forward_table_cache = t.cache; fs = t.store }
  set_table rev_table t w = record w { rev_table_cache = t.cache; fs = t.store }

  abbrev pub changed : Dbi → World Fs → Option (Table Fs) → Option (Unit {0} × World Fs)
  changed d w none = none
  changed d w (some t) = some (tt, set_table d t w)

  abbrev pub answered : World Fs → Option (Option ℕ) → Option (Option ℕ × World Fs)
  answered w none = none
  answered w (some r) = some (r, w)

  abbrev pub info_at : ℕ → Action Fs HlinkInfo
  info_at i w = or_stop (at_ref w.infos (some i)) w

  abbrev pub rev_info_at : ℕ → Action Fs HlinkInfoRev
  rev_info_at i w = or_stop (at_ref w.rev_infos (some i)) w

  abbrev pub set_info : ℕ → HlinkInfo → Action Fs (Unit {0})
  set_info i x = modify λ w. record w { infos = set w.infos i x }

  abbrev pub set_rev_info : ℕ → HlinkInfoRev → Action Fs (Unit {0})
  set_rev_info i x = modify λ w. record w { rev_infos = set w.rev_infos i x }

  abbrev pub new_info : HlinkInfo → Action Fs ℕ
  new_info x w = some (length w.infos, record w { infos = w.infos ++ x ∷ [] })

  abbrev pub new_rev_info : HlinkInfoRev → Action Fs ℕ
  new_rev_info x w = some (length w.rev_infos, record w { rev_infos = w.rev_infos ++ x ∷ [] })

-- What the registration of a file is asked: `destInode` is 0 where the destination does not exist.
pub record LinkRequest : Type 0 where
  pub remote_ref : Option ℕ
  pub src_inode : ℕ
  pub dest_inode : ℕ
  pub dest_exists : Bool
  pub src_nlinks_expected : ℕ
  pub dest_nlinks_expected : ℕ
  pub dst_fd_ref : Option ℕ

-- What it decides.
pub record Verdict : Type 0 where
  pub should_transfer : Bool
  pub is_first_look : Bool
  pub is_pending_hardlink : Bool

abbrev pub verdict : Bool → Bool → Bool → Verdict
verdict s f p = record { should_transfer = s; is_first_look = f; is_pending_hardlink = p }

module _ {Fs : Type 0} (os : Kernel Fs) (db : Lmdb Fs) where
  abbrev pub read_ref : Txn → Dbi → ℕ → Action Fs (Option ℕ)
  read_ref txn d k w = answered w (read_pair db d txn (table_of d w) k)

  abbrev pub write_ref : Dbi → ℕ → ℕ → Action Fs (Unit {0})
  write_ref d k v w = changed d w (write_pair db d w.max_table_cache_size (table_of d w) k v)

  abbrev pub delete_ref : Dbi → ℕ → Action Fs (Unit {0})
  delete_ref d k w = changed d w (delete_pair db d (table_of d w) k)

  -- Under the write lock: delete the pair if it is still there.
  unfoldable pub drop_pair : Dbi → Dbi → ℕ → ℕ → Action Fs (Unit {0})
  drop_pair looked_up deleted k j = do
    r ← read_ref wr_txn looked_up k
    elim r [ none ↦ pure tt | some i ↦ delete_ref deleted j ]

  -- The link to a root that is transferred; true where the call returns at once, since it failed.
  unfoldable pub link_to_root : Bytes → Bytes → Action Fs Bool
  link_to_root remote root = do
    dest_root ← gets (λ w. w.dest_root_fd)
    e ← unlinkat_wrapper os dest_root remote 0
    if not (e == 0) && not (e == enoent)
        then pure false
        else (do e' ← linkat_wrapper os dest_root root dest_root remote 0; pure (not (e' == 0)))

  -- The reference count of the root, which may wrap: at 0 the write lock is taken, and the pair
  -- deleted. The result says whether the lock was taken.
  unfoldable pub count_link : ℕ → ℕ → HlinkInfo → Action Fs Bool
  unfolding drop_pair
  count_link src_inode i info = do
    set_info i (record info { nlink_rc = sub64 info.nlink_rc 1 })
    if info.nlink_rc == 0
        then (do drop_pair forward_table forward_table src_inode src_inode; pure true)
        else pure false

  -- The state of the source inode is known: link, or wait for the transfer of the root. The first
  -- part is `none` where the call returns at once, and else says whether the write lock is held.
  unfoldable pub known_source : LinkRequest → Bool → ℕ → Action Fs (Option Bool × Verdict)
  unfolding link_to_root count_link
  known_source q orig i = do
    info ← info_at i
    if q.dest_exists && (q.dest_inode == info.dest_inode)
        then pure (some false, verdict orig false false)
        else (do
          remote ← string_at q.remote_ref
          root ← string_at info.remote
          if info.transferred
              then (do
                failed ← link_to_root remote root
                if failed then pure (none, verdict false false false) else (do
                  locked ← count_link q.src_inode i info
                  pure (some locked, verdict false false false)))
              else (do
                incref q.dst_fd_ref
                set_info i (record info { links = (q.remote_ref, q.dst_fd_ref) ∷ info.links })
                pure (some false, verdict false false true)))

  -- A reverse entry that names another source inode calls for a transfer.
  unfoldable pub other_source : LinkRequest → Bool → Option ℕ → Action Fs Bool
  other_source q orig none = pure orig
  other_source q orig (some j) =
      if q.dest_exists && not orig
      then (do rev ← rev_info_at j; pure (not (rev.src_inode == q.src_inode)))
      else pure orig

  -- The first file of its inode becomes the root.
  unfoldable pub new_source : LinkRequest → Bool → Option ℕ → Action Fs Verdict
  unfolding other_source
  new_source q orig dst = do
    i ← new_info (record {
      transferred = false;
      dest_inode = q.dest_inode;
      remote = q.remote_ref;
      links = [];
      nlink_rc = q.src_nlinks_expected;
    })
    write_ref forward_table q.src_inode i
    should ← other_source q orig dst
    pure (verdict should true false)

  -- `UINT64_MAX` as a source inode matches none.
  unfoldable pub new_dest : LinkRequest → Bool → Action Fs (Unit {0})
  new_dest q should = do
    j ← new_rev_info (record {
      src_inode = if should then word - 1 else q.src_inode;
      nlink_rc = q.dest_nlinks_expected;
    })
    write_ref rev_table q.dest_inode j

  unfoldable pub known_dest : LinkRequest → ℕ → Action Fs (Unit {0})
  unfolding drop_pair
  known_dest q j = do
    rev ← rev_info_at j
    set_rev_info j (record rev { nlink_rc = sub64 rev.nlink_rc 1 })
    if sub64 rev.nlink_rc 1 == 0
        then drop_pair rev_table rev_table q.dest_inode q.dest_inode
        else pure tt

  -- What follows `reroll_dststate`, with the write lock held or not. Where it is not, the entry is
  -- looked up once more, by the source inode, as in the source.
  unfoldable pub update_dest : LinkRequest → Bool → Bool → Option ℕ → Action Fs (Unit {0})
  unfolding new_dest known_dest
  update_dest q should locked (some j) = if q.dest_exists then known_dest q j else pure tt
  update_dest q should locked none =
      if q.dest_exists && ltb 1 q.dest_nlinks_expected
      then (if locked then new_dest q should else (do
        again ← read_ref rd_txn rev_table q.src_inode
        elim again [ none ↦ new_dest q should | some j ↦ known_dest q j ]))
      else pure tt

  -- What follows the decision for a known source inode.
  unfoldable pub after_known : LinkRequest → Option ℕ → Option Bool × Verdict → Action Fs Verdict
  unfolding update_dest
  after_known q dst (none, v) = pure v
  after_known q dst (some locked, v) = do update_dest q v.should_transfer locked dst; pure v

  -- What follows the second look for an unknown one.
  unfoldable pub unless_known :
      LinkRequest → Bool → Option ℕ → Action Fs Verdict → Option ℕ → Action Fs Verdict
  unfolding new_source update_dest
  unless_known q orig dst reroll (some i) = reroll
  unless_known q orig dst reroll none = do
    v ← new_source q orig dst
    update_dest q v.should_transfer true dst
    pure v

  unfoldable pub by_source :
      LinkRequest → Bool → Option ℕ → Action Fs Verdict → Option ℕ → Action Fs Verdict
  unfolding known_source after_known unless_known
  by_source q orig dst reroll (some i) = do r ← known_source q orig i; after_known q dst r
  by_source q orig dst reroll none = do
    again ← read_ref rd_txn forward_table q.src_inode
    unless_known q orig dst reroll again

  -- `hlinkStateRegisterLinkRoot`.
  unfoldable pub register_link_root : ℕ → LinkRequest → Bool → Action Fs Verdict
  unfolding by_source
  register_link_root zero q orig w = none
  register_link_root (suc fuel) q orig w =
      let reroll = register_link_root fuel q orig in
      (do
        src ← read_ref rd_txn forward_table q.src_inode
        dst ← (if q.dest_exists then read_ref rd_txn rev_table q.dest_inode else pure none)
        by_source q orig dst reroll src)
        w

  -- The links that wait for a root, in the order of the chain. Each releases its directory; the
  -- result is their number.
  unfoldable pub apply_links : Bytes → List LinkEntry → Action Fs ℕ
  apply_links remote [] = pure 0
  apply_links remote ((link, dir) ∷ rest) = do
    dest_root ← gets (λ w. w.dest_root_fd)
    name ← string_at link
    unlinkat_wrapper os dest_root name 0
    linkat_wrapper os dest_root remote dest_root name 0
    release_fdrc os dir
    n ← apply_links remote rest
    pure (suc n)

  -- `hlinkStateHandleTransfer`: the result is `nFinishedInc`. The chain is not emptied.
  unfoldable pub handle_transfer : Bytes → ℕ → ℕ → Action Fs ℕ
  unfolding apply_links drop_pair
  handle_transfer remote src_inode dest_inode = do
    r ← read_ref rd_txn forward_table src_inode
    elim r [
      | none ↦ pure 0
      | some i ↦ do
        info ← info_at i
        if info.transferred then (λ w. none) else (do
          set_info i (record info { transferred = true; dest_inode = dest_inode })
          n ← apply_links remote info.links
          set_info i (record info {
            transferred = true;
            dest_inode = dest_inode;
            nlink_rc = sub64 info.nlink_rc 1;
          })
          (if sub64 info.nlink_rc 1 == 0
              then drop_pair forward_table rev_table dest_inode src_inode
              else pure tt)
          pure n)
    ]
