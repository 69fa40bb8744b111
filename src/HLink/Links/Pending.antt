-- ===== src/HLink/Links/Pending.antt =====
-- hlinkstate.cpp: what the registration of a link decides, and the links that wait for their root.
use copy.Prelude.{
  ℕ, zero, suc, Bool, true, false, Option, none, some, List, [], ◌∷◌, if◌then◌else◌, ◌≡◌, refl, ap,
  length, ◌&&◌, ◌==◌,
}
use copy.HLink.Lmdb.{Lmdb, rd_txn, forward_table, rev_table}
use copy.World.{Bytes, World, Action, LinkEntry, ◌>>=◌, ◌>>◌, pure, gets, string_at}
use copy.World.Steps.{Returns, bind-Returns, after-Returns, if-Returns}
use copy.Syscalls.{Kernel, unlinkat_wrapper, linkat_wrapper}
use copy.Fdrc.{incref, release_fdrc}
use copy.HLink.Links.{
  LinkRequest, Verdict, read_ref, write_ref, info_at, set_info, new_info, link_to_root, count_link,
  known_source, other_source, new_source, update_dest, after_known, unless_known, by_source,
  register_link_root, apply_links,
}

-- A file that waits for its root is not transferred itself, and is no first look.
abbrev pub IsConsistent : Verdict → Type 0
IsConsistent v =
    v.is_pending_hardlink ≡ true → (v.is_first_look ≡ false) × (v.should_transfer ≡ false)

module _ {Fs : Type 0} (os : Kernel Fs) (db : Lmdb Fs) where
  -- Where all pending links of a root were gone through, the number that is reported is the number
  -- of these links, whether or not the system calls for them succeeded.
  pub apply_links-Returns :
      (remote : Bytes) (links : List LinkEntry) (w : World Fs)
      → Returns (λ n. n ≡ length links) (apply_links os db remote links w)
  unfolding apply_links
  apply_links-Returns remote [] w = refl
  apply_links-Returns remote ((link, dir) ∷ rest) w =
      let P : ℕ → Type 0 = λ n. n ≡ suc (length rest) in
      bind-Returns P (gets (λ v. v.dest_root_fd)) _
        (λ root. bind-Returns P (string_at link) _ λ name.
          bind-Returns P (unlinkat_wrapper os root name 0) _ λ _.
            bind-Returns P (linkat_wrapper os root remote root name 0) _ λ _.
              bind-Returns P (release_fdrc os dir) _ λ _ v.
                after-Returns (λ n. n ≡ length rest) P (apply_links os db remote rest)
                  (λ n. pure (suc n)) v (apply_links-Returns remote rest v) λ n u e. ap suc e)
        w

  Sound : Option Bool × Verdict → Type 0
  Sound r = IsConsistent r.1

  known_source-Returns :
      (q : LinkRequest) (orig : Bool) (i : ℕ) (w : World Fs)
      → Returns Sound (known_source os db q orig i w)
  unfolding known_source Sound
  known_source-Returns q orig i = bind-Returns Sound (info_at i) _ λ info w.
      if-Returns Sound (q.dest_exists && (q.dest_inode == info.dest_inode)) _ _ w (λ p. cc)
        (bind-Returns Sound (string_at q.remote_ref) _
          (λ remote. bind-Returns Sound (string_at info.remote) _ λ root v.
            if-Returns Sound info.transferred _ _ v
              (bind-Returns Sound (link_to_root os db remote root) _
                (λ failed u.
                  if-Returns Sound failed _ _ u (λ p. cc)
                    (bind-Returns Sound (count_link os db q.src_inode i info) _ (λ locked t p. cc)
                      u))
                v)
              (bind-Returns Sound (incref q.dst_fd_ref) _
                (λ _. bind-Returns Sound (set_info i _) _ λ _ u p. (refl, refl)) v))
          w)

  new_source-Returns :
      (q : LinkRequest) (orig : Bool) (dst : Option ℕ) (w : World Fs)
      → Returns IsConsistent (new_source os db q orig dst w)
  unfolding new_source
  new_source-Returns q orig dst = bind-Returns IsConsistent (new_info _) _ λ i.
      bind-Returns IsConsistent (write_ref os db forward_table q.src_inode i) _
        λ _. bind-Returns IsConsistent (other_source os db q orig dst) _ λ should w p. cc

  updated :
      (q : LinkRequest) (locked : Bool) (dst : Option ℕ) (v : Verdict)
      → IsConsistent v
      → (w : World Fs)
      → Returns IsConsistent ((do update_dest os db q v.should_transfer locked dst; pure v) w)
  updated q locked dst v h =
      bind-Returns IsConsistent (update_dest os db q v.should_transfer locked dst) (λ _. pure v)
        λ _ w. h

  after_known-Returns :
      (q : LinkRequest) (dst : Option ℕ) (r : Option Bool × Verdict) (w : World Fs)
      → Sound r
      → Returns IsConsistent (after_known os db q dst r w)
  unfolding after_known Sound
  after_known-Returns q dst (none, v) w h = h
  after_known-Returns q dst (some locked, v) w h = updated q locked dst v h w

  module _ (q : LinkRequest) (orig : Bool) (reroll : Action Fs Verdict)
      (again : (w : World Fs) → Returns IsConsistent (reroll w)) (dst : Option ℕ) where
    unless_known-Returns :
        (src : Option ℕ) (w : World Fs)
        → Returns IsConsistent (unless_known os db q orig dst reroll src w)
    unfolding unless_known
    unless_known-Returns (some i) w = again w
    unless_known-Returns none w =
        after-Returns IsConsistent IsConsistent (new_source os db q orig dst) _ w
          (new_source-Returns q orig dst w) λ v u h. updated q true dst v h u

    by_source-Returns :
        (src : Option ℕ) (w : World Fs)
        → Returns IsConsistent (by_source os db q orig dst reroll src w)
    unfolding by_source
    by_source-Returns (some i) w =
        after-Returns Sound IsConsistent (known_source os db q orig i) (after_known os db q dst) w
          (known_source-Returns q orig i w) (after_known-Returns q dst)
    by_source-Returns none w =
        bind-Returns IsConsistent (read_ref os db rd_txn forward_table q.src_inode)
          (unless_known os db q orig dst reroll) unless_known-Returns w

  -- Whatever the tables say, and on all paths that return, errors included: a file that is to wait
  -- for its root is neither to be transferred itself nor a first look. (The second is what the last
  -- assertion of the function checks.)
  pub register_link_root-IsConsistent :
      (fuel : ℕ) (q : LinkRequest) (orig : Bool) (w : World Fs)
      → Returns IsConsistent (register_link_root os db fuel q orig w)
  unfolding register_link_root
  register_link_root-IsConsistent zero q orig w = tt
  register_link_root-IsConsistent (suc fuel) q orig w =
      bind-Returns IsConsistent (read_ref os db rd_txn forward_table q.src_inode)
        (λ src. do
          dst ← (if q.dest_exists then read_ref os db rd_txn rev_table q.dest_inode else pure none)
          by_source os db q orig dst (register_link_root os db fuel q orig) src)
        (λ src.
          bind-Returns IsConsistent
            (if q.dest_exists then read_ref os db rd_txn rev_table q.dest_inode else pure none)
            (λ dst. by_source os db q orig dst (register_link_root os db fuel q orig) src)
            λ dst.
              by_source-Returns q orig (register_link_root os db fuel q orig)
                (register_link_root-IsConsistent fuel q orig) dst src)
        w
