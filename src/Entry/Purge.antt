-- ===== src/Entry/Purge.antt =====
-- `path_purge` restarts its search after every removal. It ends, and it has filtered the list.
use ns2_te_aomdv.Base.{
  ℕ, zero, suc, ◌-◌, ◌<◌, ◌≡◌, Bool, not, length, keep, remove_first, length-remove_first, keep-all,
  keep-remove_first, arith, Double, done,
}
use ns2_te_aomdv.Entry.{Entry, RoutePath, is_expired, purge_paths, path_purge}
use ns2_te_aomdv.Entry.Counted.{IsCounted}

module _ {D : Type 0} ⦃fl : Double D⦄ where
  abbrev pub is_alive : D → RoutePath D → Bool
  is_alive now p = not (is_expired now p)

  abbrev pub purged : D → Entry D → Entry D
  purged now e = record e {
    paths = keep (is_alive now) e.paths;
    num_paths = length (keep (is_alive now) e.paths);
  }

  purge_paths_lem :
      (fuel : ℕ) (now : D) (e : Entry D)
      → length e.paths < fuel
      → IsCounted e
      → purge_paths fuel now e ≡ done (purged now e)
  unfolding purge_paths
  purge_paths_lem zero now e h c = elim h [ ]
  purge_paths_lem (suc fuel) now e h c = ground (
    arith,
    purge_paths_lem fuel now
        (record e { paths = remove_first (is_expired now) e.paths; num_paths = e.num_paths - 1 }),
    keep-remove_first (is_expired now) e.paths,
    keep-all (is_expired now) e.paths,
    length-remove_first (is_expired now) e.paths,
  )

  -- If the count of paths is right, `path_purge` ends, and leaves the paths that have not expired, in
  -- their order, with the count right again and everything else as it was.
  pub path_purge_lem :
      (now : D) (e : Entry D) → IsCounted e → path_purge now e ≡ done (purged now e)
  unfolding path_purge
  path_purge_lem now e c = purge_paths_lem _ now e (omega arith) c
