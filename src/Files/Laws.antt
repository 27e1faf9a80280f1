-- ===== src/Files/Laws.antt =====
-- A file that is replaced is never seen half written.
use swarm_kill_chain_medium.Prelude.{
  ◌≡◌, ◌⊎◌, inl, inr, refl, Bool, true, false, ◌&&◌, Option, none, some, [], All, by_if, take,
}
use swarm_kill_chain_medium.Prelude.Text.{Bytes}
use swarm_kill_chain_medium.Files.{
  File, Disk, Faults, Saved, clean_up, move_over, make_durable, fill, replace_file,
}

-- The file has its old content, or all of the new content, durably.
abbrev pub IsIntact : Option File → Bytes → Disk → Type 0
IsIntact old content d =
    (d.target ≡ old) ⊎ (d.target ≡ some (record { content = content; synced = true }))

-- The file is intact at every moment; it is new, with no candidate left, when the call returned, and
-- old when it raised.
abbrev pub IsAtomic : Option File → Bytes → Saved → Type 0
IsAtomic old content s =
    All (IsIntact old content) s.disks
    × (((s.returned ≡ true)
          × (s.disk ≡ record {
            target = some (record { content = content; synced = true });
            candidate = none;
          }))
        ⊎ ((s.returned ≡ false) × (s.disk.target ≡ old)))

module _ (f : Faults) (content : Bytes) where
  clean_up-IsAtomic : (d : Disk) → IsAtomic d.target content (clean_up f d)
  unfolding clean_up
  clean_up-IsAtomic d =
      by_if (IsAtomic d.target content) f.cleanup (λ e. (tt, inr (refl, refl)))
        (λ e. ((inl refl, tt), inr (refl, refl)))

  move_over-IsAtomic :
      (old : Option File)
      → IsAtomic old content (
          move_over f (record {
            target = old;
            candidate = some (record { content = content; synced = true });
          }))
  unfolding move_over
  move_over-IsAtomic old =
      by_if (IsAtomic old content) f.replace (λ e. clean_up-IsAtomic _)
        (λ e. ((inr refl, tt), inl (refl, refl)))

  module _ (with_mode : Bool) where
    make_durable-IsAtomic :
        (d : Disk) → IsAtomic d.target content (make_durable with_mode f content d)
    unfolding make_durable
    make_durable-IsAtomic d =
        by_if (IsAtomic d.target content) f.sync (λ e. clean_up-IsAtomic d)
          (λ e.
            let (whole, last) =
              by_if (IsAtomic d.target content) (with_mode && f.mode) (λ m. clean_up-IsAtomic _)
                (λ m. move_over-IsAtomic d.target) in
            ((inl refl, whole), last))

    fill-IsAtomic : (d : Disk) → IsAtomic d.target content (fill with_mode f content d)
    unfolding fill
    fill-IsAtomic d =
        let (whole, last) =
          by_if (IsAtomic d.target content) f.write
            (λ e. clean_up-IsAtomic (record d {
              candidate = some (record { content = take f.written content; synced = false });
            }))
            (λ e.
              let (more, end) =
                make_durable-IsAtomic
                  (record d { candidate = some (record { content = content; synced = false }) }) in
              ((inl refl, more), end)) in
        ((inl refl, whole), last)

    -- Whatever calls fail, and wherever the process stops, the file has its old content or all of the
    -- new content with `fsync` done; it is new, and the candidate gone, when the call returns, and
    -- unchanged when it raises.
    pub replace_file-IsAtomic :
        (d : Disk) → IsAtomic d.target content (replace_file with_mode f content d)
    unfolding replace_file
    replace_file-IsAtomic d =
        by_if (IsAtomic d.target content) f.unlink (λ e. (tt, inr (refl, refl)))
          (λ e.
            let (whole, last) =
              by_if (IsAtomic d.target content) f.create (λ c. (tt, inr (refl, refl)))
                (λ c.
                  let (more, end) =
                    fill-IsAtomic
                      (record d { candidate = some (record { content = []; synced = false }) }) in
                  ((inl refl, more), end)) in
            ((inl refl, whole), last))
