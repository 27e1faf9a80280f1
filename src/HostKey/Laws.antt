-- ===== src/HostKey/Laws.antt =====
-- Which keys an installation leaves (native/install-host-key.py).
use swarm_kill_chain_medium.Prelude.{
  ◌≡◌, refl, ap, ◌∙◌, String, Bool, true, false, not, ◌||◌, ◌⊎◌, inl, inr, Option, none, some, List,
  take, length, ltb, by_if, arith,
}
use swarm_kill_chain_medium.Prelude.Text.{Bytes}
use swarm_kill_chain_medium.Json.{Python}
use swarm_kill_chain_medium.Files.{File, Disk, Faults}
use swarm_kill_chain_medium.Files.Laws.{replace_file-IsAtomic}
use swarm_kill_chain_medium.HostKey.{
  Keys, Derived, rejected, derived, installed, exited, raised, Run, Library, Secret, same_parts,
  atomic_write, check_secret, public_bytes, parts_of, install_public, install, main,
}

-- A file with this content, on the disk.
abbrev pub durable : Bytes → Option File
durable content = some (record { content = content; synced = true })

-- What an installation of this secret may leave: both keys, which belong together; the private key taken
-- away again with the public one as it was; or, after a failure of the disk, the new private key or the
-- old one, with the public one as it was.
abbrev pub Installs : Python → Library → Secret → Derived → Keys → Run → Type 0
Installs python library secret keygen old r =
    ((r.ended ≡ installed)
      × (r.keys.private.target ≡ durable secret.private_key)
      × (r.keys.public.target ≡ durable (public_bytes python library secret.supplied_parts))
      × (same_parts (take 2 (parts_of python library keygen)) (take 2 secret.supplied_parts)
          ≡ true))
    ⊎ (((r.ended ≡ exited)
          × (r.keys.private.target ≡ none)
          × (r.keys.public.target ≡ old.public.target))
        ⊎ ((r.ended ≡ raised)
            × ((r.keys.private.target ≡ old.private.target)
                ⊎ (r.keys.private.target ≡ durable secret.private_key))
            × (r.keys.public.target ≡ old.public.target)))

module _ (python : Python) (library : Library) (secret : Secret) (old : Keys) where
  -- A write leaves the new content when it returns and the old one when it does not.
  atomic_write-target :
      (faults : Faults) (content : Bytes) (d : Disk)
      → (((atomic_write faults content d).returned ≡ true)
          × ((atomic_write faults content d).disk.target ≡ durable content))
        ⊎ (((atomic_write faults content d).returned ≡ false)
            × ((atomic_write faults content d).disk.target ≡ d.target))
  unfolding atomic_write
  atomic_write-target faults content d = elim (replace_file-IsAtomic faults content true d).1 [
    | inl (returned, disk) ↦ inl (returned, ap (λ (x : Disk). x.target) disk)
    | inr kept ↦ inr kept
  ]

  abbrev mismatch : List String → Bool
  mismatch parts =
      ltb (length parts) 2 || not (same_parts (take 2 parts) (take 2 secret.supplied_parts))

  abbrev Outcome : Derived → Run → Type 0
  Outcome keygen r = Installs python library secret keygen old r

  install_public-Installs :
      (faults : Faults) (keygen : Derived) (stored : Keys)
      → stored.private.target ≡ durable secret.private_key
      → stored.public.target ≡ old.public.target
      → Outcome keygen (install_public python library faults keygen secret.supplied_parts stored)
  unfolding install_public
  install_public-Installs faults rejected stored p q = inr (inl (refl, refl, q))
  install_public-Installs faults (derived output) stored p q =
      by_if (Outcome (derived output)) (mismatch (library.split (python.strip output)))
        (λ e. inr (inl (refl, refl, q)))
        (λ e.
          elim (atomic_write-target faults (public_bytes python library secret.supplied_parts)
            stored.public) [
              | inl (returned, target) ↦ rw returned (inl (refl, p, target, ground (arith, e)))
              | inr (stopped, target) ↦ rw stopped (inr (inr (refl, inr p, target ∙ q)))
            ])

  install-Installs :
      (private_faults public_faults : Faults) (keygen : Derived)
      → Outcome keygen
          (install python library (some secret) private_faults public_faults keygen old)
  install-Installs private_faults public_faults keygen =
      elim (atomic_write-target private_faults secret.private_key old.private) [
        | inl (returned, target) ↦
            rw returned (install_public-Installs public_faults keygen _ target refl)
        | inr (stopped, target) ↦ rw stopped (inr (inr (refl, inl target, refl)))
      ]

-- What a run leaves of an accepted or a rejected secret.
abbrev pub Guarded : Python → Library → Option Secret → Derived → Keys → Run → Type 0
Guarded python library none keygen old r = (r.ended ≡ exited) × (r.keys ≡ old)
Guarded python library (some secret) keygen old r = Installs python library secret keygen old r

-- A secret that fails a check changes neither file. With one that passes, `main` returns only with both
-- keys on the disk and with the public key that `ssh-keygen` derives from the private one agreeing with
-- the given one in its first two parts; when it exits, the private key is taken away and the public one
-- is as it was; and when a write fails, the private key is the old one or all of the new one, and the
-- public key is as it was.
pub main-IsGuarded :
    (python : Python) (library : Library) (raw : Bytes) (private_faults public_faults : Faults)
    (keygen : Derived) (old : Keys)
    → Guarded python library
        (check_secret python library raw)
        keygen
        old
        (main python library raw private_faults public_faults keygen old)
unfolding main
main-IsGuarded python library raw private_faults public_faults keygen old =
    by_secret (check_secret python library raw)
  where
    by_secret :
        (o : Option Secret)
        → Guarded python library o keygen old
            (install python library o private_faults public_faults keygen old)
    by_secret none = (refl, refl)
    by_secret (some secret) =
        install-Installs python library secret old private_faults public_faults keygen
