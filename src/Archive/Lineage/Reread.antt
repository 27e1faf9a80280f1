-- ===== src/Archive/Lineage/Reread.antt =====
-- What the lineage of a file becomes when the file is read again (`lineage_for` of native/s3-archive.py):
-- the anchor that a pass took from its snapshot is compared with the bytes that the descriptor shows.
use swarm_kill_chain_medium.Prelude.{
  ℕ, zero, suc, ◌+◌, ◌-◌, ◌≤◌, ◌<◌, ◌≡◌, refl, sym, ap, ◌∙◌, ◌⊎◌, inl, inr, Bool, true, false, ◌||◌,
  [], ◌∷◌, some, arith, length, take, drop, length-take, length-drop, ltb, by_if, text_equality,
}
use swarm_kill_chain_medium.Prelude.Int.{pos}
use swarm_kill_chain_medium.Prelude.Text.{Text, Bytes, same, same_refl}
use swarm_kill_chain_medium.Dict.{get}
use swarm_kill_chain_medium.Archive.Reader.Laws.{read_at-stable}
use swarm_kill_chain_medium.Archive.Anchor.{
  Stat, Anchor, absent, fields, anchors_match, anchor_digest, anchor_from_window, window_start_of,
  descriptor_anchor, snapshot_anchor,
}
use swarm_kill_chain_medium.Archive.Lineage.{Lineage, State, base_of, identity, lineage_for}
use swarm_kill_chain_medium.Archive.Lineage.Laws.{lineage_continued, lineage_restarted}

drop_nil : (n : ℕ) → drop {A = ℕ} n [] ≡ []
drop_nil zero = refl
drop_nil (suc n) = refl

drop-drop : (a b : ℕ) (xs : Bytes) → drop a (drop b xs) ≡ drop (b + a) xs
drop-drop a zero xs = let e : a ≡ zero + a = omega arith in ap (λ n. drop n xs) e
drop-drop a (suc b) [] = drop_nil a ∙ sym (drop_nil (suc b + a))
drop-drop a (suc b) (x ∷ xs) =
    let e : suc (b + a) ≡ suc b + a = omega arith in drop-drop a b xs ∙ ap (λ n. drop n (x ∷ xs)) e

take_nil : (n : ℕ) → take {A = ℕ} n [] ≡ []
take_nil zero = refl
take_nil (suc n) = refl

drop-take : (a n : ℕ) (xs : Bytes) → drop a (take n xs) ≡ take (n - a) (drop a xs)
drop-take zero n xs = let e : n ≡ n - zero = omega arith in ap (λ m. take m xs) e
drop-take (suc a) zero xs =
    let e : 0 ≡ zero - suc a = omega arith in ap (λ m. take m (drop (suc a) xs)) e
drop-take (suc a) (suc n) [] = sym (take_nil (suc n - suc a))
drop-take (suc a) (suc n) (x ∷ xs) =
    let e : n - a ≡ suc n - suc a = omega arith in drop-take a n xs ∙ ap (λ m. take m (drop a xs)) e

-- The bytes before the offset that an anchor is taken of.
abbrev pub window : ℕ → Bytes → Bytes
window end content = take (end - window_start_of end) (drop (window_start_of end) content)

length-window :
    (end : ℕ) (content : Bytes)
    → end ≤ length content
    → length (window end content) ≡ end - window_start_of end
length-window end content h = omega (
  arith,
  length-take (end - window_start_of end) (drop (window_start_of end) content),
  length-drop (window_start_of end) content,
)

window_prefix : (end : ℕ) (a b : Bytes) → take end a ≡ take end b → window end a ≡ window end b
window_prefix end a b e =
    sym (drop-take (window_start_of end) end a)
    ∙ ap (drop (window_start_of end)) e
    ∙ drop-take (window_start_of end) end b

module _ (sha256 : Bytes → Text) where
  -- The anchor of a file with this content.
  abbrev anchored : Stat → ℕ → Bytes → Anchor
  anchored status end content = fields (record {
    offset = some end;
    window_start = some (window_start_of end);
    sha256 = some (sha256 (window end content));
    device = some status.device;
    inode = some status.inode;
  })

  anchor_whole :
      (status : Stat) (end : ℕ) (content : Bytes)
      → 0 < end
      → end ≤ length content
      → anchor_from_window sha256 status end (window end content) ≡ anchored status end content
  unfolding anchor_from_window
  anchor_whole status end content positive fits =
      ground (arith, positive, length-window end content fits)

  pub snapshot_anchor_whole :
      (status : Stat) (start end : ℕ) (content : Bytes)
      → 0 < end
      → start ≤ window_start_of end
      → end ≤ length content
      → snapshot_anchor sha256 status start (drop start content) end ≡ anchored status end content
  unfolding snapshot_anchor
  snapshot_anchor_whole status start end content positive early fits =
      by_if (λ (x : Anchor). x ≡ anchored status end content)
        (ltb (window_start_of end) start || ltb (length (drop start content)) (end - start))
        {x = absent} (λ e. absurd (ground (arith, e, early, fits, length-drop start content)))
        (λ e.
          ap (anchor_from_window sha256 status end) same_window
          ∙ anchor_whole status end content positive fits)
    where
      same_window :
          take
            (end - start - (window_start_of end - start))
            (drop (window_start_of end - start) (drop start content))
          ≡ window end content
      same_window =
          let size : end - start - (window_start_of end - start) ≡ end - window_start_of end =
            omega (arith, early) in
          let first : start + (window_start_of end - start) ≡ window_start_of end =
            omega (arith, early) in
          rw (drop-drop (window_start_of end - start) start content, size, first) refl

  descriptor_anchor_whole :
      (seen : ℕ → Bytes) (status : Stat) (end : ℕ) (content : Bytes)
      → ((i : ℕ) → seen i ≡ content)
      → 0 < end
      → end ≤ status.size
      → status.size ≡ length content
      → descriptor_anchor sha256 seen status end ≡ anchored status end content
  unfolding descriptor_anchor
  descriptor_anchor_whole seen status end content still positive fits size =
      by_if (λ (x : Anchor). x ≡ anchored status end content) (ltb status.size end)
        (λ e. absurd (ground (arith, e, fits)))
        (λ e.
          ap (anchor_from_window sha256 status end)
            (read_at-stable seen content (window_start_of end) (end - window_start_of end) still)
          ∙ anchor_whole status end content positive (omega (arith, fits, size)))

  anchored-match :
      (before after : Stat) (end : ℕ) (old new : Bytes)
      → before.device ≡ after.device
      → before.inode ≡ after.inode
      → anchors_match (anchored before end old) (anchored after end new)
        ≡ same (sha256 (window end old)) (sha256 (window end new))
  unfolding anchors_match anchor_digest
  anchored-match before after end old new device inode = ground (arith, device, inode)

-- What is known of a file: it has this identity, and the reads see this content of it.
abbrev pub Shows : Stat → (ℕ → Bytes) → Bytes → Type 0
Shows status seen content = ((i : ℕ) → seen i ≡ content) × (status.size ≡ length content)

module _ (sha256 : Bytes → Text) (state : State) (before after : Stat) (seen : ℕ → Bytes)
    (old new : Bytes) (lineage : Lineage) (start end : ℕ) (device : before.device ≡ after.device)
    (inode : before.inode ≡ after.inode) (shows : Shows after seen new)
    (held : get state.lineages (base_of after) ≡ some (some lineage))
    (at : lineage.offset ≡ pos end) (positive : 0 < end) (early : start ≤ window_start_of end)
    (fits : end ≤ length old)
    (anchor : lineage.anchor ≡ snapshot_anchor sha256 before start (drop start old) end) where
  match :
      end ≤ after.size
      → anchors_match lineage.anchor (descriptor_anchor sha256 seen after end)
        ≡ same (sha256 (window end old)) (sha256 (window end new))
  match inside =
      rw
        (
          anchor,
          snapshot_anchor_whole sha256 before start end old positive early fits,
          descriptor_anchor_whole sha256 seen after end new shows.0 positive inside shows.1,
        )
        (anchored-match sha256 before after end old new device inode)

  -- Take the lineage that a pass over a file with the content `old` left: its offset is a positive one in
  -- the file, and its anchor is the one taken there from the snapshot. When the same file is read again
  -- and its content has grown, if at all, behind that offset, the lineage is continued at the offset, in the
  -- same generation and with the same anchor: nothing is archived twice and nothing is passed over.
  pub lineage_for_appended :
      take end new ≡ take end old
      → end ≤ length new
      → (lineage_for state after (descriptor_anchor sha256 seen after)).0
        ≡ record lineage { descriptor = some (identity after) }
  lineage_for_appended prefix inside =
      let size : end ≤ after.size = omega (arith, inside, shows.1) in
      lineage_continued state after (descriptor_anchor sha256 seen after) lineage end held at size (
        inr (
          match size ∙ rw (window_prefix end new old prefix) (same_refl (sha256 (window end old)))))

  -- When the same file is read again and it has become shorter than the offset, or the SHA-256 of the last 64
  -- bytes before the offset (of all of them, where there are fewer) is no longer the same, the next
  -- generation starts at zero, with no anchor.
  pub lineage_for_replaced :
      (length new < end) ⊎ (same (sha256 (window end old)) (sha256 (window end new)) ≡ false)
      → (lineage_for state after (descriptor_anchor sha256 seen after)).0 ≡ record lineage {
        generation = lineage.generation + 1;
        offset = pos 0;
        anchor = absent;
        descriptor = some (identity after);
      }
  lineage_for_replaced (inl shorter) =
      lineage_restarted state after (descriptor_anchor sha256 seen after) lineage end held at
        (inl (omega (arith, shorter, shows.1)))
  lineage_for_replaced (inr differs) = by_size (ltb after.size end) refl
    where
      by_size :
          (b : Bool)
          → ltb after.size end ≡ b
          → (lineage_for state after (descriptor_anchor sha256 seen after)).0 ≡ record lineage {
            generation = lineage.generation + 1;
            offset = pos 0;
            anchor = absent;
            descriptor = some (identity after);
          }
      by_size true e =
          lineage_restarted state after (descriptor_anchor sha256 seen after) lineage end held at
            (inl (ground (arith, e)))
      by_size false e =
          lineage_restarted state after (descriptor_anchor sha256 seen after) lineage end held at
            (inr (positive, match (ground (arith, e)) ∙ differs))
