-- ===== src/Cleaner/Retention.antt =====
-- The batched purge of videos is one filter.
use dust_monitoring.Prelude.{
  ℕ, zero, suc, ◌+◌, ◌-◌, min, ap₂, subst, length-drop, ◌<◌, ◌≡◌, refl, sym, ap, ◌∙◌, Bool, not,
  some, List, [], ◌∷◌, ◌++◌, map, keep, take, drop, ◌==◌, ltb, length, arith, Bool-cases, inl, inr,
  append_assoc, append-nil, take-append-drop, length-keep, length-take,
}
use dust_monitoring.Cleaner.Videos.{Video, Store, unlink_and_delete, purge_loop, purge_videos}
use dust_monitoring.Cleaner.Deletion.{
  Distinct, delete_videos-take, keep-drop_first, keep-not-drop_first, Distinct-drop_first,
  keep-none,
}

-- The state that one filter of the videos would leave.
abbrev pub swept : (Video → Bool) → Store → Store
swept sel s = record s {
  videos = keep (λ v. not (sel v)) s.videos;
  unlinked = s.unlinked ++ map (λ v. v.file_path) (keep sel s.videos);
}

keep-empty :
    (sel : Video → Bool) (rows : List Video) → length (keep sel rows) ≡ 0 → keep sel rows ≡ []
keep-empty sel rows h = length-zero (keep sel rows) h
  where
    length-zero : (xs : List Video) → length xs ≡ 0 → xs ≡ []
    length-zero [] h = refl
    length-zero (x ∷ xs) h = absurd (omega (arith, h))

swept-none : (sel : Video → Bool) (s : Store) → length (keep sel s.videos) ≡ 0 → swept sel s ≡ s
swept-none sel s h =
    ap₂ (λ v u. record s { videos = v; unlinked = u }) (keep-none sel s.videos h)
      (ap (λ k. s.unlinked ++ map (λ v. v.file_path) k) (keep-empty sel s.videos h)
        ∙ append-nil s.unlinked)

abbrev after : (Video → Bool) → ℕ → Store → Store
after sel n s = unlink_and_delete (take n (keep sel s.videos)) s

keep-after :
    (sel : Video → Bool) (n : ℕ) (s : Store)
    → Distinct s.videos
    → keep sel (after sel n s).videos ≡ drop n (keep sel s.videos)
keep-after sel n s d =
    ap (keep sel) (delete_videos-take sel n s.videos d) ∙ keep-drop_first sel n s.videos

Distinct-after :
    (sel : Video → Bool) (n : ℕ) (s : Store) → Distinct s.videos → Distinct (after sel n s).videos
Distinct-after sel n s d =
    subst Distinct (sym (delete_videos-take sel n s.videos d))
      (Distinct-drop_first sel n s.videos d)

map-append :
    (xs ys : List Video)
    → map (λ v. v.file_path) xs ++ map (λ v. v.file_path) ys ≡ map (λ v. v.file_path) (xs ++ ys)
map-append [] ys = refl
map-append (x ∷ xs) ys = ap (◌∷◌ x.file_path) (map-append xs ys)

swept-after :
    (sel : Video → Bool) (n : ℕ) (s : Store)
    → Distinct s.videos
    → swept sel (after sel n s) ≡ swept sel s
swept-after sel n s d =
    ap₂ (λ v u. record s { videos = v; unlinked = u })
      (ap (keep (λ v. not (sel v))) (delete_videos-take sel n s.videos d)
        ∙ keep-not-drop_first sel n s.videos)
      (append_assoc s.unlinked (map (λ v. v.file_path) (take n (keep sel s.videos)))
          (map (λ v. v.file_path) (keep sel (after sel n s).videos))
        ∙ ap (s.unlinked ++◌) (
            ap
              (λ k. map (λ v. v.file_path) (take n (keep sel s.videos)) ++ map (λ v. v.file_path) k)
              (keep-after sel n s d)
            ∙ map-append (take n (keep sel s.videos)) (drop n (keep sel s.videos))
            ∙ ap (map (λ v. v.file_path)) (take-append-drop n (keep sel s.videos))))

length-after :
    (sel : Video → Bool) (n : ℕ) (s : Store)
    → Distinct s.videos
    → length (keep sel (after sel n s).videos) ≡ length (keep sel s.videos) - n
length-after sel n s d = ap length (keep-after sel n s d) ∙ length-drop n (keep sel s.videos)

purge_loop-swept :
    (fuel : ℕ) (sel : Video → Bool) (batch total : ℕ) (s : Store)
    → Distinct s.videos
    → 0 < batch
    → length (keep sel s.videos) < fuel
    → purge_loop fuel sel batch total s ≡ some (total + length (keep sel s.videos), swept sel s)
unfolding purge_loop
purge_loop-swept zero sel batch total s d b h = absurd (omega (arith, h))
purge_loop-swept (suc fuel) sel batch total s d b h =
    let found = take batch (keep sel s.videos) in
    let s' = after sel batch s in
    let size : length found ≡ min batch (length (keep sel s.videos)) =
      length-take batch (keep sel s.videos) in
    elim (Bool-cases (length found == 0)) [
      | inl e ↦ rw e (
          ap₂ (λ n t. some (n, t)) (ground (arith, size))
            (sym (swept-none sel s (ground (arith, size)))))
      | inr e ↦ elim (Bool-cases (ltb (length found) batch)) [
        | inl g ↦ rw e (
            rw g (
              ap₂ (λ n t. some (n, t)) (ground (arith, size))
                (sym (swept-none sel s' (length-after sel batch s d ∙ ground (arith, size)))
                  ∙ swept-after sel batch s d)))
        | inr g ↦ rw e (
            rw g (
              purge_loop-swept fuel sel batch (total + length found) s'
                (Distinct-after sel batch s d) b (ground (arith, size, length-after sel batch s d))
              ∙ ap₂ (λ n t. some (n, t)) (ground (arith, size, length-after sel batch s d))
                  (swept-after sel batch s d)))
      ]
    ]

-- The batched purge is one filter: whatever the size of the batch, `_purge_videos` ends, deletes
-- the selected videos and no others, has passed the path of each to unlink, in order, and counts
-- them, where the ids are distinct and the batch is not empty.
pub purge_videos-swept :
    (sel : Video → Bool) (batch : ℕ) (s : Store)
    → Distinct s.videos
    → 0 < batch
    → purge_videos sel batch s ≡ some (length (keep sel s.videos), swept sel s)
unfolding purge_videos
purge_videos-swept sel batch s d b =
    purge_loop-swept (suc (length s.videos)) sel batch 0 s d b
      (omega (arith, length-keep sel s.videos))
    ∙ ap (λ n. some (n, swept sel s)) (omega arith)
