-- ===== src/Cleaner/Deletion.antt =====
-- What is left of a table of videos after the DELETE of a fetched batch.
use dust_monitoring.Prelude.{
  ℕ, zero, suc, ◌≡◌, refl, ap, ◌∙◌, Bool, true, false, not, List, [], ◌∷◌, any, keep, take, drop,
  ◌==◌, ==_refl, if◌then◌else◌, length, arith, Bool-cases, inl, inr,
}
use dust_monitoring.Cleaner.Videos.{Video, video_ids, delete_videos}

-- The ids of the rows are different.
abbrev pub Distinct : List Video → Type 0
Distinct [] = Unit
Distinct (v ∷ vs) = (any (λ u. u.video_id == v.video_id) vs ≡ false) × Distinct vs

delete_videos-nil : (rows : List Video) → delete_videos [] rows ≡ rows
unfolding delete_videos
delete_videos-nil [] = refl
delete_videos-nil (v ∷ vs) = ap (◌∷◌ v) (delete_videos-nil vs)

delete_videos-fresh :
    (i : ℕ) (ids : List ℕ) (vs : List Video)
    → any (λ u. u.video_id == i) vs ≡ false
    → delete_videos (i ∷ ids) vs ≡ delete_videos ids vs
unfolding delete_videos
delete_videos-fresh i ids [] h = refl
delete_videos-fresh i ids (v ∷ vs) h = ground (arith, delete_videos-fresh i ids vs)

delete_videos-kept :
    (v : Video) (ids : List ℕ) (vs : List Video)
    → any (λ j. j == v.video_id) ids ≡ false
    → delete_videos ids (v ∷ vs) ≡ v ∷ delete_videos ids vs
unfolding delete_videos
delete_videos-kept v ids vs h = rw h refl

delete_videos-dropped :
    (v : Video) (ids : List ℕ) (vs : List Video)
    → delete_videos (v.video_id ∷ ids) (v ∷ vs) ≡ delete_videos (v.video_id ∷ ids) vs
unfolding delete_videos
delete_videos-dropped v ids vs = rw (==_refl v.video_id) refl

module _ (sel : Video → Bool) where
  -- The rows without the first n that are selected.
  pub drop_first : ℕ → List Video → List Video
  drop_first n [] = []
  drop_first zero (v ∷ vs) = v ∷ vs
  drop_first (suc n) (v ∷ vs) = if sel v then drop_first n vs else v ∷ drop_first (suc n) vs

  any-ids :
      (i n : ℕ) (vs : List Video)
      → any (λ u. u.video_id == i) vs ≡ false
      → any (λ j. j == i) (video_ids (take n (keep sel vs))) ≡ false
  any-ids i zero vs h = refl
  any-ids i (suc n) [] h = refl
  any-ids i (suc n) (v ∷ vs) h = ground (arith, any-ids i n vs, any-ids i (suc n) vs)

  keep-yes : (v : Video) (vs : List Video) → sel v ≡ true → keep sel (v ∷ vs) ≡ v ∷ keep sel vs
  keep-yes v vs e = rw e refl

  keep-no : (v : Video) (vs : List Video) → sel v ≡ false → keep sel (v ∷ vs) ≡ keep sel vs
  keep-no v vs e = rw e refl

  pub delete_videos-take :
      (n : ℕ) (rows : List Video)
      → Distinct rows
      → delete_videos (video_ids (take n (keep sel rows))) rows ≡ drop_first n rows
  unfolding drop_first
  delete_videos-take n [] d = unfold delete_videos in refl
  delete_videos-take zero (v ∷ vs) d = delete_videos-nil (v ∷ vs)
  delete_videos-take (suc n) (v ∷ vs) (f, d) = elim (Bool-cases (sel v)) [
    | inl e ↦
        ap (λ q. delete_videos (video_ids (take (suc n) q)) (v ∷ vs)) (keep-yes v vs e)
        ∙ delete_videos-dropped v (video_ids (take n (keep sel vs))) vs
        ∙ delete_videos-fresh v.video_id (video_ids (take n (keep sel vs))) vs f
        ∙ delete_videos-take n vs d
        ∙ rw e refl
    | inr e ↦
        ap (λ q. delete_videos (video_ids (take (suc n) q)) (v ∷ vs)) (keep-no v vs e)
        ∙ delete_videos-kept v (video_ids (take (suc n) (keep sel vs))) vs
            (any-ids v.video_id (suc n) vs f)
        ∙ ap (◌∷◌ v) (delete_videos-take (suc n) vs d)
        ∙ rw e refl
  ]

  pub keep-drop_first :
      (n : ℕ) (rows : List Video) → keep sel (drop_first n rows) ≡ drop n (keep sel rows)
  unfolding drop_first
  keep-drop_first zero [] = refl
  keep-drop_first (suc n) [] = refl
  keep-drop_first zero (v ∷ vs) = refl
  keep-drop_first (suc n) (v ∷ vs) =
      ground (arith, keep-drop_first n vs, keep-drop_first (suc n) vs)

  pub keep-not-drop_first :
      (n : ℕ) (rows : List Video)
      → keep (λ v. not (sel v)) (drop_first n rows) ≡ keep (λ v. not (sel v)) rows
  unfolding drop_first
  keep-not-drop_first n [] = refl
  keep-not-drop_first zero (v ∷ vs) = refl
  keep-not-drop_first (suc n) (v ∷ vs) =
      ground (arith, keep-not-drop_first n vs, keep-not-drop_first (suc n) vs)

  any-drop_first :
      (i n : ℕ) (rows : List Video)
      → any (λ u. u.video_id == i) rows ≡ false
      → any (λ u. u.video_id == i) (drop_first n rows) ≡ false
  unfolding drop_first
  any-drop_first i n [] h = refl
  any-drop_first i zero (v ∷ vs) h = h
  any-drop_first i (suc n) (v ∷ vs) h =
      ground (arith, any-drop_first i n vs, any-drop_first i (suc n) vs)

  pub Distinct-drop_first :
      (n : ℕ) (rows : List Video) → Distinct rows → Distinct (drop_first n rows)
  unfolding drop_first
  Distinct-drop_first n [] d = tt
  Distinct-drop_first zero (v ∷ vs) d = d
  Distinct-drop_first (suc n) (v ∷ vs) (f, d) = elim (Bool-cases (sel v)) [
    | inl e ↦ rw e (Distinct-drop_first n vs d)
    | inr e ↦ rw e (any-drop_first v.video_id (suc n) vs f, Distinct-drop_first (suc n) vs d)
  ]

  pub keep-none :
      (rows : List Video) → length (keep sel rows) ≡ 0 → keep (λ v. not (sel v)) rows ≡ rows
  keep-none [] h = refl
  keep-none (v ∷ vs) h = ground (arith, keep-none vs)
