-- ===== src/DataPlane/Reports.antt =====
-- The feedback for a window: the scores of reputation_query_task of src/data_plane/atlas_data_plane.c.
use atlas_client.Prelude.{
  ℕ, suc, ◌≤◌, ◌≡◌, refl, ap, ◌∙◌, false, Bool-cases, inl, inr, List, [], ◌∷◌, ℤ, minus_one, ◌==ℤ◌,
  arith, length, All, bytes_eq,
}
use atlas_client.Library.Requests.{Feedback}
use atlas_client.DataPlane.{Doubles, Sample, RepInfo}
use atlas_client.DataPlane.Reputation.{has_sample}
use atlas_client.DataPlane.Scores.{distance_score-le}
use atlas_client.DataPlane.Rounds.{score_each, average, scored, feedback_of}
use atlas_client.DataPlane.Window.{IsOnce, IsSample, IsWindow}

module _ {D : Type 0} (fp : Doubles D) where
  -- The feedback of a window: at most 256 elements, each with an identity that fits its array, none with
  -- that of an earlier one, and with a sensor score of 98 at most.
  abbrev pub IsNew : List ℕ → List Feedback → Type 0
  IsNew id [] = Unit
  IsNew id (f ∷ fs) = (bytes_eq id f.identity ≡ false) × IsNew id fs

  pub record IsFair (f : Feedback) : Type 0 where
    pub fits : length f.identity ≤ 63
    pub score : f.sensor_score ≤ 98

  abbrev pub AreDistinct : List Feedback → Type 0
  AreDistinct [] = Unit
  AreDistinct (f ∷ fs) = IsNew f.identity fs × AreDistinct fs

  pub record IsReport (fs : List Feedback) : Type 0 where
    pub few : length fs ≤ 256
    pub distinct : AreDistinct fs
    pub fair : All IsFair fs

  -- The same identities, one after the other.
  feedback_of-IsNew :
      (id : List ℕ) (xs : List (Sample D))
      → has_sample fp id xs ≡ false
      → IsNew id (feedback_of fp xs)
  unfolding has_sample feedback_of
  feedback_of-IsNew id [] h = tt
  feedback_of-IsNew id (x ∷ xs) h = (ground arith, feedback_of-IsNew id xs (ground arith))

  feedback_of-AreDistinct : (xs : List (Sample D)) → IsOnce fp xs → AreDistinct (feedback_of fp xs)
  unfolding feedback_of
  feedback_of-AreDistinct [] o = tt
  feedback_of-AreDistinct (x ∷ xs) (h, o) =
      (feedback_of-IsNew x.feedback.identity xs h, feedback_of-AreDistinct xs o)

  length-feedback_of : (xs : List (Sample D)) → length (feedback_of fp xs) ≡ length xs
  unfolding feedback_of
  length-feedback_of [] = refl
  length-feedback_of (x ∷ xs) = ap suc (length-feedback_of xs)

  feedback_of-IsFair :
      (target : ℤ) (xs : List (Sample D))
      → (target ==ℤ minus_one) ≡ false
      → All (IsSample fp target) xs
      → All IsFair (feedback_of fp xs)
  unfolding feedback_of
  feedback_of-IsFair target [] given a = tt
  feedback_of-IsFair target (x ∷ xs) given (h, a) =
      (record { fits = h.fits; score = h.score given }, feedback_of-IsFair target xs given a)

  score_each-has_sample :
      (avg : D) (id : List ℕ) (xs : List (Sample D))
      → has_sample fp id (score_each fp avg xs) ≡ has_sample fp id xs
  unfolding has_sample score_each
  score_each-has_sample avg id [] = refl
  score_each-has_sample avg id (x ∷ xs) = rw (score_each-has_sample avg id xs) refl

  score_each-IsOnce :
      (avg : D) (xs : List (Sample D)) → IsOnce fp xs → IsOnce fp (score_each fp avg xs)
  unfolding score_each
  score_each-IsOnce avg [] o = tt
  score_each-IsOnce avg (x ∷ xs) (h, o) =
      (score_each-has_sample avg x.feedback.identity xs ∙ h, score_each-IsOnce avg xs o)

  length-score_each : (avg : D) (xs : List (Sample D)) → length (score_each fp avg xs) ≡ length xs
  unfolding score_each
  length-score_each avg [] = refl
  length-score_each avg (x ∷ xs) = ap suc (length-score_each avg xs)

  score_each-IsFair :
      (target : ℤ) (avg : D) (xs : List (Sample D))
      → All (IsSample fp target) xs
      → All IsFair (feedback_of fp (score_each fp avg xs))
  unfolding score_each feedback_of
  score_each-IsFair target avg [] a = tt
  score_each-IsFair target avg (x ∷ xs) (h, a) = (
    record { fits = h.fits; score = distance_score-le fp x.sensor_val avg },
    score_each-IsFair target avg xs a,
  )

  -- With or without a target.
  pub scored-IsReport : (r : RepInfo D) → IsWindow fp r → IsReport (feedback_of fp (scored fp r))
  unfolding scored
  scored-IsReport r w = elim (Bool-cases (r.target_value ==ℤ minus_one)) [
    | inl e ↦
        let avg = average fp r.samples in
        rw e (record {
          few = omega (
            arith,
            length-feedback_of (score_each fp avg r.samples),
            length-score_each avg r.samples,
            w.few,
          );
          distinct = feedback_of-AreDistinct _ (score_each-IsOnce avg r.samples w.once);
          fair = score_each-IsFair r.target_value avg r.samples w.each;
        })
    | inr e ↦ rw e (record {
      few = omega (arith, length-feedback_of r.samples, w.few);
      distinct = feedback_of-AreDistinct r.samples w.once;
      fair = feedback_of-IsFair r.target_value r.samples e w.each;
    })
  ]
