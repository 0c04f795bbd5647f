-- ===== src/DataPlane/Window.antt =====
-- The feedback window: what handle_data of src/data_plane/atlas_data_plane.c keeps of a sample, and when.
use atlas_client.Prelude.{
  ℕ, ◌≤◌, ◌≡◌, refl, ◌∙◌, Bool, true, false, Option, none, some, List, [], ◌∷◌, ◌++◌, ℤ, minus_one,
  ◌==ℤ◌, ltb, ltb→le, arith, if◌then◌else◌, bytes_eq, bytes_eq_comm, length, length-append, All,
  All-append,
}
use mathlib.Core.Option.{some-injective}
use mathlib.Core.Path.{subst}
use atlas_client.DataPlane.{Doubles, Timespec, Sample, RepInfo}
use atlas_client.DataPlane.Reputation.{
  has_sample, sample_of, keep_sample, value_found, client_found, text_found, handle_data,
}
use atlas_client.DataPlane.Scores.{distance_score-le}

module _ {D : Type 0} (fp : Doubles D) where
  -- No identity twice.
  abbrev pub IsOnce : List (Sample D) → Type 0
  IsOnce [] = Unit
  IsOnce (x ∷ xs) = (has_sample fp x.feedback.identity xs ≡ false) × IsOnce xs

  -- An identity that fits its array, and a score of the target, where there is one.
  pub record IsSample (target : ℤ) (x : Sample D) : Type 0 where
    pub fits : length x.feedback.identity ≤ 63
    pub score : (target ==ℤ minus_one) ≡ false → x.feedback.sensor_score ≤ 98

  pub record IsWindow (r : RepInfo D) : Type 0 where
    pub once : IsOnce r.samples
    pub few : length r.samples ≤ 256
    pub each : All (IsSample r.target_value) r.samples

  has_sample-append :
      (id : List ℕ) (xs : List (Sample D)) (y : Sample D)
      → has_sample fp id xs ≡ false
      → bytes_eq id y.feedback.identity ≡ false
      → has_sample fp id (xs ++ y ∷ []) ≡ false
  unfolding has_sample
  has_sample-append id [] y h d = rw d refl
  has_sample-append id (x ∷ xs) y h d = ground (arith, has_sample-append id xs y)

  IsOnce-append :
      (xs : List (Sample D)) (y : Sample D)
      → IsOnce xs
      → has_sample fp y.feedback.identity xs ≡ false
      → IsOnce (xs ++ y ∷ [])
  unfolding has_sample
  IsOnce-append [] y o h = (refl, tt)
  IsOnce-append (x ∷ xs) y o h =
      let other : bytes_eq y.feedback.identity x.feedback.identity ≡ false = ground arith in
      let behind : has_sample fp y.feedback.identity xs ≡ false = ground arith in
      (
        has_sample-append x.feedback.identity xs y o.0
            (bytes_eq_comm x.feedback.identity y.feedback.identity ∙ other),
        IsOnce-append xs y o.1 behind,
      )

  -- A result that is a window, where there is one.
  abbrev pub GivesWindow : Option (RepInfo D) → Type 0
  GivesWindow none = Unit
  GivesWindow (some r) = IsWindow r

  if-GivesWindow :
      (b : Bool) (o o' : Option (RepInfo D))
      → (b ≡ true → GivesWindow o)
      → (b ≡ false → GivesWindow o')
      → GivesWindow (if b then o else o')
  if-GivesWindow true o o' h h' = h refl
  if-GivesWindow false o o' h h' = h' refl

  sample_of-IsSample :
      (stale : ℕ) (now : Timespec) (id : List ℕ) (value : D) (r : RepInfo D)
      → length id ≤ 63
      → IsSample r.target_value (sample_of fp stale now id value r)
  unfolding sample_of
  sample_of-IsSample stale now id value r short = record {
    fits = short;
    score = λ target. rw target (distance_score-le fp value _);
  }

  keep_sample-GivesWindow :
      (stale : ℕ) (now : Timespec) (id : List ℕ) (value : D) (r : RepInfo D)
      → IsWindow r
      → GivesWindow (keep_sample fp stale now id value r)
  unfolding keep_sample
  keep_sample-GivesWindow stale now id value r w =
      if-GivesWindow (ltb 256 (length r.samples)) _ _ (λ e. w)
        (λ e.
          if-GivesWindow (has_sample fp id r.samples) _ _ (λ e'. w)
            (λ new.
              if-GivesWindow (ltb 255 (length r.samples)) _ _ (λ e'. tt)
                (λ room.
                  if-GivesWindow (ltb 63 (length id)) _ _ (λ e'. tt)
                    (λ short.
                      let x = sample_of fp stale now id value r in
                      record {
                        once = IsOnce-append r.samples x w.once (unfold sample_of in new);
                        few = omega (
                          arith,
                          length-append r.samples (x ∷ []),
                          ltb→le 255 (length r.samples) room,
                        );
                        each = All-append (IsSample r.target_value) r.samples (x ∷ []) w.each (
                          sample_of-IsSample stale now id value r (ltb→le 63 (length id) short),
                          tt,
                        );
                      }))))

  value_found-GivesWindow :
      (stale : ℕ) (now : Timespec) (id : List ℕ) (found : Option (Option (List ℕ × List ℕ)))
      (r : RepInfo D)
      → IsWindow r
      → GivesWindow (value_found fp stale now id found r)
  unfolding value_found
  value_found-GivesWindow stale now id none r w = tt
  value_found-GivesWindow stale now id (some none) r w = w
  value_found-GivesWindow stale now id (some (some (text, rest))) r w =
      if-GivesWindow r.feedback_active _ _
        (λ e. keep_sample-GivesWindow stale now id (fp.atof text) r w) (λ e. w)

  client_found-GivesWindow :
      (stale : ℕ) (now : Timespec) (no_end : Bool) (found : Option (Option (List ℕ × List ℕ)))
      (r : RepInfo D)
      → IsWindow r
      → GivesWindow (client_found fp stale now no_end found r)
  unfolding client_found
  client_found-GivesWindow stale now no_end none r w = tt
  client_found-GivesWindow stale now no_end (some none) r w = w
  client_found-GivesWindow stale now no_end (some (some (id, rest))) r w =
      value_found-GivesWindow stale now id _ r w

  text_found-GivesWindow :
      (stale : ℕ) (now : Timespec) (text : Option (Bool × List ℕ)) (r : RepInfo D)
      → IsWindow r
      → GivesWindow (text_found fp stale now text r)
  unfolding text_found
  text_found-GivesWindow stale now none r w = tt
  text_found-GivesWindow stale now (some (no_end, text)) r w =
      client_found-GivesWindow stale now no_end _ r w

  GivesWindow-some :
      (o : Option (RepInfo D)) {r : RepInfo D} → GivesWindow o → o ≡ some r → IsWindow r
  GivesWindow-some none g e = cc
  GivesWindow-some (some q) {r} g e = subst IsWindow (some-injective q r e) g

  -- Whatever bytes arrive, where handling them is no fault the window keeps one value at most of each
  -- identity, 256 together, each with an identity that fits its array and, where there is a target, with
  -- a sensor score of 98 at most.
  pub handle_data-IsWindow :
      (stale : ℕ) (now : Timespec) (payload : List ℕ) (r r' : RepInfo D)
      → IsWindow r
      → handle_data fp stale now payload r ≡ some r'
      → IsWindow r'
  unfolding handle_data
  handle_data-IsWindow stale now [] r r' w e = subst IsWindow (some-injective r r' e) w
  handle_data-IsWindow stale now (b ∷ bs) r r' w e =
      GivesWindow-some _ (text_found-GivesWindow stale now _ r w) e
