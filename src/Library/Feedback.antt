-- ===== src/Library/Feedback.antt =====
-- What atlas_reputation_feedback of src/data_plane/atlas_client.c sends, whatever the scores.
use atlas_client.Prelude.{◌≤◌, ◌<◌, ◌≡◌, ◌⊎◌, Bool, ◌||◌, List, [], ◌∷◌, ◌++◌, All, ltb}
use atlas_client.Status.{Status, ok, invalid_input}
use atlas_client.Library.{Kernel, Library}
use atlas_client.Library.Requests.{Feedback, send_feedback_command}

abbrev pub IsValid : Feedback → Type 0
IsValid f = (f.sensor_score ≤ 100) × (f.time_score ≤ 100)

abbrev pub IsOver : Feedback → Type 0
IsOver f = (100 < f.sensor_score) ⊎ (100 < f.time_score)

over : Feedback → Bool
over f = ltb 100 f.sensor_score || ltb 100 f.time_score

module _ (kernel : Kernel) where
  abbrev pub send_each : List Feedback → Library → Library
  send_each [] s = s
  send_each (f ∷ fs) s = send_each fs (send_feedback_command kernel f s).1

  -- What the loop did with these elements.
  pub data Outcome (s : Library) (fs : List Feedback) : Status × Library → Type 0 where
    all_sent : All IsValid fs → Outcome s fs (ok, send_each fs s)
    stopped :
        (before : List Feedback) (f : Feedback) (after : List Feedback)
        → fs ≡ before ++ f ∷ after
        → All IsValid before
        → IsOver f
        → Outcome s fs (invalid_input, send_each before s)
