-- ===== src/DataPlane/Rounds.antt =====
-- A round of reputation_query_task of src/data_plane/atlas_data_plane.c, with the messages that arrive while
-- it sleeps.
use atlas_client.Prelude.{
  Bool, true, false, Option, none, some, List, [], ◌∷◌, pos, minus_one, ◌==ℤ◌, if◌then◌else◌,
  length,
}
use atlas_client.Library.{Kernel, Library}
use atlas_client.Library.Requests.{Feedback, Reply, reputation_feedback, reputation_request}
use atlas_client.DataPlane.{Doubles, Timespec, Sample, RepInfo, Plane}
use atlas_client.DataPlane.Reputation.{temperature, distance_score}
use atlas_client.DataPlane.Arrivals.{Event, request_reputation_val, events_done}

module _ {D : Type 0} (fp : Doubles D) where
  unfoldable pub sum_from : D → List (Sample D) → D
  sum_from avg [] = avg
  sum_from avg (x ∷ xs) = sum_from (fp.plus avg x.sensor_val) xs

  unfoldable pub average : List (Sample D) → D
  average xs = fp.divided (sum_from (fp.of_int (pos 0)) xs) (fp.of_int (pos (length xs)))

  unfoldable pub score_each : D → List (Sample D) → List (Sample D)
  score_each avg [] = []
  score_each avg (x ∷ xs) =
      record x {
        feedback = record x.feedback { sensor_score = distance_score fp x.sensor_val avg };
      }
      ∷ score_each avg xs

  -- Without a target, the values are compared with their average.
  unfoldable pub scored : RepInfo D → List (Sample D)
  scored r =
      if r.target_value ==ℤ minus_one then score_each (average r.samples) r.samples else r.samples

  unfoldable pub feedback_of : List (Sample D) → List Feedback
  feedback_of [] = []
  feedback_of (x ∷ xs) = x.feedback ∷ feedback_of xs

  -- The feedback is sent where there is some; the status is only printed.
  unfoldable pub send_feedback : Kernel → List Feedback → Library → Library
  send_feedback kernel [] s = s
  send_feedback kernel (f ∷ fs) s = (reputation_feedback kernel (f ∷ fs) s).1

  -- The window begins: it is active first and empty then. What arrives in between is dropped.
  unfoldable pub open_window : Timespec → Plane D → Plane D
  open_window now p = record p { rep_info = record p.rep_info { samples = []; window_start = now } }

  unfoldable pub set_active : Bool → Plane D → Plane D
  set_active b p = record p { rep_info = record p.rep_info { feedback_active = b } }

  -- The request to the client, and the one to the other devices.
  unfoldable pub requested : Reply → Plane D → Plane D
  requested (status, identity, lib) p =
      request_reputation_val fp p.rep_info.feature (record p { library = lib })

  -- Behind the sleep. The samples are given up.
  unfoldable pub close_window : Kernel → Plane D → Plane D
  close_window kernel p =
      let xs = scored p.rep_info in
      record p {
        rep_info = record p.rep_info { samples = [] };
        library = send_feedback kernel (feedback_of xs) p.library;
      }

  -- The state behind the messages of the window, if none of them is a fault.
  unfoldable pub window_over : Kernel → Option (Plane D) → Option (Plane D)
  window_over kernel none = none
  window_over kernel (some p) = some (close_window kernel (set_active false p))

  unfoldable pub window_begun :
      Kernel → Timespec → List (Event D) → Option (Plane D) → Option (Plane D)
  window_begun kernel now during none = none
  window_begun kernel now during (some p) =
      window_over kernel (events_done fp during (some (open_window now p)))

  -- `between` happens before the window is empty, `during` behind that.
  unfoldable pub query_round :
      Kernel → Timespec → List (Event D) → List (Event D) → Plane D → Option (Plane D)
  query_round kernel now between during p =
      let asked = requested (reputation_request kernel temperature (some none) p.library) p in
      window_begun kernel now during (events_done fp between (some (set_active true asked)))
