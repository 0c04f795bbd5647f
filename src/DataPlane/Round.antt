-- ===== src/DataPlane/Round.antt =====
-- A round of reputation_query_task of src/data_plane/atlas_data_plane.c: what happens in it, and what it sends
-- as feedback.
use atlas_client.Prelude.{
  ◌≡◌, Bool, true, false, Option, none, some, List, [], ◌∷◌, ◌++◌, pos, minus_one, ◌==ℤ◌, length,
  map, codes,
}
use atlas_client.DataPlane.Reputation.{distance_score, temperature}
use atlas_client.Library.{Kernel, Library}
use atlas_client.Library.Requests.{Feedback, reputation_feedback, reputation_request}
use atlas_client.DataPlane.{Doubles, Timespec, Sample, RepInfo, Plane, request_topic}
use atlas_client.DataPlane.Arrivals.{Event, events_done}
use atlas_client.DataPlane.Reports.{IsReport}

module _ {D : Type 0} (fp : Doubles D) where
  -- The sum of the values, and their mean.
  abbrev total : D → List (Sample D) → D
  total sum [] = sum
  total sum (x ∷ xs) = total (fp.plus sum x.sensor_val) xs

  abbrev pub mean : List (Sample D) → D
  mean xs = fp.divided (total (fp.of_int (pos 0)) xs) (fp.of_int (pos (length xs)))

  -- The feedback for a sample: as it was stored, or with the score of the distance from the mean.
  abbrev pub report_of : Bool → List (Sample D) → Sample D → Feedback
  report_of true xs x = record x.feedback {
    sensor_score = distance_score fp x.sensor_val (mean xs);
  }
  report_of false xs x = x.feedback

  -- The scores are those of the mean where there is no target.
  abbrev pub report : RepInfo D → List Feedback
  report r = map (report_of (r.target_value ==ℤ minus_one) r.samples) r.samples

  -- The library behind the sending of feedback, if there is some.
  abbrev pub told : Kernel → List Feedback → Library → Library
  told kernel [] s = s
  told kernel (f ∷ fs) s = (reputation_feedback kernel (f ∷ fs) s).1

  -- The state in which the window is active: the client and the other devices are asked.
  abbrev pub asked : Kernel → Plane D → Plane D
  asked kernel p = record p {
    rep_info = record p.rep_info { feedback_active = true };
    published =
        record {
          topic = request_topic ++ p.rep_info.feature;
          payload = codes "REQUEST";
          qos = pos 2;
        }
        ∷ p.published;
    library = (reputation_request kernel temperature (some none) p.library).2;
  }

  -- A round from `p` to `p'`: `begun` is the state when the window is emptied, and `collected` the one when
  -- it ends.
  pub record IsRound (kernel : Kernel) (now : Timespec) (between during : List (Event D))
      (p p' : Plane D) : Type 0 where
    pub begun : Plane D
    pub collected : Plane D
    pub began : events_done fp between (some (asked kernel p)) ≡ some begun
    pub gathered :
        events_done fp during (
          some (record begun {
            rep_info = record begun.rep_info { samples = []; window_start = now };
          }))
        ≡ some collected
    pub fair_report : IsReport fp (report collected.rep_info)
    pub left : p' ≡ record collected {
      rep_info = record collected.rep_info { feedback_active = false; samples = [] };
      library = told kernel (report collected.rep_info) collected.library;
    }
