-- ===== src/DataPlane/Scores.antt =====
-- The bounds of the scores: get_sensor_feedback of src/data_plane/atlas_data_plane.c.
use atlas_client.Prelude.{ℕ, ◌≤◌, Bool, true, false, if◌then◌else◌, arith}
use atlas_client.DataPlane.{Doubles}
use atlas_client.DataPlane.Reputation.{get_sensor_feedback, distance_score}

-- Both branches are bounded.
if-le : (b : Bool) {m n k : ℕ} → m ≤ k → n ≤ k → (if b then m else n) ≤ k
if-le true h h' = h
if-le false h h' = h'

module _ {D : Type 0} (fp : Doubles D) where
  get_sensor_feedback-le : (value : D) → get_sensor_feedback fp value ≤ 98
  unfolding get_sensor_feedback
  get_sensor_feedback-le value = if-le (fp.less value (fp.tenths 2)) (omega arith) (
      if-le (fp.less value (fp.tenths 6)) (omega arith) (
        if-le (fp.less value (fp.tenths 8)) (omega arith) (
          if-le (fp.less value (fp.tenths 10)) (omega arith) (
            if-le (fp.less value (fp.tenths 13)) (omega arith) (
              if-le (fp.less value (fp.tenths 15)) (omega arith) (
                if-le (fp.less value (fp.tenths 20)) (omega arith) (
                  if-le (fp.less value (fp.tenths 25)) (omega arith)
                    (if-le (fp.less value (fp.tenths 30)) (omega arith) (omega arith)))))))))

  pub distance_score-le : (value wanted : D) → distance_score fp value wanted ≤ 98
  unfolding distance_score
  distance_score-le value wanted = get_sensor_feedback-le _
