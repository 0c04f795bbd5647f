-- ===== src/DataPlane/Reputation.antt =====
-- What the data plane makes of a received value: get_sensor_feedback, diff_in_ms and handle_data of
-- src/data_plane/atlas_data_plane.c.
use atlas_client.Prelude.{
  not, ◌&&◌, ℕ, Bool, true, false, Option, none, some, List, [], ◌∷◌, ◌++◌, ℤ, pos, minus_one,
  ◌==ℤ◌, ltb, ◌==◌, if◌then◌else◌, bytes_eq, length, contains,
}
use atlas_client.Telemetry.Payload.{until_nul}
use atlas_client.DataPlane.{
  Doubles, Timespec, Sample, RepInfo, strtok, skip, colon, time_diff, sec_to_ms,
}

-- ATLAS_SENSOR_TEMPERATURE.
abbrev pub temperature : ℕ
temperature = 101

-- The text in the array of 256 bytes, and whether it has no terminator there; `none` where the payload
-- does not fit.
unfoldable pub message_text : List ℕ → Option (Bool × List ℕ)
message_text payload =
    if ltb 256 (length payload)
    then none
    else some (length payload == 256 && not (contains 0 payload), until_nul payload)

-- `strtok` in such a text; `none` where it reads behind the array.
unfoldable pub strtok_in : Bool → List ℕ → Option (Option (List ℕ × List ℕ))
strtok_in no_end text =
    if no_end && not (contains colon (skip colon text)) then none else some (strtok colon text)

module _ {D : Type 0} (fp : Doubles D) where
  unfoldable pub get_sensor_feedback : D → ℕ
  get_sensor_feedback value =
      if fp.less value (fp.tenths 2)
      then 98
      else if fp.less value (fp.tenths 6)
      then 95
      else if fp.less value (fp.tenths 8)
      then 90
      else if fp.less value (fp.tenths 10)
      then 85
      else if fp.less value (fp.tenths 13)
      then 80
      else if fp.less value (fp.tenths 15)
      then 50
      else if fp.less value (fp.tenths 20)
      then 35
      else if fp.less value (fp.tenths 25)
      then 20
      else if fp.less value (fp.tenths 30)
      then 10
      else 0

  -- The score of a distance from the wanted value.
  unfoldable pub distance_score : D → D → ℕ
  distance_score value wanted =
      let d = fp.minus value wanted in
      get_sensor_feedback
        (if fp.less d (fp.of_int (pos 0)) then fp.times d (fp.of_int minus_one) else d)

  unfoldable pub diff_in_ms : Timespec → Timespec → D
  diff_in_ms t1 t2 =
      let (sec, nsec) = time_diff t1 t2 in
      fp.to_long (
        fp.plus (fp.times (fp.of_int sec) (fp.of_int (pos 1000)))
          (fp.divided (fp.of_int (pos nsec)) (fp.of_int (pos 1000000))))

  unfoldable pub time_score : Timespec → Timespec → ℤ → ℕ
  time_score start now window =
      let resp_time = fp.divided (diff_in_ms start now) (fp.of_int (sec_to_ms window)) in
      fp.to_u16 (fp.minus (fp.of_int (pos 100)) (fp.times resp_time (fp.of_int (pos 100))))

  -- Whether the client delivered a value in this window.
  unfoldable pub has_sample : List ℕ → List (Sample D) → Bool
  has_sample clientid [] = false
  has_sample clientid (x ∷ xs) =
      let rest = has_sample clientid xs in
      if bytes_eq clientid x.feedback.identity then true else rest

  -- The element of the first-time client. Its score is what the array's element had, `stale`, where there
  -- is no target. The identity's array has 64 bytes.
  unfoldable pub sample_of : ℕ → Timespec → List ℕ → D → RepInfo D → Sample D
  sample_of stale now clientid value r = record {
    sensor_val = fp.to_float value;
    feedback = record {
      identity = clientid;
      sensor_type = temperature;
      sensor_score =
          if r.target_value ==ℤ minus_one
          then stale
          else distance_score value (fp.of_int r.target_value);
      time_score = time_score r.window_start now r.window_size;
    };
  }

  -- From the test of the window on. The arrays have 256 elements.
  unfoldable pub keep_sample : ℕ → Timespec → List ℕ → D → RepInfo D → Option (RepInfo D)
  keep_sample stale now clientid value r =
      if ltb 256 (length r.samples)
      then some r
      else if has_sample clientid r.samples
      then some r
      else if ltb 255 (length r.samples)
      then none
      else if ltb 63 (length clientid)
      then none
      else some (record r { samples = r.samples ++ sample_of stale now clientid value r ∷ [] })

  -- With the second token, if there is one.
  unfoldable pub value_found :
      ℕ → Timespec → List ℕ → Option (Option (List ℕ × List ℕ)) → RepInfo D → Option (RepInfo D)
  value_found stale now clientid none r = none
  value_found stale now clientid (some none) r = some r
  value_found stale now clientid (some (some (text, rest))) r =
      if r.feedback_active then keep_sample stale now clientid (fp.atof text) r else some r

  -- With the first token.
  unfoldable pub client_found :
      ℕ → Timespec → Bool → Option (Option (List ℕ × List ℕ)) → RepInfo D → Option (RepInfo D)
  client_found stale now no_end none r = none
  client_found stale now no_end (some none) r = some r
  client_found stale now no_end (some (some (clientid, rest))) r =
      value_found stale now clientid (strtok_in no_end rest) r

  unfoldable pub text_found : ℕ → Timespec → Option (Bool × List ℕ) → RepInfo D → Option (RepInfo D)
  text_found stale now none r = none
  text_found stale now (some (no_end, text)) r =
      client_found stale now no_end (strtok_in no_end text) r

  -- The feature is not null here; a payload of no bytes is not handled.
  unfoldable pub handle_data : ℕ → Timespec → List ℕ → RepInfo D → Option (RepInfo D)
  handle_data stale now [] r = some r
  handle_data stale now (b ∷ bs) r = text_found stale now (message_text (b ∷ bs)) r
