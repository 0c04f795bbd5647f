-- ===== src/DataPlane/Examples.antt =====
-- Tests of the data plane's messages and rounds.
use atlas_client.Prelude.{
  ◌≡◌, refl, false, Option, none, some, List, [], ◌∷◌, ◌++◌, ℕ, codes, arith, zero, suc,
}
use atlas_client.DataPlane.{Sample, RepInfo, Plane, request_topic, data_topic, colon}
use atlas_client.DataPlane.Reputation.{has_sample, sample_of, handle_data}
use atlas_client.DataPlane.Arrivals.{
  Event, arrives, msgarrvd, request_reputation_val, publisher_of, random_number_generator,
}
use atlas_client.DataPlane.Rounds.{query_round}
use atlas_client.DataPlane.Values.{IsValue, window_overrun}
use atlas_client.DataPlane.Exchange.{
  Answers, Stores, request-answered, request_message, generated_message, answered_state,
  sampled_state,
}
use atlas_client.DataPlane.Samples.{
  consumer, noon, producer, silent_client, temperatures, tenths, thermometer,
}

it-IsValue : IsValue (codes "it") (49 ∷ []) temperatures
it-IsValue = record {
  id_word = record { solid = refl; nonempty = λ e. cc };
  text_word = record { solid = refl; nonempty = λ e. cc };
  no_zero = refl;
  short = omega arith;
  active = refl;
}

it-Answers : Answers tenths (codes "it") (codes "temp") 0 thermometer producer
unfolding publisher_of random_number_generator
it-Answers = record { publisher = refl; simulated = refl; identity = refl; room = omega arith }

it-Stores : Stores tenths (codes "it") (49 ∷ []) consumer
unfolding has_sample
it-Stores = record { value = it-IsValue; new = refl; room = omega arith; fits = omega arith }

request-answered_example :
    (request_reputation_val tenths (codes "temp") consumer
      ≡ record consumer { published = request_message tenths (codes "temp") ∷ [] })
    × (msgarrvd tenths 0 0 noon (request_topic ++ codes "temp") (codes "REQUEST") producer
        ≡ some
            (answered_state tenths (generated_message tenths (codes "it") 0 thermometer) producer))
    × (msgarrvd tenths 7 0 noon
          (data_topic ++ codes "temp")
          (codes "it" ++ colon ∷ 49 ∷ [])
          consumer
        ≡ some (
            sampled_state tenths 4 (sample_of tenths 0 noon (codes "it") 10 temperatures) consumer))
unfolding random_number_generator
request-answered_example =
    request-answered tenths 0 7 0 noon noon (codes "it") (codes "temp") thermometer consumer
      producer it-Answers it-Stores

abbrev copies : ℕ → Sample ℕ → List (Sample ℕ)
copies zero x = []
copies (suc n) x = x ∷ copies n x

abbrev crowded : RepInfo ℕ
crowded = record temperatures {
  samples = copies 256 (record {
    sensor_val = 3;
    feedback = record {
      identity = codes "a";
      sensor_type = 101;
      sensor_score = 90;
      time_score = 50;
    };
  });
}

it-crowded-IsValue : IsValue (codes "it") (49 ∷ []) crowded
it-crowded-IsValue = record {
  id_word = it-IsValue.id_word;
  text_word = it-IsValue.text_word;
  no_zero = refl;
  short = omega arith;
  active = refl;
}

it_new : has_sample tenths (codes "it") crowded.samples ≡ false
unfolding has_sample
it_new = refl

window_overrun_example : handle_data tenths 0 noon (codes "it" ++ colon ∷ 49 ∷ []) crowded ≡ none
window_overrun_example =
    window_overrun tenths 0 noon (codes "it") (49 ∷ []) crowded it-crowded-IsValue it_new refl

abbrev it_message : Event ℕ
it_message = arrives 7 0 noon (codes "atlas/data/temp") (codes "it:1")

abbrev round_start : Plane ℕ
round_start = record consumer { rep_info = record temperatures { feedback_active = false } }

-- The state, or the one given where there was a fault.
abbrev or_else : Plane ℕ → Option (Plane ℕ) → Plane ℕ
or_else p none = p
or_else p (some q) = q

abbrev round_end : Plane ℕ
round_end =
    or_else consumer (query_round tenths silent_client noon [] (it_message ∷ []) round_start)
