-- ===== src/DataPlane/Started/Examples.antt =====
-- Tests of the data plane's arguments.
use atlas_client.Prelude.{
  ◌≡◌, refl, false, some, List, [], ◌∷◌, ◌++◌, ℕ, pos, codes, arith, All, contains,
}
use atlas_client.DataPlane.{colon}
use atlas_client.DataPlane.Values.{IsWord}
use atlas_client.DataPlane.Options.{Given, nothing_given}
use atlas_client.DataPlane.Started.{RoundFields, reputation_text}
use atlas_client.DataPlane.Start.{consume_topics, traffic_generator, started}
use atlas_client.DataPlane.Topics.{
  joined, consume_topics-joined, Fields, publish_text, traffic_generator-started, publishers_from,
  features_of, words_of,
}
use atlas_client.DataPlane.Samples.{consumer, number, tenths}

consume_topics-joined_example :
    consume_topics (codes "a" ++ colon ∷ joined 44 (codes "b:c") (codes "d" ∷ []))
    ≡ codes "atlas/data/a" ∷ codes "atlas/data/b:c" ∷ codes "atlas/data/d" ∷ []
consume_topics-joined_example =
    consume_topics-joined (codes "a") (codes "b:c") (codes "d" ∷ [])
      (record { solid = refl; nonempty = λ e. cc }) (record { solid = refl; nonempty = λ e. cc })
      (record { solid = refl; nonempty = λ e. cc }, tt)

abbrev temp_fields : Fields
temp_fields = record {
  feature = codes "temp";
  rate = codes "5";
  base = codes "2";
  deviation = codes "1";
  qos = codes "1";
  len = codes "default";
}

-- A text of letters and digits.
solid-IsWord : (c : ℕ) (cs : List ℕ) → contains colon (c ∷ cs) ≡ false → IsWord colon (c ∷ cs)
solid-IsWord c cs solid = record { solid = solid; nonempty = λ e. cc }

words_of-IsWord : All (IsWord colon) (words_of (temp_fields ∷ temp_fields ∷ []))
words_of-IsWord = (
  solid-IsWord _ _ refl,
  (
    solid-IsWord _ _ refl,
    (
      solid-IsWord _ _ refl,
      (
        solid-IsWord _ _ refl,
        (
          solid-IsWord _ _ refl,
          (
            solid-IsWord _ _ refl,
            (
              solid-IsWord _ _ refl,
              (
                solid-IsWord _ _ refl,
                (
                  solid-IsWord _ _ refl,
                  (solid-IsWord _ _ refl, (solid-IsWord _ _ refl, (solid-IsWord _ _ refl, tt))),
                ),
              ),
            ),
          ),
        ),
      ),
    ),
  ),
)

traffic_generator-started_test :
    traffic_generator number tenths (publish_text temp_fields (temp_fields ∷ [])) consumer
    ≡ started (record consumer {
      publish_str = publishers_from number tenths (temp_fields ∷ temp_fields ∷ []);
      subscribed = features_of [] (temp_fields ∷ temp_fields ∷ []);
    })
traffic_generator-started_test =
    traffic_generator-started number tenths temp_fields (temp_fields ∷ []) consumer words_of-IsWord
      (omega arith, (omega arith, tt)) (omega arith)

abbrev temp_round : RoundFields
temp_round = record {
  feature = codes "temp";
  query = codes "9";
  window = codes "3";
  target = codes "average";
}

abbrev temp_given : Given
temp_given = record nothing_given {
  reputation_arg = some (reputation_text temp_round);
  qos = pos 1;
}
