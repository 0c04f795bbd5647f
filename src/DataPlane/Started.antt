-- ===== src/DataPlane/Started.antt =====
-- The start of the data plane with arguments of the form that the code takes: parse_arguments of
-- src/data_plane/atlas_data_plane.c behind its tests.
mod Examples
use atlas_client.Prelude.{
  ℕ, ◌+◌, ◌≤◌, ◌≡◌, false, List, [], ◌∷◌, ◌++◌, ℤ, minus_one, if◌then◌else◌, length, All, codes,
  bytes_eq,
}
use atlas_client.Library.{Library}
use atlas_client.DataPlane.{Doubles, RepInfo, Plane, data_topic, colon}
use atlas_client.DataPlane.Values.{IsWord}
use atlas_client.DataPlane.Start.{at_least}
use atlas_client.DataPlane.Topics.{joined, Fields, words_of, publishers_from, features_of, Short}

-- A topic that fits the array with its prefix.
abbrev pub Fits : List ℕ → Type 0
Fits w = length w ≤ 244

-- The four texts in the argument of --reputation.
pub record RoundFields : Type 0 where
  pub feature : List ℕ
  pub query : List ℕ
  pub window : List ℕ
  pub target : List ℕ

abbrev pub words_behind : RoundFields → List (List ℕ)
words_behind t = t.query ∷ t.window ∷ t.target ∷ []

abbrev pub reputation_text : RoundFields → List ℕ
reputation_text t = joined colon t.feature (words_behind t)

-- The subscriptions to topics, newest first.
abbrev pub consumed : ℤ → List (List ℕ × ℤ) → List (List ℕ) → List (List ℕ × ℤ)
consumed qos given [] = given
consumed qos given (w ∷ ws) = consumed qos ((data_topic ++ w, qos) ∷ given) ws

module _ {D : Type 0} (atoi : List ℕ → ℤ) (fp : Doubles D) (zero_info : RepInfo D) where
  -- What the texts say of the window.
  abbrev pub rep_info_from : RoundFields → RepInfo D
  rep_info_from t = record zero_info {
    feature = t.feature;
    query_rate = atoi t.query;
    window_size = atoi t.window;
    target_value = if bytes_eq t.target (codes "average") then minus_one else atoi t.target;
  }

  -- Texts of a window that is shorter than the time between two.
  pub record AreRound (t : RoundFields) : Type 0 where
    pub feature_word : IsWord colon t.feature
    pub words : All (IsWord colon) (words_behind t)
    pub short : length t.feature ≤ 31
    pub shorter : at_least (atoi t.window) (atoi t.query) ≡ false

  -- What the texts have to be: publishers, topics and a window.
  pub record AreTexts (f : Fields) (fs : List Fields) (w v : List ℕ) (vs : List (List ℕ))
      (t : RoundFields) (p : Plane D) : Type 0 where
    pub words : All (IsWord colon) (words_of (f ∷ fs))
    pub short : All (Short atoi fp) (f ∷ fs)
    pub room : length p.publish_str + length (f ∷ fs) ≤ 32
    pub topic_word : IsWord colon w
    pub topics : All (IsWord 44) (v ∷ vs)
    pub fits : All Fits (w ∷ v ∷ vs)
    pub round : AreRound t

  -- The state that the texts describe.
  abbrev pub described : Fields → List Fields → List (List ℕ) → ℤ → RoundFields → Plane D → Plane D
  described f fs ws qos t p = record p {
    publish_str = p.publish_str ++ publishers_from atoi fp (f ∷ fs);
    subscribed = consumed qos (features_of p.subscribed (f ∷ fs)) ws;
    rep_info = rep_info_from t;
  }
