-- ===== src/DataPlane/Topics.antt =====
-- The words of an argument, and what the data plane makes of them: traffic_generator and subscribe_topics
-- of src/data_plane/atlas_data_plane.c.
use atlas_client.Prelude.{
  ℕ, zero, suc, ◌+◌, ◌≤◌, ◌<◌, ◌≡◌, refl, sym, ap, ◌∙◌, none, List, [], ◌∷◌, ◌++◌, ℤ, pos, le→ltb,
  arith, if◌then◌else◌, length, length-append, All, append_assoc, append-nil, codes, bytes_eq,
}
use atlas_client.DataPlane.{Doubles, Publisher, Plane, request_topic, data_topic, strtok, colon}
use atlas_client.DataPlane.Values.{IsWord, strtok-append, strtok-end}
use atlas_client.DataPlane.Start.{
  started, tokens_from, tokens_from, tokens, subscribe_each, consume_topics, generate_each,
  traffic_generator, allocated,
}

-- Words with a delimiter between them.
abbrev pub joined : ℕ → List ℕ → List (List ℕ) → List ℕ
joined d w [] = w
joined d w (v ∷ vs) = w ++ d ∷ joined d v vs

strtok-nil : (d : ℕ) → strtok d [] ≡ none
unfolding strtok atlas_client.DataPlane.strtok_from atlas_client.DataPlane.skip
strtok-nil d = refl

tokens_from-nil : (n d : ℕ) → tokens_from n d (strtok d []) ≡ []
unfolding tokens_from
tokens_from-nil zero d = refl
tokens_from-nil (suc n) d = rw (strtok-nil d) refl

tokens_from-joined :
    (n d : ℕ) (w : List ℕ) (ws : List (List ℕ))
    → IsWord d w
    → All (IsWord d) ws
    → length ws < n
    → tokens_from n d (strtok d (joined d w ws)) ≡ w ∷ ws
unfolding tokens_from
tokens_from-joined zero d w ws h hs enough = absurd (omega arith)
tokens_from-joined (suc n) d w [] h hs enough = rw (strtok-end d w h, tokens_from-nil n d) refl
tokens_from-joined (suc n) d w (v ∷ vs) h (h', hs) enough =
    rw (strtok-append d w (joined d v vs) h, tokens_from-joined n d v vs h' hs (omega arith)) refl

length-joined : (d : ℕ) (w : List ℕ) (ws : List (List ℕ)) → length ws ≤ length (joined d w ws)
length-joined d w [] = omega arith
length-joined d w (v ∷ vs) =
    omega (arith, length-append w (d ∷ joined d v vs), length-joined d v vs)

-- Words with a delimiter between them are the tokens of the text that they make.
pub tokens-joined :
    (d : ℕ) (w : List ℕ) (ws : List (List ℕ))
    → IsWord d w
    → All (IsWord d) ws
    → tokens d (joined d w ws) ≡ w ∷ ws
unfolding tokens
tokens-joined d w ws h hs = tokens_from-joined _ d w ws h hs (omega (arith, length-joined d w ws))

-- The topics of words.
abbrev pub data_topics : List (List ℕ) → List (List ℕ)
data_topics [] = []
data_topics (w ∷ ws) = (data_topic ++ w) ∷ data_topics ws

subscribe_each-nil : (n : ℕ) → subscribe_each n (strtok 44 []) ≡ []
unfolding subscribe_each
subscribe_each-nil zero = refl
subscribe_each-nil (suc n) = rw (strtok-nil 44) refl

subscribe_each-joined :
    (n : ℕ) (w : List ℕ) (ws : List (List ℕ))
    → IsWord 44 w
    → All (IsWord 44) ws
    → length ws < n
    → subscribe_each n (strtok 44 (joined 44 w ws)) ≡ data_topics (w ∷ ws)
unfolding subscribe_each
subscribe_each-joined zero w ws h hs enough = absurd (omega arith)
subscribe_each-joined (suc n) w [] h hs enough = rw (strtok-end 44 w h, subscribe_each-nil n) refl
subscribe_each-joined (suc n) w (v ∷ vs) h (h', hs) enough =
    rw (strtok-append 44 w (joined 44 v vs) h, subscribe_each-joined n v vs h' hs (omega arith))
      refl

-- Of a topic, a colon and topics with commas between them, each is subscribed as it stands. The topics
-- behind the first one may have colons in them, which divide nothing.
pub consume_topics-joined :
    (w v : List ℕ) (vs : List (List ℕ))
    → IsWord colon w
    → IsWord 44 v
    → All (IsWord 44) vs
    → consume_topics (w ++ colon ∷ joined 44 v vs) ≡ data_topics (w ∷ v ∷ vs)
unfolding consume_topics subscribe_each
consume_topics-joined w v vs h h' hs =
    rw
      (
        strtok-append colon w (joined 44 v vs) h,
        subscribe_each-joined (length (w ++ colon ∷ joined 44 v vs)) v vs h' hs
            (omega (arith, length-append w (colon ∷ joined 44 v vs), length-joined 44 v vs)),
      )
      refl

-- The six texts of a publisher in the argument of --publish.
pub record Fields : Type 0 where
  pub feature : List ℕ
  pub rate : List ℕ
  pub base : List ℕ
  pub deviation : List ℕ
  pub qos : List ℕ
  pub len : List ℕ

abbrev pub words_behind : Fields → List (List ℕ) → List (List ℕ)
words_behind f more = f.rate ∷ f.base ∷ f.deviation ∷ f.qos ∷ f.len ∷ more

abbrev pub words_of : List Fields → List (List ℕ)
words_of [] = []
words_of (f ∷ fs) = f.feature ∷ words_behind f (words_of fs)

-- The argument of --publish for a publisher and more of them.
abbrev pub publish_text : Fields → List Fields → List ℕ
publish_text f fs = joined colon f.feature (words_behind f (words_of fs))

abbrev pub features_of : List (List ℕ × ℤ) → List Fields → List (List ℕ × ℤ)
features_of given [] = given
features_of given (f ∷ fs) = features_of ((request_topic ++ f.feature, pos 2) ∷ given) fs

module _ {D : Type 0} (atoi : List ℕ → ℤ) (fp : Doubles D) where
  abbrev pub publisher_from : Fields → Publisher D
  publisher_from f = record {
    feature = f.feature;
    publish_rate = atoi f.rate;
    base_value = fp.to_float (fp.atof f.base);
    deviation = fp.to_float (fp.atof f.deviation);
    qos = atoi f.qos;
    packet_length = if bytes_eq f.len (codes "default") then pos 0 else atoi f.len;
    buffer = if bytes_eq f.len (codes "default") then 257 else allocated (atoi f.len);
  }

  abbrev pub publishers_from : List Fields → List (Publisher D)
  publishers_from [] = []
  publishers_from (f ∷ fs) = publisher_from f ∷ publishers_from fs

  abbrev pub Short : Fields → Type 0
  Short f = length f.feature ≤ 31

  generate_each-words :
      (fs : List Fields) (p : Plane D)
      → All Short fs
      → length p.publish_str + length fs ≤ 32
      → generate_each atoi fp (words_of fs) p
        ≡ started (record p {
          publish_str = p.publish_str ++ publishers_from fs;
          subscribed = features_of p.subscribed fs;
        })
  unfolding generate_each
  generate_each-words [] p short room =
      ap (λ xs. started (record p { publish_str = xs })) (sym (append-nil p.publish_str))
  generate_each-words (f ∷ fs) p (h, hs) room =
      let p' = record p {
        publish_str = p.publish_str ++ publisher_from f ∷ [];
        subscribed = (request_topic ++ f.feature, pos 2) ∷ p.subscribed;
      } in
      let room' : length p'.publish_str + length fs ≤ 32 =
        omega (arith, length-append p.publish_str (publisher_from f ∷ [])) in
      rw (le→ltb 31 (length f.feature) h, le→ltb 31 (length p.publish_str) (omega arith))
        (generate_each-words fs p' hs room'
          ∙ ap
              (λ xs.
                started
                  (record p { publish_str = xs; subscribed = features_of p.subscribed (f ∷ fs) }))
              (append_assoc p.publish_str (publisher_from f ∷ []) (publishers_from fs)))

  -- The argument of --publish for 32 publishers at most, each with a feature of 31 bytes at most and no text
  -- that is empty or has a colon, sets their elements in this order, with the numbers that are read from
  -- the texts, and subscribes to the requests of each feature.
  pub traffic_generator-started :
      (f : Fields) (fs : List Fields) (p : Plane D)
      → All (IsWord colon) (words_of (f ∷ fs))
      → All Short (f ∷ fs)
      → length p.publish_str + length (f ∷ fs) ≤ 32
      → traffic_generator atoi fp (publish_text f fs) p
        ≡ started (record p {
          publish_str = p.publish_str ++ publishers_from (f ∷ fs);
          subscribed = features_of p.subscribed (f ∷ fs);
        })
  unfolding traffic_generator
  traffic_generator-started f fs p (h, hs) short room =
      ap (λ ws. generate_each atoi fp ws p)
        (tokens-joined colon f.feature (words_behind f (words_of fs)) h hs)
      ∙ generate_each-words (f ∷ fs) p short room
