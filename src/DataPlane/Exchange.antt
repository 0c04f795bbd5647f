-- ===== src/DataPlane/Exchange.antt =====
-- A value from the device that publishes it to the one that consumes it: publish_feature_value and msgarrvd
-- of src/data_plane/atlas_data_plane.c.
use atlas_client.Prelude.{
  ℕ, ◌≤◌, ◌<◌, ◌≡◌, refl, ap, ◌∙◌, false, some, List, [], ◌∷◌, ◌++◌, pos, lt→ltb, length, codes,
}
use atlas_client.Library.{pkt_received}
use atlas_client.DataPlane.{
  Doubles, Timespec, Publisher, Sample, Publication, Plane, request_topic, data_topic, colon,
}
use atlas_client.DataPlane.Reputation.{has_sample, sample_of, handle_data}
use atlas_client.DataPlane.Arrivals.{
  publish, identity_text, publish_payload, publish_with, publish_feature_value,
  random_number_generator, request_reputation_val, with_rep_info, msgarrvd, publisher_of,
  publish_found, handle_publish_req,
}
use atlas_client.DataPlane.Values.{IsValue, handle_data-sampled}

module _ {D : Type 0} (fp : Doubles D) where
  -- The publication of a value.
  abbrev pub value_message : List ℕ → D → Publisher D → Publication
  value_message id value x = record {
    topic = data_topic ++ x.feature;
    payload = id ++ colon ∷ fp.print value;
    qos = x.qos;
  }

  -- The value that is generated.
  abbrev pub generated_value : D → Publisher D → D
  generated_value fraction x = random_number_generator fp fraction x.base_value x.deviation

  publish_feature_value-value_message :
      (fraction : D) (x : Publisher D) (id : List ℕ) (p : Plane D)
      → x.packet_length ≡ pos 0
      → p.identity ≡ some id
      → length (id ++ colon ∷ fp.print (generated_value fraction x)) < x.buffer
      → publish_feature_value fp fraction x p
        ≡ some
            (record p { published = value_message id (generated_value fraction x) x ∷ p.published })
  unfolding publish_feature_value publish_payload publish_with publish identity_text
  publish_feature_value-value_message fraction x id p zero_len known room =
      let text = id ++ colon ∷ fp.print (generated_value fraction x) in
      rw (zero_len, known, lt→ltb (length text) x.buffer room) refl

  msgarrvd-handle_data :
      (value : D) (stale : ℕ) (now : Timespec) (feature payload : List ℕ) (q : Plane D)
      → msgarrvd fp value stale now (data_topic ++ feature) payload q
        ≡ with_rep_info fp
            (record q { library = pkt_received (length payload) q.library })
            (handle_data fp stale now payload q.rep_info)
  unfolding msgarrvd
  msgarrvd-handle_data value stale now feature payload q = refl

  -- The state behind a message of `n` bytes, with a sample more.
  abbrev pub sampled_state : ℕ → Sample D → Plane D → Plane D
  sampled_state n y q = record q {
    library = pkt_received n q.library;
    rep_info = record q.rep_info { samples = q.rep_info.samples ++ y ∷ [] };
  }

  value_message-sampled :
      (value : D) (stale : ℕ) (now : Timespec) (feature id text : List ℕ) (q : Plane D)
      → IsValue id text q.rep_info
      → has_sample fp id q.rep_info.samples ≡ false
      → length q.rep_info.samples ≤ 255
      → length id ≤ 63
      → msgarrvd fp value stale now (data_topic ++ feature) (id ++ colon ∷ text) q
        ≡ some (
            sampled_state
              (length (id ++ colon ∷ text))
              (sample_of fp stale now id (fp.atof text) q.rep_info)
              q)
  unfolding with_rep_info
  value_message-sampled value stale now feature id text q v new room fits =
      msgarrvd-handle_data value stale now feature (id ++ colon ∷ text) q
      ∙ ap
          (with_rep_info fp
            (record q { library = pkt_received (length (id ++ colon ∷ text)) q.library }))
          (handle_data-sampled fp stale now id text q.rep_info v new room fits)

  -- The request for a feature.
  abbrev pub request_message : List ℕ → Publication
  request_message feature = record {
    topic = request_topic ++ feature;
    payload = codes "REQUEST";
    qos = pos 2;
  }

  -- The state behind an answered request.
  abbrev pub answered_state : Publication → Plane D → Plane D
  answered_state m q = record q { library = pkt_received 7 q.library; published = m ∷ q.published }

  publish_found-some :
      (value : D) (feature : List ℕ) (x : Publisher D) (q : Plane D)
      → publish_found fp value feature (some x) q ≡ publish_feature_value fp value x q
  unfolding publish_found
  publish_found-some value [] x q = refl
  publish_found-some value (c ∷ cs) x q = refl

  msgarrvd-request :
      (value : D) (stale : ℕ) (now : Timespec) (feature : List ℕ) (x : Publisher D) (q : Plane D)
      → publisher_of fp feature q.publish_str ≡ some x
      → msgarrvd fp value stale now (request_topic ++ feature) (codes "REQUEST") q
        ≡ publish_feature_value fp value x (record q { library = pkt_received 7 q.library })
  unfolding msgarrvd handle_publish_req
  msgarrvd-request value stale now feature x q found =
      rw found (publish_found-some value feature x _)

  -- What a device has that answers a request for a feature: its identity, and a publisher of the feature with
  -- simulated values and a buffer for this one.
  pub record Answers (id feature : List ℕ) (fraction : D) (x : Publisher D) (q : Plane D)
      : Type 0 where
    pub publisher : publisher_of fp feature q.publish_str ≡ some x
    pub simulated : x.packet_length ≡ pos 0
    pub identity : q.identity ≡ some id
    pub room : length (id ++ colon ∷ fp.print (generated_value fraction x)) < x.buffer

  -- What a consumer has that stores the first value of an identity in its window.
  pub record Stores (id text : List ℕ) (p : Plane D) : Type 0 where
    pub value : IsValue id text p.rep_info
    pub new : has_sample fp id p.rep_info.samples ≡ false
    pub room : length p.rep_info.samples ≤ 255
    pub fits : length id ≤ 63

  -- The message of the publisher.
  abbrev pub generated_message : List ℕ → D → Publisher D → Publication
  generated_message id fraction x = value_message id (generated_value fraction x) x

  -- A request for a feature, its answer and what the consumer makes of it: the request that is published
  -- makes a device with a publisher of the feature publish its identity and the generated value, and this
  -- message makes a consumer with an active window that has room, and no value of the device yet, store it
  -- as the sample of that identity.
  pub request-answered :
      (fraction unused : D) (stale : ℕ) (now later : Timespec) (id feature : List ℕ)
      (x : Publisher D) (p q : Plane D)
      → Answers id feature fraction x q
      → Stores id (fp.print (generated_value fraction x)) p
      → (request_reputation_val fp feature p
          ≡ record p { published = request_message feature ∷ p.published })
        × (msgarrvd fp fraction stale now
              (request_message feature).topic
              (request_message feature).payload
              q
            ≡ some (answered_state (generated_message id fraction x) q))
        × (msgarrvd fp unused stale later
              (generated_message id fraction x).topic
              (generated_message id fraction x).payload
              p
            ≡ some (
                sampled_state
                  (length (generated_message id fraction x).payload)
                  (sample_of fp stale later id
                    (fp.atof (fp.print (generated_value fraction x)))
                    p.rep_info)
                  p))
  unfolding request_reputation_val publish
  request-answered fraction unused stale now later id feature x p q a s = (
    refl,
    msgarrvd-request fraction stale now feature x q a.publisher
        ∙ publish_feature_value-value_message fraction x id
            (record q { library = pkt_received 7 q.library }) a.simulated a.identity a.room,
    value_message-sampled unused stale later x.feature id (fp.print (generated_value fraction x)) p
        s.value s.new s.room s.fits,
  )
