-- ===== src/DataPlane/Start.antt =====
-- The arguments of the data plane: traffic_generator, subscribe_topics, set_reputation and parse_arguments
-- of src/data_plane/atlas_data_plane.c. The arguments are texts without a zero; `atoi` is a parameter. `exits`
-- is a call of `exit`, and `crashed` an access outside an array or through a null pointer.
use atlas_client.Prelude.{
  ℕ, zero, suc, Bool, true, false, ◌&&◌, ◌||◌, Option, none, some, List, [], ◌∷◌, ◌++◌, ℤ, pos,
  negsuc, minus_one, ◌==ℤ◌, ◌==◌, ltb, leb, if◌then◌else◌, bytes_eq, length, codes,
}
use atlas_client.Status.{ok}
use atlas_client.Library.{Kernel}
use atlas_client.Library.Requests.{Reply, init}
use atlas_client.Telemetry.Endpoints.{low_word}
use atlas_client.DataPlane.Options.{Given, nothing_given, PlaneOpt, take_all}
use atlas_client.DataPlane.{
  Doubles, Publisher, RepInfo, Plane, request_topic, data_topic, strtok, colon,
}

pub data Result (A : Type 0) : Type 0 where
  crashed exits : Result A
  started : A → Result A

-- The tokens of repeated calls with the same delimiter; a text has fewer tokens than bytes, or none.
unfoldable pub tokens_from : ℕ → ℕ → Option (List ℕ × List ℕ) → List (List ℕ)
tokens_from zero d found = []
tokens_from (suc fuel) d none = []
tokens_from (suc fuel) d (some (word, rest)) = word ∷ tokens_from fuel d (strtok d rest)

unfoldable pub tokens : ℕ → List ℕ → List (List ℕ)
tokens d text = tokens_from (suc (length text)) d (strtok d text)

-- `subscribe` for the topics of the list: the first one ends at a colon, the others at a comma. A text
-- has fewer tokens than bytes.
unfoldable pub subscribe_each : ℕ → Option (List ℕ × List ℕ) → List (List ℕ)
subscribe_each zero found = []
subscribe_each (suc fuel) none = []
subscribe_each (suc fuel) (some (word, rest)) =
    (data_topic ++ word) ∷ subscribe_each fuel (strtok 44 rest)

unfoldable pub consume_topics : List ℕ → List (List ℕ)
consume_topics topics = subscribe_each (suc (length topics)) (strtok colon topics)

-- Whether an int is at least another.
abbrev pub at_least : ℤ → ℤ → Bool
at_least (pos a) (pos b) = leb b a
at_least (pos a) (negsuc b) = true
at_least (negsuc a) (pos b) = false
at_least (negsuc a) (negsuc b) = leb a b

-- What `malloc` of an int gives; there is no room for a negative one, which is a large size.
abbrev pub allocated : ℤ → ℕ
allocated (pos n) = n
allocated (negsuc n) = 0

module _ {D : Type 0} where
  unfoldable pub and_next : (Plane D → Result (Plane D)) → Result (Plane D) → Result (Plane D)
  and_next next crashed = crashed
  and_next next exits = exits
  and_next next (started p) = next p

  -- The array of a topic has 256 bytes.
  unfoldable pub subscribe_all : List (List ℕ) → ℤ → Plane D → Result (Plane D)
  subscribe_all [] qos p = started p
  subscribe_all (topic ∷ more) qos p =
      let rest = subscribe_all more qos (record p { subscribed = (topic, qos) ∷ p.subscribed }) in
      if ltb 255 (length topic) then crashed else rest

  unfoldable pub subscribe_topics : List ℕ → ℤ → Plane D → Result (Plane D)
  subscribe_topics topics qos p = subscribe_all (consume_topics topics) qos p

  -- The elements of the array that are set; a feature has 31 bytes at most. An incomplete group of
  -- arguments ends in a null pointer.
  unfoldable pub generate_each :
      (List ℕ → ℤ) → Doubles D → List (List ℕ) → Plane D → Result (Plane D)
  generate_each atoi fp [] p = started p
  generate_each atoi fp (feature ∷ rate ∷ base ∷ dev ∷ qos ∷ len ∷ more) p =
      let x : Publisher D = record {
        feature = feature;
        publish_rate = atoi rate;
        base_value = fp.to_float (fp.atof base);
        deviation = fp.to_float (fp.atof dev);
        qos = atoi qos;
        packet_length = if bytes_eq len (codes "default") then pos 0 else atoi len;
        buffer = if bytes_eq len (codes "default") then 257 else allocated (atoi len);
      } in
      let rest = generate_each atoi fp more (record p {
        publish_str = p.publish_str ++ x ∷ [];
        subscribed = (request_topic ++ feature, pos 2) ∷ p.subscribed;
      }) in
      if ltb 31 (length feature) || ltb 31 (length p.publish_str) then crashed else rest
  generate_each atoi fp _ p = crashed

  unfoldable pub traffic_generator : (List ℕ → ℤ) → Doubles D → List ℕ → Plane D → Result (Plane D)
  traffic_generator atoi fp arg p = generate_each atoi fp (tokens colon arg) p

  -- With the feature, the query rate and the window size.
  unfoldable pub set_target : (List ℕ → ℤ) → RepInfo D → List (List ℕ) → Plane D → Result (Plane D)
  set_target atoi r more p = if at_least r.window_size r.query_rate then exits else elim more [
    | [] ↦ crashed
    | target ∷ _ ↦
        let value = if bytes_eq target (codes "average") then minus_one else atoi target in
        started (record p { rep_info = record r { target_value = value } })
  ]

  -- `zero_info` is the structure of zeros.
  unfoldable pub reputation_set :
      (List ℕ → ℤ) → RepInfo D → List (List ℕ) → Plane D → Result (Plane D)
  reputation_set atoi zero_info [] p = started (record p { rep_info = zero_info })
  reputation_set atoi zero_info (feature ∷ query ∷ window ∷ more) p =
      let r = record zero_info {
        feature = feature;
        query_rate = atoi query;
        window_size = atoi window;
      } in
      let set = set_target atoi r more p in if ltb 31 (length feature) then crashed else set
  reputation_set atoi zero_info _ p = crashed

  unfoldable pub set_reputation : (List ℕ → ℤ) → RepInfo D → List ℕ → Plane D → Result (Plane D)
  set_reputation atoi zero_info arg p = reputation_set atoi zero_info (tokens colon arg) p

  unfoldable pub with_reputation :
      (List ℕ → ℤ) → RepInfo D → Option (List ℕ) → Plane D → Result (Plane D)
  with_reputation atoi zero_info none p = started p
  with_reputation atoi zero_info (some arg) p = set_reputation atoi zero_info arg p

-- `mqtt` is whether the MQTT client was created, and whether it connected.
module _ {D : Type 0} (atoi : List ℕ → ℤ) (fp : Doubles D) (zero_info : RepInfo D)
    (mqtt : Bool × Bool) where
  unfoldable pub start_mqtt_client : Plane D → Result (Plane D)
  start_mqtt_client p = if mqtt.0 && mqtt.1 then started p else exits

  -- With what `atlas_init` returned; `none` is its fuel.
  unfoldable pub plane_ready :
      Given → List ℕ → List ℕ → Option Reply → Plane D → Option (Result (Plane D))
  plane_ready g publish consume none p = none
  plane_ready g publish consume (some (ok, identity, lib)) p = some (
      and_next (with_reputation atoi zero_info g.reputation_arg) (
        and_next (subscribe_topics consume g.qos) (
          and_next (traffic_generator atoi fp publish)
            (start_mqtt_client (record p { identity = identity; library = lib })))))
  plane_ready g publish consume (some (status, identity, lib)) p = some exits

  -- With the three texts that there must be.
  unfoldable pub with_texts :
      Kernel
      → ℕ
      → Given
      → Option (List ℕ)
      → Option (List ℕ)
      → Option (List ℕ)
      → Plane D
      → Option (Result (Plane D))
  with_texts kernel fuel g (some publish) (some consume) (some hostname) p =
      let answer =
        init kernel fuel (low_word g.qos) (low_word g.ppm) (low_word g.maxlen) (some p.identity)
          p.library in
      let ready = plane_ready g publish consume answer p in
      if g.qos ==ℤ minus_one || g.ppm ==ℤ minus_one || g.maxlen ==ℤ minus_one
      then some exits
      else ready
  with_texts kernel fuel g publish consume hostname p = some exits

  -- The tests behind the loop.
  unfoldable pub given : Kernel → ℕ → Option Given → Plane D → Option (Result (Plane D))
  given kernel fuel none p = some exits
  given kernel fuel (some g) p =
      with_texts kernel fuel g g.publish_arg g.subscribe_arg g.hostname_arg p

  unfoldable pub parse_arguments :
      Kernel → ℕ → List (PlaneOpt × List ℕ) → Plane D → Option (Result (Plane D))
  parse_arguments kernel fuel args p = given kernel fuel (take_all atoi args (some nothing_given)) p

  -- With the effective user's number.
  unfoldable pub main :
      ℕ → Kernel → ℕ → List (PlaneOpt × List ℕ) → Plane D → Option (Result (Plane D))
  main euid kernel fuel args p =
      let begun = parse_arguments kernel fuel args p in if euid == 0 then begun else some exits
