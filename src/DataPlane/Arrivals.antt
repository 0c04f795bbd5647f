-- ===== src/DataPlane/Arrivals.antt =====
-- What is published, and what an MQTT message does: publish_feature_value, request_reputation_val,
-- handle_publish_req and msgarrvd of src/data_plane/atlas_data_plane.c. The random fraction is a
-- parameter, as is the time.
use atlas_client.Prelude.{
  ℕ, zero, suc, Option, none, some, List, [], ◌∷◌, ◌++◌, ℤ, pos, negsuc, ltb, if◌then◌else◌,
  bytes_eq, is_prefix, length, drop, codes,
}
use atlas_client.Library.{pkt_received}
use atlas_client.DataPlane.{
  Doubles, Timespec, Publisher, RepInfo, Publication, Plane, request_topic, data_topic, colon,
}
use atlas_client.DataPlane.Reputation.{handle_data}

unfoldable pub zeros : ℕ → List ℕ
zeros zero = []
zeros (suc n) = 48 ∷ zeros n

-- `arrives` has the random fraction for a value that is asked for, the score that the array's element has, the
-- time, the topic and the payload.
pub data Event (D : Type 0) : Type 0 where
  arrives : D → ℕ → Timespec → List ℕ → List ℕ → Event D
  publishes : D → Publisher D → Event D

module _ {D : Type 0} (fp : Doubles D) where
  -- With random() as a fraction of RAND_MAX.
  unfoldable pub random_number_generator : D → D → D → D
  random_number_generator fraction base_value deviation =
      let interval = fp.to_float (fp.times (fp.of_int (pos 2)) deviation) in
      let lower = fp.to_float (fp.minus base_value deviation) in
      fp.to_float (fp.plus (fp.times interval fraction) lower)

  unfoldable pub publish : Publication → Plane D → Plane D
  publish m p = record p { published = m ∷ p.published }

  -- The identity is there once the library is initialised; the null one is printed as "(null)".
  unfoldable pub identity_text : Option (List ℕ) → List ℕ
  identity_text none = codes "(null)"
  identity_text (some text) = text

  -- `sprintf` and `memset` where the buffer is too small are faults. A negative length is a large one.
  unfoldable pub publish_payload : D → Publisher D → Plane D → ℤ → Option (List ℕ)
  publish_payload value pub_info p (pos zero) =
      let text = identity_text p.identity ++ colon ∷ fp.print value in
      if ltb (length text) pub_info.buffer then some text else none
  publish_payload value pub_info p (pos (suc n)) = some (zeros (suc n))
  publish_payload value pub_info p (negsuc n) = none

  unfoldable pub publish_with : Publisher D → Plane D → Option (List ℕ) → Option (Plane D)
  publish_with pub_info p none = none
  publish_with pub_info p (some payload) = some (
      publish
        (record { topic = data_topic ++ pub_info.feature; payload = payload; qos = pub_info.qos })
        p)

  unfoldable pub publish_feature_value : D → Publisher D → Plane D → Option (Plane D)
  publish_feature_value fraction pub_info p =
      let value = random_number_generator fraction pub_info.base_value pub_info.deviation in
      publish_with pub_info p (publish_payload value pub_info p pub_info.packet_length)

  unfoldable pub request_reputation_val : List ℕ → Plane D → Plane D
  request_reputation_val feature p =
      publish (record { topic = request_topic ++ feature; payload = codes "REQUEST"; qos = pos 2 })
        p

  unfoldable pub publisher_of : List ℕ → List (Publisher D) → Option (Publisher D)
  publisher_of feature [] = none
  publisher_of feature (x ∷ xs) =
      let rest = publisher_of feature xs in if bytes_eq feature x.feature then some x else rest

  -- An element that was never set has the empty feature and no buffer.
  unfoldable pub publish_found : D → List ℕ → Option (Publisher D) → Plane D → Option (Plane D)
  publish_found fraction [] none p = if ltb (length p.publish_str) 32 then none else some p
  publish_found fraction (c ∷ cs) none p = some p
  publish_found fraction feature (some x) p = publish_feature_value fraction x p

  unfoldable pub handle_publish_req : D → List ℕ → Plane D → Option (Plane D)
  handle_publish_req fraction feature p =
      publish_found fraction feature (publisher_of feature p.publish_str) p

  unfoldable pub with_rep_info : Plane D → Option (RepInfo D) → Option (Plane D)
  with_rep_info p none = none
  with_rep_info p (some r) = some (record p { rep_info = r })

  -- The topic as the string that it is here.
  unfoldable pub msgarrvd : D → ℕ → Timespec → List ℕ → List ℕ → Plane D → Option (Plane D)
  msgarrvd fraction stale now topic payload p =
      let counted = record p { library = pkt_received (length payload) p.library } in
      let asked = handle_publish_req fraction (drop (length request_topic) topic) counted in
      let given = with_rep_info counted (handle_data fp stale now payload counted.rep_info) in
      if is_prefix request_topic topic
      then asked
      else if is_prefix data_topic topic
      then given
      else some counted

  -- What happens while the query thread sleeps: a message that arrives, or a publisher's thread publishes.
  unfoldable pub event_done : Event D → Plane D → Option (Plane D)
  event_done (arrives fraction stale now topic payload) p =
      msgarrvd fraction stale now topic payload p
  event_done (publishes fraction pub_info) p = publish_feature_value fraction pub_info p

  unfoldable pub events_done : List (Event D) → Option (Plane D) → Option (Plane D)
  events_done [] o = o
  events_done (e ∷ es) none = none
  events_done (e ∷ es) (some p) = events_done es (event_done e p)
