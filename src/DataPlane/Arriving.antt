-- ===== src/DataPlane/Arriving.antt =====
-- The feedback window behind any events: msgarrvd and publish_feature_value of
-- src/data_plane/atlas_data_plane.c.
use atlas_client.Prelude.{
  ℕ, ◌≡◌, refl, Bool, true, false, Option, none, some, List, [], ◌∷◌, if◌then◌else◌, length,
  is_prefix, ltb,
}
use atlas_client.DataPlane.{Doubles, Publisher, RepInfo, Plane, request_topic, data_topic}
use atlas_client.DataPlane.Arrivals.{
  Event, arrives, publishes, publish, publish_with, publish_feature_value, publish_found,
  handle_publish_req, with_rep_info, msgarrvd, event_done, events_done,
}
use atlas_client.DataPlane.Window.{IsWindow, handle_data-IsWindow}

module _ {D : Type 0} (fp : Doubles D) where
  -- A state whose window is one, where there is a state.
  abbrev pub KeepsWindow : Option (Plane D) → Type 0
  KeepsWindow none = Unit
  KeepsWindow (some p) = IsWindow fp p.rep_info

  publish_with-KeepsWindow :
      (pub_info : Publisher D) (p : Plane D) (o : Option (List ℕ))
      → IsWindow fp p.rep_info
      → KeepsWindow (publish_with fp pub_info p o)
  unfolding publish_with publish
  publish_with-KeepsWindow pub_info p none w = tt
  publish_with-KeepsWindow pub_info p (some payload) w = w

  publish_feature_value-KeepsWindow :
      (value : D) (pub_info : Publisher D) (p : Plane D)
      → IsWindow fp p.rep_info
      → KeepsWindow (publish_feature_value fp value pub_info p)
  unfolding publish_feature_value
  publish_feature_value-KeepsWindow value pub_info p w = publish_with-KeepsWindow pub_info p _ w

  if-KeepsWindow :
      (b : Bool) (o o' : Option (Plane D))
      → KeepsWindow o
      → KeepsWindow o'
      → KeepsWindow (if b then o else o')
  if-KeepsWindow true o o' h h' = h
  if-KeepsWindow false o o' h h' = h'

  publish_found-KeepsWindow :
      (value : D) (feature : List ℕ) (found : Option (Publisher D)) (p : Plane D)
      → IsWindow fp p.rep_info
      → KeepsWindow (publish_found fp value feature found p)
  unfolding publish_found
  publish_found-KeepsWindow value [] none p w =
      if-KeepsWindow (ltb (length p.publish_str) 32) none (some p) tt w
  publish_found-KeepsWindow value (c ∷ cs) none p w = w
  publish_found-KeepsWindow value [] (some x) p w = publish_feature_value-KeepsWindow value x p w
  publish_found-KeepsWindow value (c ∷ cs) (some x) p w =
      publish_feature_value-KeepsWindow value x p w

  with_rep_info-KeepsWindow :
      (p : Plane D) (o : Option (RepInfo D))
      → ((r : RepInfo D) → o ≡ some r → IsWindow fp r)
      → KeepsWindow (with_rep_info fp p o)
  unfolding with_rep_info
  with_rep_info-KeepsWindow p none h = tt
  with_rep_info-KeepsWindow p (some r) h = h r refl

  event_done-KeepsWindow :
      (e : Event D) (p : Plane D) → IsWindow fp p.rep_info → KeepsWindow (event_done fp e p)
  unfolding event_done msgarrvd handle_publish_req
  event_done-KeepsWindow (publishes value pub_info) p w =
      publish_feature_value-KeepsWindow value pub_info p w
  event_done-KeepsWindow (arrives value stale now topic payload) p w =
      if-KeepsWindow (is_prefix request_topic topic) _ _ (publish_found-KeepsWindow value _ _ _ w) (
        if-KeepsWindow (is_prefix data_topic topic) _ _
          (with_rep_info-KeepsWindow _ _
            (λ r e. handle_data-IsWindow fp stale now payload p.rep_info r w e))
          w)

  pub events_done-KeepsWindow :
      (es : List (Event D)) (o : Option (Plane D))
      → KeepsWindow o
      → KeepsWindow (events_done fp es o)
  unfolding events_done
  events_done-KeepsWindow [] o w = w
  events_done-KeepsWindow (e ∷ es) none w = tt
  events_done-KeepsWindow (e ∷ es) (some p) w =
      events_done-KeepsWindow es _ (event_done-KeepsWindow e p w)
