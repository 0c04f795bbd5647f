-- ===== src/Telemetry/Keeps.antt =====
-- The telemetry operations only send: they keep the registration and the balance of libcoap's contexts.
use atlas_client.Prelude.{
  ℕ, Bool, true, false, Option, none, some, List, [], ◌∷◌, inl, inr, Bool-cases, ltb, ◌&&◌,
}
use atlas_client.Status.{put, Response, timeout}
use atlas_client.Callbacks.{
  telemetry_callback, PayloadCallback, payload_hostname, payload_kern_info, payload_procs,
  payload_packets_per_minute, payload_packets_avg,
}
use atlas_client.Environment.{probed, SysInfo, UtsName, Environment}
use atlas_client.World.{Feature, World, recorded}
use atlas_client.World.Keeps.{
  Keeps, Keeps-same, Keeps-if, Keeps-then, recorded-probed, written-Keeps, request-Keeps,
}
use atlas_client.Telemetry.Payload
use atlas_client.Telemetry.Payload.{
  text_payload, feature_cmds, hostname_read, kern_info_read, number_read, sysinfo_payload,
  procs_read, payload,
}
use atlas_client.Telemetry.{push_payload, push, push_found, push_each, push_all, handle_response}

text_payload-Keeps : (type : ℕ) (text : List ℕ) (w : World) → Keeps w (text_payload type text w).1
unfolding text_payload
text_payload-Keeps type text w = written-Keeps (feature_cmds type text w) w

hostname_read-Keeps : (r : Option (List ℕ)) (w : World) → Keeps w (hostname_read r w).1
unfolding hostname_read
hostname_read-Keeps none w = Keeps-same w
hostname_read-Keeps (some []) w = Keeps-same w
hostname_read-Keeps (some (b ∷ bs)) w = text_payload-Keeps _ _ w

kern_info_read-Keeps : (r : Option UtsName) (w : World) → Keeps w (kern_info_read r w).1
unfolding kern_info_read
kern_info_read-Keeps none w = Keeps-same w
kern_info_read-Keeps (some u) w = text_payload-Keeps _ _ w

module _ (env : Environment) where
  number_read-Keeps :
      (type : ℕ) (field : SysInfo → ℕ) (r : Option SysInfo) (w : World)
      → Keeps w (number_read env type field r w).1
  unfolding number_read
  number_read-Keeps type field none w = Keeps-same w
  number_read-Keeps type field (some info) w = text_payload-Keeps _ _ w

  sysinfo_payload-Keeps :
      (type : ℕ) (field : SysInfo → ℕ) (use_threshold : Bool) (w : World)
      → Keeps w (sysinfo_payload env type field use_threshold w).1
  unfolding sysinfo_payload
  sysinfo_payload-Keeps type field true w = Keeps-same w
  sysinfo_payload-Keeps type field false w =
      Keeps-then (recorded-probed w) (number_read-Keeps type field _ (recorded probed w))

  procs_read-Keeps :
      (use_threshold : Bool) (r : Option SysInfo) (w : World)
      → Keeps w (procs_read env use_threshold r w).1
  unfolding procs_read
  procs_read-Keeps use_threshold none w = Keeps-same w
  procs_read-Keeps use_threshold (some info) w =
      elim (Bool-cases (use_threshold && ltb info.procs w.procs_threshold)) [
        | inl below ↦ rw below (Keeps-same w)
        | inr above ↦ rw above (text_payload-Keeps _ _ w)
      ]

  procs-Keeps : (use_threshold : Bool) (w : World) → Keeps w (Payload.procs env use_threshold w).1
  unfolding Payload.procs
  procs-Keeps use_threshold w =
      Keeps-then (recorded-probed w) (procs_read-Keeps use_threshold _ (recorded probed w))

  hostname-Keeps :
      (use_threshold : Bool) (w : World) → Keeps w (Payload.hostname env use_threshold w).1
  unfolding Payload.hostname
  hostname-Keeps true w = Keeps-same w
  hostname-Keeps false w =
      Keeps-then (recorded-probed w) (hostname_read-Keeps _ (recorded probed w))

  kern_info-Keeps :
      (use_threshold : Bool) (w : World) → Keeps w (Payload.kern_info env use_threshold w).1
  unfolding Payload.kern_info
  kern_info-Keeps true w = Keeps-same w
  kern_info-Keeps false w =
      Keeps-then (recorded-probed w) (kern_info_read-Keeps _ (recorded probed w))

  payload-Keeps :
      (cb : PayloadCallback) (use_threshold : Bool) (w : World)
      → Keeps w (payload env cb use_threshold w).1
  unfolding payload Payload.uptime Payload.totalram Payload.freeram Payload.sharedram
      Payload.bufferram Payload.totalswap Payload.freeswap Payload.load1 Payload.load5
      Payload.load15 Payload.packets_per_minute Payload.packets_avg
  payload-Keeps payload_hostname = hostname-Keeps
  payload-Keeps payload_kern_info = kern_info-Keeps
  payload-Keeps payload_procs = procs-Keeps
  payload-Keeps payload_packets_per_minute = λ t w. text_payload-Keeps _ _ w
  payload-Keeps payload_packets_avg = λ t w. text_payload-Keeps _ _ w
  payload-Keeps _ = sysinfo_payload-Keeps _ _

  push_payload-Keeps :
      (f : Feature) (bytes : List ℕ) (w : World) → Keeps w (push_payload env f (bytes, w))
  unfolding push_payload
  push_payload-Keeps f [] w = Keeps-same w
  push_payload-Keeps f (b ∷ bs) w =
      request-Keeps env f.uri_path put (b ∷ bs) 40000 telemetry_callback w

  pub push-Keeps :
      (f : Feature) (use_threshold : Bool) (w : World) → Keeps w (push env f use_threshold w)
  unfolding push
  push-Keeps f use_threshold w =
      Keeps-if w.registered
        (Keeps-then (payload-Keeps f.payload_cb use_threshold w) (push_payload-Keeps f _ _))
        (Keeps-same w)

  pub push_found-Keeps :
      (f : Option Feature) (use_threshold : Bool) (w : World)
      → Keeps w (push_found env f use_threshold w)
  unfolding push_found
  push_found-Keeps none use_threshold w = Keeps-same w
  push_found-Keeps (some f) use_threshold w = push-Keeps f use_threshold w

  push_each-Keeps : (fs : List Feature) (w : World) → Keeps w (push_each env fs w)
  unfolding push_each
  push_each-Keeps [] w = Keeps-same w
  push_each-Keeps (f ∷ fs) w =
      Keeps-then (push-Keeps f false w) (push_each-Keeps fs (push env f false w))

  pub push_all-Keeps : (w : World) → Keeps w (push_all env w)
  unfolding push_all
  push_all-Keeps w = push_each-Keeps w.features w

  -- The answer to a telemetry request keeps the registration and the balance, whatever it is.
  pub handle_response-Keeps :
      (uri : List ℕ) (response : Response) (w : World)
      → Keeps w (handle_response env uri response w)
  unfolding handle_response
  handle_response-Keeps uri timeout w = push_found-Keeps _ false w
  handle_response-Keeps uri _ w = Keeps-same w
