-- ===== src/Telemetry/Payload.antt =====
-- The payloads of the telemetry features: src/telemetry/atlas_telemetry_sysinfo.c,
-- atlas_telemetry_hostname.c, atlas_telemetry_kern_info.c and atlas_telemetry_packets_info.c. The empty
-- payload is the null pointer.
use atlas_client.Prelude.{
  ℕ, Bool, true, false, ◌&&◌, Option, none, some, List, [], ◌∷◌, ◌++◌, ltb, ◌==◌, if◌then◌else◌,
  take,
}
use atlas_client.Environment.{probed, SysInfo, UtsName, Environment}
use atlas_client.Callbacks.{
  PayloadCallback, payload_hostname, payload_kern_info, payload_uptime, payload_totalram,
  payload_freeram, payload_sharedram, payload_bufferram, payload_totalswap, payload_freeswap,
  payload_procs, payload_load1, payload_load5, payload_load15, payload_packets_per_minute,
  payload_packets_avg,
}
use atlas_client.Commands.{Cmd}
use atlas_client.Commands.Types
use atlas_client.World.{World, recorded, written}

-- Every payload is a batch of the identity and a command with a text.
unfoldable pub feature_cmds : ℕ → List ℕ → World → List Cmd
feature_cmds type text w =
    record { type = Types.identity; value = w.identity } ∷ record { type = type; value = text } ∷ []

unfoldable pub text_payload : ℕ → List ℕ → World → List ℕ × World
text_payload type text w = written (feature_cmds type text w) w

-- The bytes of an array up to the first zero.
unfoldable pub until_nul : List ℕ → List ℕ
until_nul [] = []
until_nul (b ∷ bs) = let rest = until_nul bs in if b == 0 then [] else b ∷ rest

abbrev pub has_newline : List ℕ → Bool
has_newline [] = false
has_newline (b ∷ bs) = if b == 10 then true else has_newline bs

-- The text before its last newline, or all of it.
unfoldable pub cut_newline : List ℕ → List ℕ
cut_newline [] = []
cut_newline (b ∷ bs) =
    let rest = cut_newline bs in
    if has_newline bs then b ∷ rest else if b == 10 then [] else b ∷ rest

-- With what was read; `none` is a file that cannot be opened.
unfoldable pub hostname_read : Option (List ℕ) → World → List ℕ × World
hostname_read none w = ([], w)
hostname_read (some []) w = ([], w)
hostname_read (some (b ∷ bs)) w =
    text_payload Types.telemetry_hostname (cut_newline (until_nul (take 32 (b ∷ bs)))) w

-- `strncpy` and `strncat` into 129 bytes keep 128 of them.
unfoldable pub kern_info_text : UtsName → List ℕ
kern_info_text u =
    take 128
      (u.sysname ++ (32 ∷ u.nodename ++ (32 ∷ u.release ++ (32 ∷ u.version ++ 32 ∷ u.machine))))

unfoldable pub kern_info_read : Option UtsName → World → List ℕ × World
kern_info_read none w = ([], w)
kern_info_read (some u) w = text_payload Types.telemetry_kern_info (kern_info_text u) w

module _ (env : Environment) where
  -- The payload of a number that `sysinfo` gave.
  unfoldable pub number_read : ℕ → (SysInfo → ℕ) → Option SysInfo → World → List ℕ × World
  number_read type field none w = ([], w)
  number_read type field (some info) w = text_payload type (env.print_unsigned (field info)) w

  -- The body that ten payload functions share, but for the field and the command's type.
  unfoldable pub sysinfo_payload : ℕ → (SysInfo → ℕ) → Bool → World → List ℕ × World
  sysinfo_payload type field use_threshold w =
      if use_threshold
      then ([], w)
      else number_read type field (env.sysinfo w.client.timers.history) (recorded probed w)

  unfoldable pub uptime : Bool → World → List ℕ × World
  unfolding sysinfo_payload
  uptime = sysinfo_payload Types.telemetry_sysinfo_uptime (λ i. i.uptime)

  unfoldable pub totalram : Bool → World → List ℕ × World
  unfolding sysinfo_payload
  totalram = sysinfo_payload Types.telemetry_sysinfo_totalram (λ i. i.totalram)

  unfoldable pub freeram : Bool → World → List ℕ × World
  unfolding sysinfo_payload
  freeram = sysinfo_payload Types.telemetry_sysinfo_freeram (λ i. i.freeram)

  unfoldable pub sharedram : Bool → World → List ℕ × World
  unfolding sysinfo_payload
  sharedram = sysinfo_payload Types.telemetry_sysinfo_sharedram (λ i. i.sharedram)

  unfoldable pub bufferram : Bool → World → List ℕ × World
  unfolding sysinfo_payload
  bufferram = sysinfo_payload Types.telemetry_sysinfo_bufferram (λ i. i.bufferram)

  unfoldable pub totalswap : Bool → World → List ℕ × World
  unfolding sysinfo_payload
  totalswap = sysinfo_payload Types.telemetry_sysinfo_totalswap (λ i. i.totalswap)

  unfoldable pub freeswap : Bool → World → List ℕ × World
  unfolding sysinfo_payload
  freeswap = sysinfo_payload Types.telemetry_sysinfo_freeswap (λ i. i.freeswap)

  unfoldable pub load1 : Bool → World → List ℕ × World
  unfolding sysinfo_payload
  load1 = sysinfo_payload Types.telemetry_sysinfo_load1 (λ i. i.load1)

  unfoldable pub load5 : Bool → World → List ℕ × World
  unfolding sysinfo_payload
  load5 = sysinfo_payload Types.telemetry_sysinfo_load5 (λ i. i.load5)

  unfoldable pub load15 : Bool → World → List ℕ × World
  unfolding sysinfo_payload
  load15 = sysinfo_payload Types.telemetry_sysinfo_load15 (λ i. i.load15)

  -- Below the threshold nothing is sent.
  unfoldable pub procs_read : Bool → Option SysInfo → World → List ℕ × World
  procs_read use_threshold none w = ([], w)
  procs_read use_threshold (some info) w =
      if use_threshold && ltb info.procs w.procs_threshold
      then ([], w)
      else text_payload Types.telemetry_sysinfo_procs (env.print_unsigned info.procs) w

  unfoldable pub procs : Bool → World → List ℕ × World
  unfolding procs_read
  procs use_threshold w =
      procs_read use_threshold (env.sysinfo w.client.timers.history) (recorded probed w)

  unfoldable pub hostname : Bool → World → List ℕ × World
  unfolding hostname_read
  hostname use_threshold w =
      if use_threshold
      then ([], w)
      else hostname_read (env.read_hostname w.client.timers.history) (recorded probed w)

  unfoldable pub kern_info : Bool → World → List ℕ × World
  unfolding kern_info_read
  kern_info use_threshold w =
      if use_threshold
      then ([], w)
      else kern_info_read (env.uname w.client.timers.history) (recorded probed w)

  unfoldable pub packets_per_minute : Bool → World → List ℕ × World
  packets_per_minute use_threshold w =
      text_payload Types.telemetry_packets_per_minute (env.print_unsigned w.packets_per_min) w

  unfoldable pub packets_avg : Bool → World → List ℕ × World
  packets_avg use_threshold w =
      text_payload Types.telemetry_packets_avg (env.print_unsigned w.packets_avg) w

  -- The call of a feature's payload function.
  unfoldable pub payload : PayloadCallback → Bool → World → List ℕ × World
  payload payload_hostname = hostname
  payload payload_kern_info = kern_info
  payload payload_uptime = uptime
  payload payload_totalram = totalram
  payload payload_freeram = freeram
  payload payload_sharedram = sharedram
  payload payload_bufferram = bufferram
  payload payload_totalswap = totalswap
  payload payload_freeswap = freeswap
  payload payload_procs = procs
  payload payload_load1 = load1
  payload payload_load5 = load5
  payload payload_load15 = load15
  payload payload_packets_per_minute = packets_per_minute
  payload payload_packets_avg = packets_avg
