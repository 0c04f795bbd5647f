-- ===== src/Environment.antt =====
-- What the program calls and does not implement: the kernel, libcoap, the C library. The result of a
-- call is a function of the calls made before it, newest first, so that an environment may answer each
-- call as it likes. A call whose result the source ignores is recorded and has no answer here.
pub mod Registry
pub mod Samples
use atlas_client.Prelude.{ℕ, Bool, List, Option, ℤ}
use atlas_client.Status.{Method}

-- struct itimerspec.
pub record TimerSpec : Type 0 where
  pub interval_sec : ℕ
  pub interval_nsec : ℕ
  pub value_sec : ℕ
  pub value_nsec : ℕ

-- The parts of a CoAP request that the source sets.
pub record Pdu : Type 0 where
  pub method : Method
  pub token : ℕ
  pub uri : List ℕ
  pub payload : List ℕ

-- What `system` is given.
pub data SystemCommand : Type 0 where
  poweroff reboot : SystemCommand

-- coap_proto_t, as far as the source uses it.
pub data Protocol : Type 0 where
  udp dtls : Protocol

pub data Call : Type 0 where
  timer_created : ℤ → Call
  timer_armed : ℤ → TimerSpec → Call
  timer_read : ℤ → Call
  closed : ℤ → Call
  uri_split : List ℕ → Call
  host_resolved : List ℕ → Call
  context_created : Option ℕ → Call
  session_created : Bool → Option ℕ → Call
  pdu_created : Call
  token_added : ℕ → Call
  fd_asked : ℕ → Call
  faulted : Call
  request_sent : ℕ → Pdu → Call
  reset_sent : ℕ → Call
  session_released : Option ℕ → Call
  context_freed : ℕ → Call
  socket_accepted : ℤ → Call
  socket_written : ℤ → List ℕ → Call
  system : SystemCommand → Call
  probed : Call
  server_context_created : Option ℕ → Call
  server_context_freed : ℕ → Call
  dtls_asked : Call
  server_psk_set : List ℕ → Call
  endpoint_opened : Protocol → ℕ → Call
  endpoint_freed : Option Protocol → Call
  resource_created : List ℕ → Option ℕ → Call
  handler_registered : ℕ → Method → Call
  resource_added : List ℕ → ℕ → Call
  resource_deleted : List ℕ → ℕ → Call
  server_fd_asked : Call
  socket_unlinked socket_created socket_bound socket_listened : Call

abbrev pub History : Type 0
History = List Call

-- struct addrinfo: its family, and the length of its address.
pub data Family : Type 0 where
  inet inet6 other_family : Family

-- coap_uri_t: whether the scheme is coaps, and the host.
pub record CoapUri : Type 0 where
  pub is_coaps : Bool
  pub host : List ℕ

-- struct sysinfo and struct utsname, as far as the source reads them. The texts end before their
-- terminator.
pub record SysInfo : Type 0 where
  pub uptime : ℕ
  pub totalram : ℕ
  pub freeram : ℕ
  pub sharedram : ℕ
  pub bufferram : ℕ
  pub totalswap : ℕ
  pub freeswap : ℕ
  pub procs : ℕ
  pub load1 : ℕ
  pub load5 : ℕ
  pub load15 : ℕ

pub record UtsName : Type 0 where
  pub sysname : List ℕ
  pub nodename : List ℕ
  pub release : List ℕ
  pub version : List ℕ
  pub machine : List ℕ

pub record Environment : Type 0 where
  -- A descriptor, or -1.
  pub timerfd_create : History → ℤ
  -- Negative on an error.
  pub timerfd_settime : History → ℤ
  -- `none` on an error.
  pub split_uri : List ℕ → Option CoapUri
  pub getaddrinfo : History → List ℕ → Option (List (Family × ℕ))
  -- What a local variable holds that was never assigned.
  pub uninitialised : History → ℤ
  pub new_context : History → Option ℕ
  pub new_session : History → Option ℕ
  pub new_pdu : History → Bool
  pub add_token : History → Bool
  -- A descriptor, or -1.
  pub context_fd : History → ℤ
  pub dtls_supported : History → Bool
  pub new_endpoint : History → Bool
  -- The address of the resource, or none.
  pub new_resource : History → Option ℕ
  -- `socket` gives a descriptor, and `bind` and `listen` 0, or -1.
  pub socket : History → ℤ
  pub bind : History → ℤ
  pub listen : History → ℤ
  -- The dotted address of the configured interface; `none` where `socket` fails.
  pub local_ip : History → Option (List ℕ)
  -- The digits of a number, as "%u" prints them.
  pub print_unsigned : ℕ → List ℕ
  pub accept : History → ℤ
  -- `none` on an error.
  pub sysinfo : History → Option SysInfo
  pub uname : History → Option UtsName
  -- What a read of /etc/hostname gives; `none` where it cannot be opened.
  pub read_hostname : History → Option (List ℕ)
