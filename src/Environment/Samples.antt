-- ===== src/Environment/Samples.antt =====
-- Environments for tests.
use atlas_client.Prelude.{
  ℕ, suc, ◌+◌, List, Option, if◌then◌else◌, bytes_eq, true, false, none, some, [], ◌∷◌, pos,
  minus_one, codes,
}
use atlas_client.Environment.{inet, resource_added, resource_deleted, History, Environment}

-- Timers get descriptor 7 and arm without an error; everything else fails or is empty.
abbrev pub steady : Environment
steady = record {
  timerfd_create = λ h. pos 7;
  timerfd_settime = λ h. pos 0;
  split_uri = λ u. none;
  getaddrinfo = λ h u. none;
  uninitialised = λ h. pos 0;
  new_context = λ h. none;
  new_session = λ h. none;
  new_pdu = λ h. false;
  add_token = λ h. false;
  context_fd = λ h. minus_one;
  dtls_supported = λ h. true;
  new_endpoint = λ h. false;
  new_resource = λ h. none;
  socket = λ h. minus_one;
  bind = λ h. pos 0;
  listen = λ h. pos 0;
  local_ip = λ h. none;
  print_unsigned = λ n. [];
  accept = λ h. minus_one;
  sysinfo = λ h. none;
  uname = λ h. none;
  read_hostname = λ h. none;
}

-- Greater than each resource that was added.
abbrev pub next_resource : History → ℕ
next_resource [] = 0
next_resource (resource_added uri r ∷ h) = suc (r + next_resource h)
next_resource (_ ∷ h) = next_resource h

-- The resource that was added last under the path.
abbrev pub last_resource : History → List ℕ → Option ℕ
last_resource [] path = none
last_resource (resource_added uri r ∷ h) path =
    let before = last_resource h path in if bytes_eq uri path then some r else before
last_resource (resource_deleted uri r ∷ h) path =
    let before = last_resource h path in if bytes_eq uri path then none else before
last_resource (_ ∷ h) path = last_resource h path

-- The network answers as well: context 1, session 2 and descriptor 9, for any URI.
abbrev pub online : Environment
online = record steady {
  split_uri = λ u. some (record { is_coaps = true; host = codes "gw" });
  getaddrinfo = λ h u. some ((inet, 16) ∷ []);
  new_context = λ h. some 1;
  new_session = λ h. some 2;
  new_pdu = λ h. true;
  add_token = λ h. true;
  context_fd = λ h. pos 9;
  new_endpoint = λ h. true;
  new_resource = λ h. some (next_resource h);
  socket = λ h. pos 5;
  local_ip = λ h. some (codes "10.0.0.2");
  print_unsigned = λ n. codes "10100";
}
