-- ===== src/Environment/Registry.antt =====
-- libcoap's table of resources, for tests: the resource that was added last under a path.
use atlas_client.Prelude.{ℕ, ◌<◌, ◌≡◌, some, List, [], ◌∷◌, arith}
use atlas_client.Environment.{History, resource_added, resource_deleted}
use atlas_client.Environment.Samples.{next_resource, last_resource}

pub last_resource_lt :
    (h : History) (path : List ℕ) (r : ℕ) → last_resource h path ≡ some r → r < next_resource h
last_resource_lt [] path r e = cc
last_resource_lt (resource_added uri n ∷ h) path r e = ground (arith, last_resource_lt h path r)
last_resource_lt (resource_deleted uri n ∷ h) path r e = ground (arith, last_resource_lt h path r)
last_resource_lt (_ ∷ h) path r e = last_resource_lt h path r e
