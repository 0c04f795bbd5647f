-- ===== src/CoapServer/Samples.antt =====
-- A table of resources for tests keeps what the source relies on.
use atlas_client.Prelude.{refl, arith, bytes_eq_iff}
use mathlib.Core.Option.{some-injective}
use atlas_client.Status.{get, post, put, delete}
use atlas_client.World.Samples.{fresh}
use atlas_client.Environment.Samples.{next_resource, last_resource, online}
use atlas_client.Environment.Registry.{last_resource_lt}
use atlas_client.CoapServer.Table.{IsRegistry, IsLive}

pub online-IsRegistry : IsRegistry online last_resource
online-IsRegistry = record {
  added = λ uri r h. rw ((bytes_eq_iff uri uri).1 refl) refl;
  added_other = λ uri path r h other. rw other refl;
  created = λ uri path made h. refl;
  registered = λ r method path h. refl;
  distinct = λ h r path new found.
      let below = last_resource_lt h path r found in
      let same = some-injective (next_resource h) r new in omega (arith, below, same);
}

pub fresh-IsLive : IsLive online last_resource fresh
fresh-IsLive get = tt
fresh-IsLive post = tt
fresh-IsLive put = tt
fresh-IsLive delete = tt
