-- ===== src/CoapServer/AllAdded.antt =====
-- Where libcoap makes every resource, no end-point is left out.
use atlas_client.Prelude.{
  ℕ, ◌≡◌, ◌≢◌, refl, ◌∙◌, ap, sym, append-nil, All, true, arith, Option, none, some, List, [], ◌∷◌,
  ◌++◌,
}
use atlas_client.Status.{Status, ok, Method, put}
use atlas_client.Callbacks.{ServerCallback}
use atlas_client.Environment.{History, Environment}
use atlas_client.World.{World}
use atlas_client.CoapServer.{listeners, install, add_resource}
use atlas_client.CoapServer.Table.{IsRegistry, Table, callback_of, listed, served, IsLive}
use atlas_client.CoapServer.EndPoints.{
  EndPoint, differs, on_ok, add_end_points, register_all, IsDistinct, AreFree, Registered,
  add_end_points-Registered,
}

register_all-append :
    (es es' : List EndPoint) (table : Table)
    → register_all (es ++ es') table ≡ register_all es' (register_all es table)
register_all-append [] es' table = refl
register_all-append (e ∷ es) es' table = register_all-append es es' _

differs-append :
    (path : List ℕ) (es es' : List EndPoint)
    → differs path (es ++ es') ≡ true
    → (differs path es ≡ true) × (differs path es' ≡ true)
unfolding differs
differs-append path [] es' h = (refl, h)
differs-append path (e ∷ es) es' h =
    (ground (arith, differs-append path es es'), ground (arith, differs-append path es es'))

module _ (env : Environment) where
  abbrev pub MakesAll : Type 0
  MakesAll = (h : History) → env.new_resource h ≢ none

  install-ok :
      (uri : List ℕ) (method : Method) (cb : ServerCallback) (made : Option ℕ) (w : World)
      → made ≢ none
      → (install uri method cb made w).0 ≡ ok
  unfolding install
  install-ok uri method cb none w h = elim (h refl) [ ]
  install-ok uri method cb (some r) w h = refl

  pub add_resource-ok :
      MakesAll
      → (uri : List ℕ) (method : Method) (cb : ServerCallback) (w : World)
      → (add_resource env (some uri) method (some cb) w).0 ≡ ok
  unfolding add_resource
  add_resource-ok all uri method cb w = install-ok uri method cb _ _ (all _)

  on_ok_lem :
      (next : World → Status × World) (s : Status) (w : World) → s ≡ ok → on_ok next (s, w) ≡ next w
  unfolding on_ok
  on_ok_lem next s w h = rw h refl

  pub add_end_points-first :
      MakesAll
      → (e : EndPoint) (es : List EndPoint) (w : World)
      → add_end_points env (e ∷ es) w
        ≡ add_end_points env es (add_resource env (some e.uri) put (some e.callback) w).1
  unfolding add_end_points
  add_end_points-first all e es w = on_ok_lem _ _ _ (add_resource-ok all e.uri put e.callback w)

  add_end_points-ok : MakesAll → (es : List EndPoint) (w : World) → (add_end_points env es w).0 ≡ ok
  add_end_points-ok all [] w = unfold add_end_points in refl
  add_end_points-ok all (e ∷ es) w =
      ap (λ r. r.0) (add_end_points-first all e es w) ∙ add_end_points-ok all es _

  module _ (find : History → List ℕ → Option ℕ) where
    -- `v` is `u` with these end-points in the table, whatever else has changed.
    pub record Adds (es : List EndPoint) (u v : World) : Type 0 where
      pub table : served env find v ≡ register_all es (served env find u)
      pub unchanged :
          (path : List ℕ)
          → differs path es ≡ true
          → find v.client.timers.history path ≡ find u.client.timers.history path
      pub live : IsLive env find v

    pub Adds-none :
        (u v : World) → v.client ≡ u.client → v.server ≡ u.server → IsLive env find u → Adds [] u v
    Adds-none u v c s live = record {
      table = λ i path m. callback_of (listed (find (c i).timers.history path) (listeners m (s i)));
      unchanged = λ path d. rw c refl;
      live = rw (c, s) live;
    }

    pub Adds-then :
        {es es' : List EndPoint} {u v w : World} → Adds es u v → Adds es' v w → Adds (es ++ es') u w
    Adds-then {es} {es'} {u} h k = record {
      table =
          k.table
          ∙ ap (register_all es') h.table
          ∙ sym (register_all-append es es' (served env find u));
      unchanged = λ path d.
          let both = differs-append path es es' d in
          k.unchanged path both.1 ∙ h.unchanged path both.0;
      live = k.live;
    }

    pub Adds-AreFree :
        {es : List EndPoint} {u v : World}
        → Adds es u v
        → (es' : List EndPoint) → All (λ e. differs e.uri es ≡ true) es'
        → AreFree env find es' u
        → AreFree env find es' v
    Adds-AreFree h [] d f = tt
    Adds-AreFree h (e ∷ es') d f = (h.unchanged e.uri d.0 ∙ f.0, Adds-AreFree h es' d.1 f.1)

    -- All the end-points are in the table.
    pub add_end_points-Adds :
        IsRegistry env find
        → MakesAll
        → (es : List EndPoint) (w : World) → IsDistinct es
        → AreFree env find es w
        → IsLive env find w
        → Adds es w (add_end_points env es w).1
    add_end_points-Adds laws all es w d f live = record {
      table = r.table ∙ ap (λ xs. register_all xs (served env find w)) whole;
      unchanged = r.unchanged;
      live = r.live;
    }
      where
        r : Registered env find es w (add_end_points env es w)
        r = add_end_points-Registered env find laws es w d f live

        whole : r.done ≡ es
        whole = sym (
            r.split
            ∙ ap (λ xs. r.done ++ xs) (r.complete (add_end_points-ok all es w))
            ∙ append-nil r.done)
