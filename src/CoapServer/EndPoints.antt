-- ===== src/CoapServer/EndPoints.antt =====
-- End-points that are added one after the other until one fails, as the parts add theirs: the ends of
-- atlas_telemetry_add_sysinfo and atlas_telemetry_add_packets_info of src/telemetry, and what they make of
-- the server's table.
use std.Path.{fun_ext}
use atlas_client.Prelude.{
  not, ◌&&◌, All-map, ℕ, ◌≡◌, refl, ap, ◌∙◌, Bool, true, false, Option, none, some, List, [], ◌∷◌,
  ◌++◌, All, arith, bytes_eq, bytes_eq_comm,
}
use atlas_client.Status.{Status, ok, put}
use atlas_client.Callbacks.{ServerCallback}
use atlas_client.Environment.{History, Environment, resource_created}
use atlas_client.World.{World, recorded}
use atlas_client.CoapServer.{listeners, install, add_resource}
use atlas_client.CoapServer.Table.{
  IsRegistry, Table, register, served, IsLive, after_install, install-served, install-IsLive,
}

pub record EndPoint : Type 0 where
  pub uri : List ℕ
  pub callback : ServerCallback

-- What is done after a success.
unfoldable pub on_ok : (World → Status × World) → Status × World → Status × World
on_ok next (ok, w) = next w
on_ok next (status, w) = (status, w)

-- With the status of the last one that was tried.
unfoldable pub add_end_points : Environment → List EndPoint → World → Status × World
add_end_points env [] w = (ok, w)
add_end_points env (e ∷ es) w =
    on_ok (add_end_points env es) (add_resource env (some e.uri) put (some e.callback) w)

-- The table with these end-points, in order.
abbrev pub register_all : List EndPoint → Table → Table
register_all [] table = table
register_all (e ∷ es) table = register_all es (register e.uri put e.callback table)

-- Different paths.
abbrev pub IsDistinct : List EndPoint → Type 0
IsDistinct [] = Unit
IsDistinct (e ∷ es) = All (λ x. bytes_eq e.uri x.uri ≡ false) es × IsDistinct es

unfoldable pub differs : List ℕ → List EndPoint → Bool
differs uri [] = true
differs uri (e ∷ es) = not (bytes_eq uri e.uri) && differs uri es

unfoldable pub distinct : List EndPoint → Bool
distinct [] = true
distinct (e ∷ es) = differs e.uri es && distinct es

differs-All :
    (uri : List ℕ) (es : List EndPoint)
    → differs uri es ≡ true
    → All (λ x. bytes_eq uri x.uri ≡ false) es
unfolding differs
differs-All uri [] h = tt
differs-All uri (e ∷ es) h = (ground arith, differs-All uri es (ground arith))

pub distinct_lem : (es : List EndPoint) → distinct es ≡ true → IsDistinct es
unfolding distinct
distinct_lem [] h = tt
distinct_lem (e ∷ es) h = (differs-All e.uri es (ground arith), distinct_lem es (ground arith))

module _ (env : Environment) (find : History → List ℕ → Option ℕ) where
  -- The first ones of the end-points are in the table; all of them, where the status is ATLAS_OK.
  pub record Registered (es : List EndPoint) (w : World) (result : Status × World) : Type 0 where
    pub done : List EndPoint
    pub rest : List EndPoint
    pub split : es ≡ done ++ rest
    pub table : served env find result.1 ≡ register_all done (served env find w)
    pub unchanged :
        (path : List ℕ)
        → differs path es ≡ true
        → find result.1.client.timers.history path ≡ find w.client.timers.history path
    pub complete : result.0 ≡ ok → rest ≡ []
    pub live : IsLive env find result.1

  abbrev pub AreFree : List EndPoint → World → Type 0
  AreFree es w = All (λ e. find w.client.timers.history e.uri ≡ none) es

  more :
      {es : List EndPoint} {e : EndPoint} {u v : World} {result : Status × World}
      → served env find v ≡ register e.uri put e.callback (served env find u)
      → ((path : List ℕ)
          → bytes_eq e.uri path ≡ false
          → find v.client.timers.history path ≡ find u.client.timers.history path)
      → Registered es v result
      → Registered (e ∷ es) u result
  unfolding differs
  more {es} {e} step aside r = record {
    done = e ∷ r.done;
    rest = r.rest;
    split = ap (λ xs. e ∷ xs) r.split;
    table = r.table ∙ ap (register_all r.done) step;
    unchanged = λ path h. r.unchanged path (both path h).1 ∙ aside path (both path h).0;
    complete = r.complete;
    live = r.live;
  }
    where
      both :
          (path : List ℕ)
          → differs path (e ∷ es) ≡ true
          → (bytes_eq e.uri path ≡ false) × (differs path es ≡ true)
      both path h = (bytes_eq_comm e.uri path ∙ ground arith, ground arith)

  module _ (laws : IsRegistry env find) where
    still_free :
        (e : EndPoint) (r : ℕ) (w : World) (es : List EndPoint)
        → All (λ x. bytes_eq e.uri x.uri ≡ false) es
        → AreFree es w
        → AreFree es
            (install e.uri put e.callback (some r) (recorded (resource_created e.uri (some r)) w)).1
    unfolding install
    still_free e r w [] d f = tt
    still_free e r w (x ∷ es) d f = (
      after_install env find laws e.uri x.uri put r w.client.timers.history ∙ rw d.0 f.0,
      still_free e r w es d.1 f.1,
    )

    -- A resource that could not be created.
    created-served :
        (uri : List ℕ) (w : World)
        → served env find (recorded (resource_created uri none) w) ≡ served env find w
    created-served uri w =
        fun_ext
          (λ path. fun_ext (λ m. rw (laws.created uri path none w.client.timers.history) refl))

    created-IsLive :
        (uri : List ℕ) (w : World)
        → IsLive env find w
        → IsLive env find (recorded (resource_created uri none) w)
    created-IsLive uri w live m =
        All-map (λ l h. laws.created uri l.uri_path none w.client.timers.history ∙ h)
          (listeners m w.server) (live m)

    -- With what libcoap made; `next` adds the rest.
    first-Registered :
        (e : EndPoint) (es : List EndPoint) (next : World → Status × World) (w : World)
        (made : Option ℕ)
        → env.new_resource w.client.timers.history ≡ made
        → All (λ x. bytes_eq e.uri x.uri ≡ false) es
        → AreFree (e ∷ es) w
        → IsLive env find w
        → ((v : World) → AreFree es v → IsLive env find v → Registered es v (next v))
        → Registered (e ∷ es) w (
            on_ok next
              (install e.uri put e.callback made (recorded (resource_created e.uri made) w)))
    unfolding install on_ok
    first-Registered e es next w none h d f live ih = record {
      done = [];
      rest = e ∷ es;
      split = refl;
      table = created-served e.uri w;
      unchanged = λ path a. laws.created e.uri path none w.client.timers.history;
      complete = λ s. cc;
      live = created-IsLive e.uri w live;
    }
    first-Registered e es next w (some r) h d f live ih =
        let new = λ (path : List ℕ). laws.distinct w.client.timers.history r path h in
        more
          (fun_ext (λ path.
            fun_ext (λ m. install-served env find laws e.uri path put m e.callback r w live new)))
          (λ path other.
            after_install env find laws e.uri path put r w.client.timers.history ∙ rw other refl)
          (ih _ (still_free e r w es d f.1)
            (install-IsLive env find laws e.uri put e.callback r w live f.0))

    -- No two of the new paths are equal and no path leads to a resource yet: then the end-points that
    -- were added before one failed are registered, each for PUT, and the table is as it was otherwise;
    -- on success all are.
    pub add_end_points-Registered :
        (es : List EndPoint) (w : World)
        → IsDistinct es
        → AreFree es w
        → IsLive env find w
        → Registered es w (add_end_points env es w)
    unfolding add_end_points add_resource
    add_end_points-Registered [] w d f live = record {
      done = [];
      rest = [];
      split = refl;
      table = refl;
      unchanged = λ path a. refl;
      complete = λ h. refl;
      live = live;
    }
    add_end_points-Registered (e ∷ es) w d f live =
        first-Registered e es (add_end_points env es) w _ refl d.0 f live
          (λ v f' live'. add_end_points-Registered es v d.1 f' live')
