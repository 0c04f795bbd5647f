-- ===== src/CoapServer/Table.antt =====
-- The server as a table of callbacks by path and method, which is what its clients rely on. Which
-- resource has a path is libcoap's to say: `find`, with what the source relies on.
use atlas_client.Prelude.{
  ℕ, ◌≡◌, ◌≢◌, refl, sym, ap, ◌∙◌, Bool, true, false, Option, none, some, List, [], ◌∷◌, ◌++◌, All,
  All-append, arith, ◌==◌, ==_iff, ==_refl, if◌then◌else◌, bytes_eq, bytes_eq_iff, Bool-cases, inl,
  inr,
}
use atlas_client.Status.{Method, get, post, put, delete}
use atlas_client.Callbacks.{ServerCallback}
use atlas_client.Environment.{
  History, Environment, resource_created, handler_registered, resource_added,
}
use atlas_client.World.{World, Server, Listener, recorded}
use atlas_client.CoapServer.{listeners, set_listeners, install}
use atlas_client.CoapServer.Requests.{listener_of}

-- The path of a request leads to the resource that was added under it. A new resource does not have the
-- address of one that a path leads to.
pub record IsRegistry (env : Environment) (find : History → List ℕ → Option ℕ) : Type 0 where
  pub added : (uri : List ℕ) (r : ℕ) (h : History) → find (resource_added uri r ∷ h) uri ≡ some r
  pub added_other :
      (uri path : List ℕ) (r : ℕ) (h : History)
      → bytes_eq uri path ≡ false
      → find (resource_added uri r ∷ h) path ≡ find h path
  pub created :
      (uri path : List ℕ) (made : Option ℕ) (h : History)
      → find (resource_created uri made ∷ h) path ≡ find h path
  pub registered :
      (r : ℕ) (method : Method) (path : List ℕ) (h : History)
      → find (handler_registered r method ∷ h) path ≡ find h path
  pub distinct :
      (h : History) (r : ℕ) (path : List ℕ) → env.new_resource h ≡ some r → find h path ≢ some r

abbrev pub Table : Type 0
Table = List ℕ → Method → Option ServerCallback

abbrev pub same : Method → Method → Bool
same get get = true
same post post = true
same put put = true
same delete delete = true
same _ _ = false

-- The table with one more end-point.
abbrev pub register : List ℕ → Method → ServerCallback → Table → Table
register uri method cb table path m =
    if bytes_eq uri path then (if same method m then some cb else none) else table path m

abbrev pub callback_of : Option Listener → Option ServerCallback
callback_of none = none
callback_of (some l) = some l.callback

abbrev pub listed : Option ℕ → List Listener → Option Listener
listed none ls = none
listed (some r) ls = listener_of r ls

pub listeners-append :
    (method m : Method) (l : Listener) (s : Server)
    → listeners m (set_listeners method (listeners method s ++ l ∷ []) s)
      ≡ (if same method m then listeners m s ++ l ∷ [] else listeners m s)
listeners-append get get l s = refl
listeners-append get post l s = refl
listeners-append get put l s = refl
listeners-append get delete l s = refl
listeners-append post get l s = refl
listeners-append post post l s = refl
listeners-append post put l s = refl
listeners-append post delete l s = refl
listeners-append put get l s = refl
listeners-append put post l s = refl
listeners-append put put l s = refl
listeners-append put delete l s = refl
listeners-append delete get l s = refl
listeners-append delete post l s = refl
listeners-append delete put l s = refl
listeners-append delete delete l s = refl

-- Appended behind the listeners of other resources, or of its own.
listener_of-append :
    (r : ℕ) (ls : List Listener) (l : Listener)
    → listener_of r ls ≡ none
    → listener_of r (ls ++ l ∷ []) ≡ (if l.resource == r then some l else none)
unfolding listener_of
listener_of-append r [] l h = refl
listener_of-append r (x ∷ ls) l h = ground (arith, listener_of-append r ls l)

listener_of-other :
    (r : ℕ) (ls : List Listener) (l : Listener)
    → (l.resource == r) ≡ false
    → listener_of r (ls ++ l ∷ []) ≡ listener_of r ls
unfolding listener_of
listener_of-other r [] l h = rw h refl
listener_of-other r (x ∷ ls) l h = ground (arith, listener_of-other r ls l h)

-- Where the lists of two states differ by a new listener that the look-up does not ask for.
listed-other :
    (o : Option ℕ) (b : Bool) (ls : List Listener) (l : Listener)
    → o ≢ some l.resource
    → listed o (if b then ls ++ l ∷ [] else ls) ≡ listed o ls
listed-other none b ls l h = refl
listed-other (some r) false ls l h = refl
listed-other (some r) true ls l h = elim (Bool-cases (l.resource == r)) [
  | inl eq ↦ elim (h (ap some (sym ((==_iff l.resource r).0 eq)))) [ ]
  | inr neq ↦ listener_of-other r ls l neq
]

-- And by a new listener that it asks for.
listed-new :
    (b : Bool) (ls : List Listener) (l : Listener)
    → listener_of l.resource ls ≡ none
    → callback_of (listed (some l.resource) (if b then ls ++ l ∷ [] else ls))
      ≡ (if b then some l.callback else none)
listed-new false ls l h = rw h refl
listed-new true ls l h = rw (listener_of-append l.resource ls l h, ==_refl l.resource) refl

module _ (env : Environment) (find : History → List ℕ → Option ℕ) where
  -- What the server does with a request of this path and method.
  abbrev pub served : World → Table
  served w path m = callback_of (listed (find w.client.timers.history path) (listeners m w.server))

  -- A listener's path leads to its resource.
  abbrev pub IsLive : World → Type 0
  IsLive w =
      (m : Method)
      → All (λ l. find w.client.timers.history l.uri_path ≡ some l.resource) (listeners m w.server)

  abbrev pub IsUnused : ℕ → History → Type 0
  IsUnused r h = (path : List ℕ) → find h path ≢ some r

  unlisted :
      (r : ℕ) (h : History) (ls : List Listener)
      → IsUnused r h
      → All (λ l. find h l.uri_path ≡ some l.resource) ls
      → listener_of r ls ≡ none
  unfolding listener_of
  unlisted r h [] new live = refl
  unlisted r h (l ∷ ls) new live = elim (Bool-cases (l.resource == r)) [
    | inl found ↦ elim (new l.uri_path (live.0 ∙ ap some ((==_iff l.resource r).0 found))) [ ]
    | inr other ↦ rw other (unlisted r h ls new live.1)
  ]

  module _ (laws : IsRegistry env find) where
    pub after_install :
        (uri path : List ℕ) (method : Method) (r : ℕ) (h : History)
        → find
            (resource_added uri r ∷ handler_registered r method ∷ resource_created uri (some r) ∷ h)
            path
          ≡ (if bytes_eq uri path then some r else find h path)
    after_install uri path method r h = elim (Bool-cases (bytes_eq uri path)) [
      | inl here ↦ rw (here, sym ((bytes_eq_iff uri path).0 here)) (laws.added uri r _)
      | inr there ↦ rw there (
          laws.added_other uri path r _ there
          ∙ laws.registered r method path _
          ∙ laws.created uri path (some r) h)
    ]

    -- What `install` makes of a world whose history has the resource's creation.
    pub install-served :
        (uri path : List ℕ) (method m : Method) (cb : ServerCallback) (r : ℕ) (w : World)
        → IsLive w
        → IsUnused r w.client.timers.history
        → served
            (install uri method cb (some r) (recorded (resource_created uri (some r)) w)).1
            path
            m
          ≡ register uri method cb (served w) path m
    unfolding install
    install-served uri path method m cb r w live new =
        let l : Listener = record { resource = r; callback = cb; uri_path = uri } in
        let h = w.client.timers.history in
        rw (listeners-append method m l w.server, after_install uri path method r h)
          (elim (Bool-cases (bytes_eq uri path)) [
            | inl here ↦ rw here (
                listed-new (same method m) (listeners m w.server) l
                  (unlisted r h (listeners m w.server) new (live m)))
            | inr there ↦ rw there (
                ap callback_of
                  (listed-other (find h path) (same method m) (listeners m w.server) l (new path)))
          ])

    -- Where no path leads to the new end-point's one, each listener's path still leads to it.
    pub install-IsLive :
        (uri : List ℕ) (method : Method) (cb : ServerCallback) (r : ℕ) (w : World)
        → IsLive w
        → find w.client.timers.history uri ≡ none
        → IsLive (install uri method cb (some r) (recorded (resource_created uri (some r)) w)).1
    unfolding install
    install-IsLive uri method cb r w live free m =
        rw (listeners-append method m l w.server) (by_method (same method m))
      where
        h : History
        h = w.client.timers.history

        h' : History
        h' = resource_added uri r ∷ handler_registered r method ∷ resource_created uri (some r) ∷ h

        l : Listener
        l = record { resource = r; callback = cb; uri_path = uri }

        older :
            (ls : List Listener)
            → All (λ x. find h x.uri_path ≡ some x.resource) ls
            → All (λ x. find h' x.uri_path ≡ some x.resource) ls
        older [] a = tt
        older (x ∷ ls) a = (
          elim (Bool-cases (bytes_eq uri x.uri_path)) [
            | inl here ↦ cc (free, a.0, (bytes_eq_iff uri x.uri_path).0 here)
            | inr there ↦ after_install uri x.uri_path method r h ∙ rw there a.0
          ],
          older ls a.1,
        )

        by_method :
            (b : Bool)
            → All
                (λ x. find h' x.uri_path ≡ some x.resource)
                (if b then listeners m w.server ++ l ∷ [] else listeners m w.server)
        by_method true =
            All-append _ (listeners m w.server) (l ∷ []) (older _ (live m)) (laws.added uri r _, tt)
        by_method false = older _ (live m)
