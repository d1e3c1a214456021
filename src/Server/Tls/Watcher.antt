-- ===== src/Server/Tls/Watcher.antt =====
-- newDynamicTLSConfig of pkg/server/tls.go with its watcher. Clean and Dir of path/filepath, the
-- watcher of fsnotify, and the order in which a map is gone through are parameters.
use kiam.Base.{◌≡◌, refl, ◌∙◌, ◌⊎◌, inl, inr, Bool, true, false, Option, none, some, List, [], ◌∷◌}
use mathlib.Core.List.{Memᴰ}
use mathlib.Core.List.Memᴰ
use kiam.Base.Text.{Text}
use kiam.Base.Outcome.{Outcome, ok, err, panic, Outcome-cases}
use kiam.Server.Tls.{Tools, Files, DynamicTlsConfig, new_dynamic_tls_config}

pub record FsnotifyWatcher : Type 0 where
  pub directories : List Text
  pub is_closed : Bool

-- The loop over the directories; `add` is the Add of the watcher.
pub add_all :
    (Text → Outcome (Unit {0})) → List Text → FsnotifyWatcher → Outcome (Unit {0}) × FsnotifyWatcher
add_all add [] w = (ok tt, w)
add_all add (d ∷ rest) w = elim (add d) [
  | ok _ ↦ add_all add rest (record w { directories = d ∷ w.directories })
  | err e ↦ (err e, w)
  | panic ↦ (panic, w)
]

module _ (t : Tools) where
  read_first :
      Files → Outcome (Unit {0}) × FsnotifyWatcher → Outcome (DynamicTlsConfig t) × FsnotifyWatcher
  read_first files (ok _, w) = (new_dynamic_tls_config t files, w)
  read_first files (err e, w) = (err e, w)
  read_first files (panic, w) = (panic, w)

  -- The deferred function closes the watcher on an error.
  closed_on_error :
      Outcome (DynamicTlsConfig t) × FsnotifyWatcher
      → Outcome (DynamicTlsConfig t) × Option FsnotifyWatcher
  closed_on_error (ok config, w) = (ok config, some w)
  closed_on_error (err e, w) = (err e, some (record w { is_closed = true }))
  closed_on_error (panic, w) = (panic, some w)

  -- No watcher is left open.
  abbrev pub ClosedOrNone : Option FsnotifyWatcher → Type 0
  ClosedOrNone none = Unit {0}
  ClosedOrNone (some w) = w.is_closed ≡ true

  abbrev pub WatchesAll : List Text → Option FsnotifyWatcher → Type 0
  WatchesAll dirs none = ⊥
  WatchesAll dirs (some w) =
      (w.is_closed ≡ false) × ((d : Text) → Memᴰ d dirs → Memᴰ d w.directories)

  abbrev pub Settled :
      List Text → Files → Outcome (DynamicTlsConfig t) × Option FsnotifyWatcher → Type 0
  Settled dirs files (ok config, w) =
      WatchesAll dirs w × (new_dynamic_tls_config t files ≡ ok config)
  Settled dirs files (err e, w) = ClosedOrNone w
  Settled dirs files (panic, w) = Unit {0}

-- path/filepath, and the keys of a map in the order of its `range`.
pub record Paths : Type 0 where
  pub clean : Text → Text
  pub dir : Text → Text
  pub keys : List Text → List Text
  pub keys_all : (d : Text) (ds : List Text) → Memᴰ d ds → Memᴰ d (keys ds)

-- The directories of the three files.
unfoldable pub dirs_of : Paths → Text → Text → Text → List Text
dirs_of p cert_file key_file ca_file =
    p.dir (p.clean cert_file) ∷ p.dir (p.clean key_file) ∷ p.dir (p.clean ca_file) ∷ []

module _ (t : Tools) (p : Paths) where
  -- The first arguments are what NewWatcher and its Add do, the last the contents of the files.
  unfoldable pub new_watched_tls_config :
      Outcome (Unit {0})
      → (Text → Outcome (Unit {0}))
      → Text
      → Text
      → Text
      → Files
      → Outcome (DynamicTlsConfig t) × Option FsnotifyWatcher
  unfolding add_all read_first closed_on_error dirs_of
  new_watched_tls_config (ok _) add cert_file key_file ca_file files =
      let dirs = p.keys (dirs_of p cert_file key_file ca_file) in
      let w : FsnotifyWatcher = record { directories = []; is_closed = false } in
      closed_on_error t (read_first t files (add_all add dirs w))
  new_watched_tls_config (err e) add cert_file key_file ca_file files = (err e, none)
  new_watched_tls_config panic add cert_file key_file ca_file files = (panic, none)

-- The directories are added to those that are watched.
abbrev Adds : List Text → FsnotifyWatcher → Outcome (Unit {0}) × FsnotifyWatcher → Type 0
Adds dirs w p =
    p.0 ≡ ok tt
    → (p.1.is_closed ≡ w.is_closed)
      × ((d : Text) → Memᴰ d dirs ⊎ Memᴰ d w.directories → Memᴰ d p.1.directories)

already_there : (d : Text) (ds : List Text) → Memᴰ d [] ⊎ Memᴰ d ds → Memᴰ d ds
already_there d ds (inl m) = absurd (Memᴰ.not-nil m)
already_there d ds (inr m) = m

move :
    (d x : Text) (rest ds : List Text)
    → Memᴰ d (x ∷ rest) ⊎ Memᴰ d ds
    → Memᴰ d rest ⊎ Memᴰ d (x ∷ ds)
move d x rest ds (inl (Memᴰ.head e)) = inr (Memᴰ.head e)
move d x rest ds (inl (Memᴰ.tail m)) = inl m
move d x rest ds (inr m) = inr (Memᴰ.tail m)

add_all-Adds :
    (add : Text → Outcome (Unit {0})) (dirs : List Text) (w : FsnotifyWatcher)
    → Adds dirs w (add_all add dirs w)
unfolding add_all
add_all-Adds add [] w = λ e. (refl, λ d m. already_there d w.directories m)
add_all-Adds add (x ∷ rest) w = elim (Outcome-cases (add x)) [
  | inl (u, a) ↦
      rw (a, add_all)
        (λ e.
          let (open_as_before, added) =
            add_all-Adds add rest (record w { directories = x ∷ w.directories }) e in
          (open_as_before, λ d m. added d (move d x rest w.directories m)))
  | inr (inl (x, a)) ↦ rw (a, add_all) (λ e. cc)
  | inr (inr a) ↦ rw (a, add_all) (λ e. cc)
]

module _ (t : Tools) where
  read_first-Settled :
      (files : Files) (dirs : List Text) (w : FsnotifyWatcher)
      (p : Outcome (Unit {0}) × FsnotifyWatcher)
      → w.is_closed ≡ false
      → Adds dirs w p
      → Settled t dirs files (closed_on_error t (read_first t files p))
  unfolding closed_on_error read_first
  read_first-Settled files dirs w (ok _, after) is_open adds =
      elim (Outcome-cases (new_dynamic_tls_config t files)) [
        | inl (config, e) ↦
            let (open_as_before, added) = adds refl in
            rw e ((open_as_before ∙ is_open, λ d m. added d (inl m)), e)
        | inr (inl (x, e)) ↦ rw e refl
        | inr (inr e) ↦ rw e tt
      ]
  read_first-Settled files dirs w (err e, after) is_open adds = refl
  read_first-Settled files dirs w (panic, after) is_open adds = tt

  Settled-fewer :
      (all fewer : List Text) (files : Files)
      (o : Outcome (DynamicTlsConfig t) × Option FsnotifyWatcher)
      → ((d : Text) → Memᴰ d fewer → Memᴰ d all)
      → Settled t all files o
      → Settled t fewer files o
  Settled-fewer all fewer files (ok config, some w) sub ((is_open, watched), e) =
      ((is_open, λ d m. watched d (sub d m)), e)
  Settled-fewer all fewer files (ok config, none) sub h = absurd h.0
  Settled-fewer all fewer files (err e, w) sub h = h
  Settled-fewer all fewer files (panic, w) sub h = h

  -- newDynamicTLSConfig returns the configuration that the files give, with an open watcher to which
  -- the directories of the three files were added; or an error, with no watcher left open; or
  -- something panicked. This does not depend on the order in which the directories are gone through.
  pub new_watched_tls_config-Settled :
      (p : Paths) (watcher : Outcome (Unit {0})) (add : Text → Outcome (Unit {0}))
      (cert_file key_file ca_file : Text) (files : Files)
      → Settled t
          (dirs_of p cert_file key_file ca_file)
          files
          (new_watched_tls_config t p watcher add cert_file key_file ca_file files)
  unfolding new_watched_tls_config closed_on_error
  new_watched_tls_config-Settled p (ok _) add cert_file key_file ca_file files =
      let dirs = dirs_of p cert_file key_file ca_file in
      let fresh : FsnotifyWatcher = record { directories = []; is_closed = false } in
      Settled-fewer (p.keys dirs) dirs files _ (λ d m. p.keys_all d dirs m)
        (read_first-Settled files (p.keys dirs) fresh (add_all add (p.keys dirs) fresh) refl
          (add_all-Adds add (p.keys dirs) fresh))
  new_watched_tls_config-Settled p (err e) add cert_file key_file ca_file files = tt
  new_watched_tls_config-Settled p panic add cert_file key_file ca_file files = tt
