-- ===== src/Server/Tls/Closing.antt =====
-- Close of pkg/server/tls.go beside the goroutine of `watch`. Calls of Close run at the same time as
-- each other and as the loop, so that a step is what one goroutine does. Of fsnotify it is used that its
-- channels are closed once the watcher is.
pub mod Laws
pub mod Returns
use kiam.Base.{ℕ, ◌+◌, ◌≡◌, ◌++◌, Bool, true, false, some, List, [], ◌∷◌}
use kiam.Base.Lists.{get_elem?, set_elem}
use kiam.Server.Tls.{Tools, Files, DynamicTlsConfig, on_event}

-- sync.Once: not used, with the call that runs its function, or done.
pub data Once : Type 0 where
  unused : Once
  taken : ℕ → Once
  done : Once

pub data Loop : Type 0 where
  watching ended : Loop

-- Where a call of Close is: at close.Do, at the channel `done`, or at its end.
pub data Closer : Type 0 where
  calling waiting returned : Closer

module _ (t : Tools) where
  -- A dynamicTLSConfig with its watcher; `closes` counts the calls of watcher.Close.
  pub record Watched : Type 0 where
    pub config : DynamicTlsConfig t
    pub once : Once
    pub watcher_open : Bool
    pub closes : ℕ
    pub loop : Loop
    pub closers : List Closer

  -- What newDynamicTLSConfig returns, its goroutine started.
  abbrev pub started : DynamicTlsConfig t → Watched
  started config = record {
    config = config;
    once = unused;
    watcher_open = true;
    closes = 0;
    loop = watching;
    closers = [];
  }

  pub data Step : Watched → Watched → Type 0 where
    event :
        {s : Watched} (files : Files)
        → s.loop ≡ watching
        → Step s (record s { config = on_event t files s.config })
    watch_error : {s : Watched} → s.loop ≡ watching → Step s s
    watch_ends :
        {s : Watched}
        → s.loop ≡ watching
        → s.watcher_open ≡ false
        → Step s (record s { loop = ended })
    call_close : {s : Watched} → Step s (record s { closers = s.closers ++ calling ∷ [] })
    enter_once :
        {s : Watched} (n : ℕ)
        → get_elem? s.closers n ≡ some calling
        → s.once ≡ unused
        → Step s (record s { once = taken n })
    close_watcher :
        {s : Watched} (n : ℕ)
        → s.once ≡ taken n
        → Step s (record s {
          once = done;
          watcher_open = false;
          closes = s.closes + 1;
          closers = set_elem n waiting s.closers;
        })
    skip_once :
        {s : Watched} (n : ℕ)
        → get_elem? s.closers n ≡ some calling
        → s.once ≡ done
        → Step s (record s { closers = set_elem n waiting s.closers })
    return_close :
        {s : Watched} (n : ℕ)
        → get_elem? s.closers n ≡ some waiting
        → s.loop ≡ ended
        → Step s (record s { closers = set_elem n returned s.closers })

  pub data Leads : Watched → Watched → Type 0 where
    here : {s : Watched} → Leads s s
    then : {s u v : Watched} → Leads s u → Step u v → Leads s v
