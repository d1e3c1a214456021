-- ===== src/Server/Tls/Closing/Laws.antt =====
-- What holds once Close of pkg/server/tls.go has returned.
use kiam.Base.{ℕ, ◌≡◌, ◌++◌, refl, sym, ◌∙◌, Bool, true, false, some, List, arith}
use mathlib.Core.Path.{subst}
use kiam.Base.Lists.{
  get_elem?, All, All-append, All-set_elem, All-get_elem?, All-weaken, get_elem?-append,
}
use kiam.Server.Tls.{Tools, DynamicTlsConfig}
use kiam.Server.Tls.Closing.{
  Once, unused, taken, done, Loop, watching, ended, Closer, calling, waiting, returned, Watched,
  started, Step, event, watch_error, watch_ends, call_close, enter_once, close_watcher, skip_once,
  return_close, Leads, here, then,
}

-- What has been closed, by the state of the Once.
abbrev pub OnceOk : Once → ℕ → Bool → Type 0
OnceOk unused closes is_open = (closes ≡ 0) × (is_open ≡ true)
OnceOk (taken n) closes is_open = (closes ≡ 0) × (is_open ≡ true)
OnceOk done closes is_open = (closes ≡ 1) × (is_open ≡ false)

abbrev pub LoopOk : Loop → Once → Type 0
LoopOk watching once = Unit {0}
LoopOk ended once = once ≡ done

-- The call in the Once has not gone on.
abbrev pub TakenOk : Once → List Closer → Type 0
TakenOk (taken n) closers = get_elem? closers n ≡ some calling
TakenOk _ closers = Unit {0}

abbrev pub CloserOk : Once → Loop → Closer → Type 0
CloserOk once loop calling = Unit {0}
CloserOk once loop waiting = once ≡ done
CloserOk once loop returned = (once ≡ done) × (loop ≡ ended)

CloserOk-done :
    (once : Once) (loop : Loop) (c : Closer) → CloserOk once loop c → CloserOk done loop c
CloserOk-done once loop calling h = tt
CloserOk-done once loop waiting h = refl
CloserOk-done once loop returned h = (refl, h.1)

CloserOk-ended :
    (once : Once) (loop : Loop) (c : Closer) → CloserOk once loop c → CloserOk once ended c
CloserOk-ended once loop calling h = tt
CloserOk-ended once loop waiting h = h
CloserOk-ended once loop returned h = (h.0, refl)

-- A call that has passed the Once has found it done.
CloserOk-taken :
    (once : Once) (loop : Loop) (n : ℕ) (c : Closer)
    → once ≡ unused
    → CloserOk once loop c
    → CloserOk (taken n) loop c
CloserOk-taken once loop n calling e h = tt
CloserOk-taken once loop n waiting e h = cc
CloserOk-taken once loop n returned e h = cc (h.0)

OnceOk-shut :
    (once : Once) (closes : ℕ) (is_open : Bool)
    → OnceOk once closes is_open
    → is_open ≡ false
    → once ≡ done
OnceOk-shut unused closes is_open h e = cc (h.1)
OnceOk-shut (taken n) closes is_open h e = cc (h.1)
OnceOk-shut done closes is_open h e = refl

LoopOk-unused :
    (loop : Loop) (once : Once) (n : ℕ) → LoopOk loop once → once ≡ unused → LoopOk loop (taken n)
LoopOk-unused watching once n h e = tt
LoopOk-unused ended once n h e = cc

LoopOk-done : (loop : Loop) (once : Once) → LoopOk loop once → LoopOk loop done
LoopOk-done watching once h = tt
LoopOk-done ended once h = refl

TakenOk-append :
    (once : Once) (closers more : List Closer)
    → TakenOk once closers
    → TakenOk once (closers ++ more)
TakenOk-append unused closers more h = tt
TakenOk-append (taken n) closers more h = get_elem?-append closers more n h
TakenOk-append done closers more h = tt

TakenOk-done : (once : Once) (closers : List Closer) → once ≡ done → TakenOk once closers
TakenOk-done once closers e = subst (λ o. TakenOk o closers) (sym e) tt

module _ (t : Tools) where
  pub record Inv (s : Watched t) : Type 0 where
    pub closed : OnceOk s.once s.closes s.watcher_open
    pub loop : LoopOk s.loop s.once
    pub holder : TakenOk s.once s.closers
    pub closers : All (CloserOk s.once s.loop) s.closers

  pub started-Inv : (config : DynamicTlsConfig t) → Inv (started t config)
  started-Inv config = record { closed = (refl, refl); loop = tt; holder = tt; closers = tt }

  step-Inv : (s u : Watched t) → Inv s → Step t s u → Inv u
  step-Inv s _ v (event files w) = record {
    closed = v.closed;
    loop = v.loop;
    holder = v.holder;
    closers = v.closers;
  }
  step-Inv s _ v (watch_error w) = v
  step-Inv s _ v (watch_ends w shut) = record {
    closed = v.closed;
    loop = OnceOk-shut s.once s.closes s.watcher_open v.closed shut;
    holder = v.holder;
    closers = All-weaken (CloserOk-ended s.once s.loop) s.closers v.closers;
  }
  step-Inv s _ v call_close = record {
    closed = v.closed;
    loop = v.loop;
    holder = TakenOk-append s.once s.closers _ v.holder;
    closers = All-append (CloserOk s.once s.loop) s.closers _ v.closers (tt, tt);
  }
  step-Inv s _ v (enter_once n found e) = record {
    closed = subst (λ o. OnceOk o s.closes s.watcher_open) e v.closed;
    loop = LoopOk-unused s.loop s.once n v.loop e;
    holder = found;
    closers = All-weaken (λ c. CloserOk-taken s.once s.loop n c e) s.closers v.closers;
  }
  step-Inv s _ v (close_watcher n e) =
      let unclosed = (subst (λ o. OnceOk o s.closes s.watcher_open) e v.closed).0 in
      record {
        closed = (omega arith, refl);
        loop = LoopOk-done s.loop s.once v.loop;
        holder = tt;
        closers =
            All-set_elem (CloserOk done s.loop) n waiting s.closers refl
              (All-weaken (CloserOk-done s.once s.loop) s.closers v.closers);
      }
  step-Inv s _ v (skip_once n found e) = record {
    closed = v.closed;
    loop = v.loop;
    holder = TakenOk-done s.once _ e;
    closers = All-set_elem (CloserOk s.once s.loop) n waiting s.closers e v.closers;
  }
  step-Inv s _ v (return_close n found e) =
      let is_done = All-get_elem? (CloserOk s.once s.loop) n s.closers found v.closers in
      record {
        closed = v.closed;
        loop = v.loop;
        holder = TakenOk-done s.once _ is_done;
        closers = All-set_elem (CloserOk s.once s.loop) n returned s.closers (is_done, e) v.closers;
      }

  pub Leads-Inv : (s u : Watched t) → Inv s → Leads t s u → Inv u
  Leads-Inv s _ v here = v
  Leads-Inv s u v (then {u = m} r last) = step-Inv m u (Leads-Inv s m v r) last

  step-ended :
      (s u : Watched t) → s.loop ≡ ended → Step t s u → (u.config ≡ s.config) × (u.loop ≡ ended)
  step-ended s _ e (event files w) = cc (e, w)
  step-ended s _ e (watch_error w) = (refl, e)
  step-ended s _ e (watch_ends w shut) = (refl, refl)
  step-ended s _ e call_close = (refl, e)
  step-ended s _ e (enter_once n found o) = (refl, e)
  step-ended s _ e (close_watcher n o) = (refl, e)
  step-ended s _ e (skip_once n found o) = (refl, e)
  step-ended s _ e (return_close n found w) = (refl, e)

  Leads-ended :
      (s u : Watched t) → s.loop ≡ ended → Leads t s u → (u.config ≡ s.config) × (u.loop ≡ ended)
  Leads-ended s _ e here = (refl, e)
  Leads-ended s u e (then {u = m} r last) =
      let (before, is_ended) = Leads-ended s m e r in
      let (after, still) = step-ended m u is_ended last in (after ∙ before, still)

  -- Once a call of Close has returned, nothing changes the certificates any more, the watcher is
  -- closed, and it has been closed once, however many calls of Close there are and however they, the
  -- events of the watcher and the loop interleave.
  pub close_stops_watch :
      (config : DynamicTlsConfig t) (s u : Watched t) (n : ℕ)
      → Leads t (started t config) s
      → get_elem? s.closers n ≡ some returned
      → Leads t s u
      → (u.config ≡ s.config) × (u.watcher_open ≡ false) × (u.closes ≡ 1)
  close_stops_watch config s u n before found r =
      let v = Leads-Inv (started t config) s (started-Inv config) before in
      let (_, is_ended) = All-get_elem? (CloserOk s.once s.loop) n s.closers found v.closers in
      let (kept, still) = Leads-ended s u is_ended r in
      let w = Leads-Inv s u v r in
      let is_done = subst (λ l. LoopOk l u.once) still w.loop in
      let (once, shut) = subst (λ o. OnceOk o u.closes u.watcher_open) is_done w.closed in
      (kept, shut, once)
