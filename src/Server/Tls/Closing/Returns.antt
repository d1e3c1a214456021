-- ===== src/Server/Tls/Closing/Returns.antt =====
-- Every call of Close of pkg/server/tls.go can return.
use kiam.Base.{ℕ, ◌+◌, ◌≡◌, inl, inr, refl, sym, ap, ◌∙◌, false, some}
use mathlib.Core.Path.{subst}
use kiam.Base.Lists.{
  get_elem?, set_elem, All-get_elem?, get_elem?-set_elem, get_elem?-set_elem_other,
}
use kiam.Server.Tls.{Tools, DynamicTlsConfig}
use kiam.Server.Tls.Closing.{
  Once, unused, taken, done, Loop, watching, ended, Closer, calling, waiting, returned, Watched,
  started, Step, watch_ends, enter_once, close_watcher, skip_once, return_close, Leads, here, then,
}
use kiam.Server.Tls.Closing.Laws.{OnceOk, TakenOk, CloserOk, Inv, started-Inv, Leads-Inv}

module _ (t : Tools) where
  Leads-first : {s u w : Watched t} → Step t s u → Leads t u w → Leads t s w
  Leads-first first here = then here first
  Leads-first first (then r last) = then (Leads-first first r) last

  -- The call can return.
  abbrev Returns : ℕ → Watched t → Type 0
  Returns n s = (u : Watched t) × Leads t s u × (get_elem? u.closers n ≡ some returned)

  Returns-first : {n : ℕ} {s u : Watched t} → Step t s u → Returns n u → Returns n s
  Returns-first first (u, r, found) = (u, Leads-first first r, found)

  return-Returns :
      (n : ℕ) (s : Watched t) → get_elem? s.closers n ≡ some waiting → s.loop ≡ ended → Returns n s
  return-Returns n s found e =
      (_, then here (return_close n found e), get_elem?-set_elem s.closers n returned found)

  waiting-Returns :
      (n : ℕ) (s : Watched t) (loop : Loop)
      → s.loop ≡ loop
      → s.watcher_open ≡ false
      → get_elem? s.closers n ≡ some waiting
      → Returns n s
  waiting-Returns n s watching l shut found =
      Returns-first (watch_ends l shut) (return-Returns n (record s { loop = ended }) found refl)
  waiting-Returns n s ended l shut found = return-Returns n s found l

  done-Returns :
      (n : ℕ) (s : Watched t) (c : Closer)
      → s.once ≡ done
      → s.watcher_open ≡ false
      → get_elem? s.closers n ≡ some c
      → Returns n s
  done-Returns n s calling o shut found = Returns-first (skip_once n found o) (
      waiting-Returns n (record s { closers = set_elem n waiting s.closers }) s.loop refl shut
        (get_elem?-set_elem s.closers n waiting found))
  done-Returns n s waiting o shut found = waiting-Returns n s s.loop refl shut found
  done-Returns n s returned o shut found = (s, here, found)

  -- The call that has the Once closes the watcher.
  taken-Returns :
      (n m : ℕ) (s : Watched t) (c : Closer)
      → s.once ≡ taken m
      → get_elem? s.closers m ≡ some calling
      → get_elem? s.closers n ≡ some c
      → Returns n s
  taken-Returns n m s c o holder found =
      let after : Watched t = record s {
        once = done;
        watcher_open = false;
        closes = s.closes + 1;
        closers = set_elem m waiting s.closers;
      } in
      Returns-first (close_watcher m o) (elim (get_elem?-set_elem_other s.closers m n waiting) [
        | inl at ↦
            done-Returns n after waiting refl refl (
              ap (get_elem? after.closers) (sym at) ∙ get_elem?-set_elem s.closers m waiting holder)
        | inr other ↦ done-Returns n after c refl refl (other ∙ found)
      ])

  unused-Returns :
      (n : ℕ) (s : Watched t) (c : Closer)
      → s.once ≡ unused
      → CloserOk s.once s.loop c
      → get_elem? s.closers n ≡ some c
      → Returns n s
  unused-Returns n s calling o h found =
      Returns-first (enter_once n found o)
        (taken-Returns n n (record s { once = taken n }) calling refl found found)
  unused-Returns n s waiting o h found = cc (o, h)
  unused-Returns n s returned o h found = cc (o, h.0)

  Inv-Returns :
      (n : ℕ) (s : Watched t) (c : Closer) (once : Once)
      → s.once ≡ once
      → Inv t s
      → get_elem? s.closers n ≡ some c
      → Returns n s
  Inv-Returns n s c unused o v found =
      unused-Returns n s c o (All-get_elem? (CloserOk s.once s.loop) n s.closers found v.closers)
        found
  Inv-Returns n s c (taken m) o v found =
      taken-Returns n m s c o (subst (λ p. TakenOk p s.closers) o v.holder) found
  Inv-Returns n s c done o v found =
      done-Returns n s c o (subst (λ p. OnceOk p s.closes s.watcher_open) o v.closed).1 found

  -- No call of Close is stuck: from every state that calls of Close, the events of the watcher and the
  -- loop can lead to, there are steps after which a given call of Close has returned.
  pub close_returns :
      (config : DynamicTlsConfig t) (s : Watched t) (n : ℕ) (c : Closer)
      → Leads t (started t config) s
      → get_elem? s.closers n ≡ some c
      → (u : Watched t) × Leads t s u × (get_elem? u.closers n ≡ some returned)
  close_returns config s n c r found =
      Inv-Returns n s c s.once refl (Leads-Inv t (started t config) s (started-Inv t config) r)
        found
