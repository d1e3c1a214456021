-- ===== src/Cmd/Agent.antt =====
-- run of cmd/kiam/agent.go, as the effects that it has in order. What
-- is set up on the way is a parameter: `none` is success.
use kiam.Base.{
  ◌≡◌, refl, inl, inr, ◌++◌, ap, Bool, true, false, ◌&&◌, Option, none, some, List, [], ◌∷◌,
  if◌then◌else◌, Bool-cases, Option-cases,
}
use kiam.Base.Outcome.{Error}

pub record AgentCommand : Type 0 where
  pub iptables : Bool
  pub iptables_remove : Bool

pub data Effect : Type 0 where
  rule_added rule_removed gateway_closed server_stopped : Effect

-- How the wait at the end is over: Serve returns, or a signal comes and Stop is called.
pub data Ended : Type 0 where
  serve_returned : Option Error → Ended
  signalled : Option Error → Ended

-- What Add of the rules, WithTLS, Build and NewWebServer return.
pub record Setup : Type 0 where
  pub add : Option Error
  pub with_tls : Option Error
  pub build : Option Error
  pub new_web_server : Option Error
  pub ended : Ended

wait_for_end : Ended → Option Error × List Effect
wait_for_end (serve_returned e) = (e, [])
wait_for_end (signalled e) = (e, Effect.server_stopped ∷ [])

-- From the web server on; the gateway is closed in the end.
with_gateway : Setup → Option Error × List Effect
unfolding wait_for_end
with_gateway s = elim s.new_web_server [
  | some e ↦ (some e, Effect.gateway_closed ∷ [])
  | none ↦ (let (e, effects) = wait_for_end s.ended in (e, effects ++ Effect.gateway_closed ∷ []))
]

-- From the gateway's builder on.
connect : Setup → Option Error × List Effect
unfolding with_gateway
connect s = elim s.with_tls [
  | some e ↦ (some e, [])
  | none ↦ elim s.build [ some e ↦ (some e, []) | none ↦ with_gateway s ]
]

-- The rules are removed when run returns.
with_rules : Bool → Option Error × List Effect → Option Error × List Effect
with_rules remove (e, effects) =
    (e, Effect.rule_added ∷ (effects ++ (if remove then Effect.rule_removed ∷ [] else [])))

pub run_agent : AgentCommand → Setup → Option Error × List Effect
unfolding connect with_rules
run_agent c s =
    if c.iptables
    then elim s.add [ some e ↦ (some e, []) | none ↦ with_rules c.iptables_remove (connect s) ]
    else connect s

abbrev pub count_rules : List Effect → Bool × Bool
count_rules [] = (false, false)
count_rules (Effect.rule_added ∷ es) = (true, (count_rules es).1)
count_rules (Effect.rule_removed ∷ es) = ((count_rules es).0, true)
count_rules (_ ∷ es) = count_rules es

-- Neither added nor removed.
abbrev no_rules : Bool × Bool
no_rules = (false, false)

connect-no_rules : (s : Setup) → count_rules (connect s).1 ≡ no_rules
unfolding connect with_gateway wait_for_end
connect-no_rules s = go s.with_tls s.build s.new_web_server s.ended refl refl refl refl
  where
    go :
        (a b c : Option Error) (d : Ended)
        → s.with_tls ≡ a
        → s.build ≡ b
        → s.new_web_server ≡ c
        → s.ended ≡ d
        → count_rules (connect s).1 ≡ no_rules
    go (some e) b c d ea eb ec ed = rw ea
    go none (some e) c d ea eb ec ed = rw (ea, eb)
    go none none (some e) d ea eb ec ed = rw (ea, eb, ec)
    go none none none (serve_returned e) ea eb ec ed = rw (ea, eb, ec, ed)
    go none none none (signalled e) ea eb ec ed = rw (ea, eb, ec, ed)

count_rules-append :
    (es fs : List Effect) → count_rules es ≡ no_rules → count_rules (es ++ fs) ≡ count_rules fs
count_rules-append [] fs h = refl
count_rules-append (Effect.rule_added ∷ es) fs h = cc
count_rules-append (Effect.rule_removed ∷ es) fs h = cc
count_rules-append (Effect.gateway_closed ∷ es) fs h = count_rules-append es fs h
count_rules-append (Effect.server_stopped ∷ es) fs h = count_rules-append es fs h

abbrev succeeded : Option Error → Bool
succeeded none = true
succeeded (some e) = false

-- However run ends, by an error of any step, by a signal or by Serve, the rule has been added exactly
-- if the option asks for it and Add succeeded, and Remove has been called exactly if the rule was
-- added and the option asks for that.
pub run_agent_removes_rule :
    (c : AgentCommand) (s : Setup)
    → count_rules (run_agent c s).1
      ≡ (c.iptables && succeeded s.add, (c.iptables && succeeded s.add) && c.iptables_remove)
unfolding run_agent with_rules
run_agent_removes_rule c s = elim (Bool-cases c.iptables) [
  | inr i ↦ rw i (connect-no_rules s)
  | inl i ↦ elim (Option-cases s.add) [
    | inr (e, a) ↦ rw (i, a)
    | inl a ↦ elim (Bool-cases c.iptables_remove) [
      | inl r ↦
          rw (i, a, r)
            (ap (λ (p : Bool × Bool). (true, p.1))
              (count_rules-append (connect s).1 (Effect.rule_removed ∷ []) (connect-no_rules s)))
      | inr r ↦
          rw (i, a, r)
            (ap (λ (p : Bool × Bool). (true, p.1))
              (count_rules-append (connect s).1 [] (connect-no_rules s)))
    ]
  ]
]
