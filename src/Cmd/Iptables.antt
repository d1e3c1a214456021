-- ===== src/Cmd/Iptables.antt =====
-- cmd/kiam/iptables.go: the rule that sends the pods' requests to the agent. The iptables library is
-- a parameter: the answers to New and to the calls of Delete, `none` for success.
use kiam.Base.{
  Option-cases, ℕ, zero, suc, ◌+◌, ◌≡◌, ◌++◌, Bool, true, false, Option, none, some, List, [], ◌∷◌,
  if◌then◌else◌, inl, inr,
}
use kiam.Base.Decimal.{decimal}
use kiam.Base.Text.{Text, codes, has_prefix, trim_prefix}
use kiam.Base.Outcome.{Outcome, ok, err, panic, Error, ◌>>◌}

pub record Rules : Type 0 where
  pub host : Text
  pub kiam_port : ℕ
  pub host_interface : Text

abbrev metadata_address : Text
metadata_address = codes "169.254.169.254"

-- kiamAddress
kiam_address : Rules → Text
kiam_address r = r.host ++ (codes ":" ++ decimal r.kiam_port)

-- ruleSpec
unfoldable pub rule_spec : Rules → List Text
unfolding kiam_address
rule_spec r =
    let fixed =
      codes "-p"
      ∷ codes "tcp"
      ∷ codes "-d"
      ∷ metadata_address
      ∷ codes "--dport"
      ∷ codes "80"
      ∷ codes "-j"
      ∷ codes "DNAT"
      ∷ codes "--to-destination"
      ∷ kiam_address r
      ∷ [] in
    let negated =
      if has_prefix r.host_interface (codes "!") then fixed ++ codes "!" ∷ [] else fixed in
    negated ++ codes "-i" ∷ trim_prefix r.host_interface (codes "!") ∷ []

-- newIPTablesRules
unfoldable new_iptables_rules : Text → ℕ → Text → Rules
new_iptables_rules host kiam_port host_interface = record {
  host = host;
  kiam_port = kiam_port;
  host_interface = host_interface;
}

-- Add; the arguments are the error of iptables.New and the answer of AppendUnique to a table, a chain
-- and a rule, `none` for success.
unfoldable add : Option Error → (Text → Text → List Text → Option Error) → Rules → Option Error
unfolding rule_spec
add (some e) append_unique r = some e
add none append_unique r = append_unique (codes "nat") (codes "PREROUTING") (rule_spec r)

abbrev max_attempts : ℕ
max_attempts = 30

-- What Remove has done when it ends: how often Delete was called, and whether it removed the rule.
pub record Removed : Type 0 where
  pub attempts : ℕ
  pub removed : Bool

-- err.Error(), for a log line: of a nil error it panics.
pub logged : Option Error → Outcome (Unit {0})
logged none = panic
logged (some e) = ok tt

-- The loop of Remove: `left` attempts are left of `maxAttempts`. `delete n` answers the n-th call of
-- Delete. What is logged is `err` of the outer scope, and not the error of Delete.
remove_loop : Option Error → (ℕ → Option Error) → ℕ → ℕ → Outcome Removed
unfolding logged
remove_loop outer delete zero attempt = do
  logged outer
  ok (record { attempts = attempt; removed = false })
remove_loop outer delete (suc left) attempt = elim (delete attempt) [
  | none ↦ ok (record { attempts = attempt + 1; removed = true })
  | some e ↦ do logged outer; remove_loop outer delete left (attempt + 1)
]

-- Remove; the first argument is the error of iptables.New. After a success of New, `err` is nil.
pub remove : Option Error → (ℕ → Option Error) → Outcome Removed
unfolding remove_loop
remove (some e) delete = err e
remove none delete = remove_loop none delete max_attempts 0

-- No call of Delete is ever repeated: if the first one removes the rule, that is the end, and if it
-- fails, Remove panics at the log line, whatever the later calls would answer.
pub remove_tries_once :
    (delete : ℕ → Option Error)
    → remove none delete
      ≡ elim (delete 0) [ none ↦ ok (record { attempts = 1; removed = true }) | some e ↦ panic ]
unfolding remove
remove_tries_once delete = elim (Option-cases (delete 0)) [
  | inl h ↦ rw (h, remove_loop)
  | inr (e, h) ↦ rw (h, remove_loop)
]
