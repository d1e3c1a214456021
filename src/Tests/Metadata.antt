-- ===== src/Tests/Metadata.antt =====
-- The theorems on pkg/aws/metadata and cmd/kiam at concrete inputs.
use mathlib.Core.Bool.{false≢true}
use kiam.Base.{
  if◌then◌else◌, ℕ, zero, suc, ap, ◌≡◌, ◌≢◌, refl, ◌↔◌, inl, inr, true, false, ◌++◌, Option, none,
  some, List, [], ◌∷◌,
}
use kiam.Base.Text.{Text, codes, text_eq}
use kiam.Base.Outcome.{panic, Error, other, policy_forbidden}
use kiam.Sts.Credentials.{Credentials}
use kiam.Metadata.Http.{Try, done, fail, Request, Exchange, zero_metrics, fresh_writer}
use kiam.Metadata.Retry.{
  Attempt, success, transient, permanent, Backoff, Answers, fetch_credentials,
}
use kiam.Metadata.Retry.Laws.{answers_from, IsTemporary, fetch_credentials_verdict}
use kiam.Metadata.Handlers.Laws as Sent
use kiam.Metadata.Handlers.Laws.{serve}
use kiam.Metadata.Proxy.{Reply, write_reply, is_token_route, new_proxy_handler}
use kiam.Metadata.Proxy.Laws.{denied, IsTokenRoute, is_token_route_iff}
use kiam.Metadata.Server.{default_options}
use kiam.Cmd.Options.{Arguments, AgentOptions, or_default, required, agent_options}
use kiam.Cmd.Options.Agent.{Blocked, agent_denies_by_default}
use kiam.Cmd.Iptables.{remove, remove_tries_once}
use kiam.Tests.Fixtures.{web_credentials, web_role}

abbrev peer : Text
peer = codes "10.0.0.7"

abbrev pub request : Request
request = record {
  method = codes "GET";
  path = codes "/latest/user-data";
  remote_addr = codes "10.0.0.7:80";
  parse_form = done tt;
  form_ip = codes "10.0.0.8";
  deep = [];
}

-- Retries that go on while there are answers.
abbrev pub retry_loop : (A : Type 0) → Attempt A → List (Attempt A) → Try A
retry_loop A (success a) rest = done a
retry_loop A (permanent e) rest = fail e
retry_loop A (transient e) [] = fail e
retry_loop A (transient e) (next ∷ rest) = retry_loop A next rest

abbrev pub backoff : Backoff
backoff = record {
  retry = retry_loop;
  retry_success = λ A a rest. refl;
  retry_permanent = λ A e rest. refl;
  retry_transient = λ A e next rest. refl;
  retry_out_of_time = λ A e. refl;
}

abbrev unavailable : Error
unavailable = other (codes "unavailable")

unavailable-IsTemporary : IsTemporary (fail unavailable)
unavailable-IsTemporary = record {
  error = unavailable;
  failed = refl;
  other_than_forbidden = λ e. cc;
}

fetch_credentials_verdict_example :
    fetch_credentials backoff
      (answers_from (fail unavailable ∷ []) (fail policy_forbidden) (done web_credentials ∷ []))
    ≡ fail policy_forbidden
fetch_credentials_verdict_example =
    fetch_credentials_verdict backoff (fail unavailable ∷ []) (fail policy_forbidden)
      (done web_credentials ∷ []) (unavailable-IsTemporary, tt) (inr refl)

abbrev pub encode : Credentials → Try Text
encode c = done c.access_key_id

abbrev ask : Text → Text → Answers Credentials
ask ip role = record { first = done web_credentials; more = [] }

abbrev ask_role : Text → Answers Text
ask_role ip = record { first = done web_role; more = [] }

is_token_route_iff_example :
    (is_token_route (codes "/latest/api/token") ≡ true) ↔ IsTokenRoute (codes "/latest/api/token")
is_token_route_iff_example = is_token_route_iff (codes "/latest/api/token")

abbrev pub quote : Text → Text
quote text = codes "'" ++ (text ++ codes "'")

abbrev pub secrets : Request → List Reply
secrets r = write_reply (codes "secret") ∷ []

abbrev exchange : Exchange
exchange = record { writer = fresh_writer; metrics = zero_metrics }

not_put : request.method ≢ codes "PUT"
unfolding text_eq
not_put e = false≢true (ap (λ s. text_eq s (codes "PUT")) e)

-- Only the host's address is given.
abbrev arguments : Arguments
arguments = record {
  text = λ name. if text_eq name (codes "host") then some peer else none;
  number = λ name. none;
  duration = λ name. none;
  switch = λ name. none;
  regexp = λ name. none;
}

abbrev options : AgentOptions
options = record {
  command = record { iptables = false; iptables_remove = true };
  server_options = record {
    metadata_endpoint = codes "http://169.254.169.254";
    listen_port = 3100;
    allow_ip_query = false;
    allow_route_regexp = record { source = codes "^$"; match_string = λ path. text_eq path [] };
  };
  host_ip = peer;
  host_interface = codes "docker0";
}

agent_denies_by_default_example :
    let handler = new_proxy_handler quote secrets options.server_options.allow_route_regexp in
    (handler request exchange ≡ denied quote (codes "^$") request exchange)
    × Blocked quote request zero_metrics (serve (codes "proxy") handler request zero_metrics)
unfolding agent_options or_default required default_options text_eq
agent_denies_by_default_example =
    agent_denies_by_default arguments options quote secrets request exchange zero_metrics refl
      (inl refl) (λ e. cc) (inl not_put)

abbrev deletes : ℕ → Option Error
deletes zero = some unavailable
deletes (suc n) = none

remove_tries_once_example : remove none deletes ≡ panic
remove_tries_once_example = remove_tries_once deletes
