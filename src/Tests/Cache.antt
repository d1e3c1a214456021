-- ===== src/Tests/Cache.antt =====
-- The theorems on the cache of credentials and its manager at concrete inputs.
use kiam.Base.{map, ℕ, ◌≡◌, ◌≢◌, refl, none, some, List, [], ◌∷◌, ◌+◌, ◌≤◌, arith}
use kiam.Base.Lists.{length}
use kiam.Base.Text.{Text, codes, text_eq}
use kiam.Base.Text.Laws.{text_eq_refl}
use kiam.Base.Outcome.{ok, Error, other}
use kiam.Sts.Resolver.{resolve}
use kiam.Sts.Identity.{to_string, new_role_identity}
use kiam.Sts.Cache.{
  Result, issued, not_issued, CachedCredentials, issue_request, Call, Progress.returned,
  CredentialsCache, default_cache, progress_to, lookup, create, result_of, Action, call_for, next,
  answer, wait, run, new_future, complete_future, completed,
}
use kiam.Sts.Credentials.{Credentials}
use kiam.Sts.Cache.Laws.Futures.{IssuedFor}
use kiam.Sts.Cache.Safety.{NoBar, returned_credentials_request}
use kiam.K8s.Pod.{pod_session_name, pod_external_id, pod_role_identity_index, pod_role, annotation}
use kiam.Prefetch.{CredentialManager, handle_expiring}
use kiam.Base.Text.Laws.{Free}
use kiam.Prefetch.Laws.{handle_expiring-Renews, Renews}
use kiam.Sts.Cache.Memo.{Use, ask, Memo, Serves, lone_call, result_at, use_all, memo_of}
use kiam.Sts.Cache.Memo.Laws.{cache_refines_memo}
use kiam.Sts.Cache.Ttl.{cache_ttl, Lives}
use kiam.Sts.Cache.Ttl.Laws.{served_credentials_live}
use kiam.Tests.Timed.{timed_items, timed}
use kiam.Sts.Cache.Metrics.{no_metrics, run_metrics}
use kiam.Sts.Cache.Metrics.Kept.{Accounts}
use kiam.Sts.Cache.Metrics.Counts.{sts_metrics-Accounts}
use kiam.Sts.Cache.Metrics.Size.{overwrites, cache_size_counts}
use kiam.Tests.Items.{counted, items}
use kiam.Tests.Fixtures.{
  list_indexer, resolver, web_pod, finished_pod, web_identity, web_credentials,
}

abbrev actions : List (Action items)
actions = call_for web_identity ∷ next 0 ∷ next 0 ∷ answer 0 (issued web_credentials) ∷ next 0 ∷ []

abbrev web_call : Call
web_call = record { identity = web_identity; progress = returned (issued web_credentials) }

abbrev after : CredentialsCache items
after = run items actions (default_cache items)

web_identity-NoBar : NoBar web_identity
web_identity-NoBar = (ground arith, ground arith)

abbrev duration : ℕ
duration = 900

returned_credentials_request_example :
    (cached : CachedCredentials) × (cached.credentials ≡ web_credentials)
    × IssuedFor after.futures (to_string web_identity) cached
    × (issue_request (codes "server") duration cached.identity
        ≡ issue_request (codes "server") duration web_identity)
unfolding run default_cache lookup create progress_to new_future complete_future completed result_of
returned_credentials_request_example =
    returned_credentials_request items actions (codes "server") duration 0 web_call web_credentials
      refl refl web_identity-NoBar (web_identity-NoBar, tt)

-- A call at 0, an answer at 60, and another minute.
abbrev aged_actions : List (Action timed_items)
aged_actions =
    call_for web_identity
    ∷ next 0
    ∷ next 0
    ∷ wait
    ∷ answer 0 (issued web_credentials)
    ∷ next 0
    ∷ wait
    ∷ []

abbrev expires_at : Credentials → ℕ
expires_at c = 910

aged_actions-Lives :
    Lives timed_items timed (λ f. 0) duration expires_at aged_actions (default_cache timed_items)
unfolding run default_cache lookup create progress_to new_future complete_future completed result_of
aged_actions-Lives =
    let later = λ (grown : 1 ≢ 1). absurd (grown refl) in
    (
      (λ grown. refl),
      tt,
      (
        (λ grown. refl),
        tt,
        (
          (λ grown. refl),
          tt,
          ((λ grown. refl), tt, (later, omega arith, (later, tt, (later, tt, tt)))),
        ),
      ),
    )

served_credentials_live_example :
    timed.clock (run timed_items aged_actions (default_cache timed_items)).cache + 300
    ≤ expires_at web_credentials
unfolding cache_ttl run default_cache lookup create progress_to new_future complete_future completed
    result_of
served_credentials_live_example =
    served_credentials_live timed_items timed (λ f. 0) duration expires_at 300 aged_actions
      (to_string web_identity) 0 (record { identity = web_identity; credentials = web_credentials })
      refl aged_actions-Lives (rw (text_eq_refl (to_string web_identity))) refl

abbrev fresh : CredentialsCache items
fresh = default_cache items

abbrev denied : Error
denied = other (codes "denied")

-- A cache that counts its calls.
abbrev manager : CredentialManager ℕ
manager = record {
  credentials_for_role = λ identity calls. (ok web_credentials, calls + 1);
  indexer = list_indexer;
  pods = finished_pod ∷ web_pod ∷ [];
  arn_resolver = resolver;
}

web_barless : Free b'|' web_identity.role.arn × Free b'|' web_identity.session_name
web_barless = ground arith

handle_expiring-Renews_example :
    Renews manager web_identity 0 (
      handle_expiring manager (record { identity = web_identity; credentials = web_credentials }) 0)
unfolding pod_role_identity_index text_eq pod_role annotation new_role_identity resolve
    pod_session_name pod_external_id
handle_expiring-Renews_example =
    handle_expiring-Renews manager
      (record { identity = web_identity; credentials = web_credentials }) 0
      ((_, refl), ((_, refl), tt)) web_barless (web_barless, (web_barless, tt))

abbrev refused : Result Credentials
refused = not_issued denied

abbrev given : Result Credentials
given = issued web_credentials

-- A call that fails, one that asks again, and one that is served from the cache.
abbrev uses : List Use
uses = ask web_identity refused ∷ ask web_identity given ∷ ask web_identity refused ∷ []

uses_results :
    (use_all items uses (default_cache items)).0 ≡ some refused ∷ some given ∷ some given ∷ []
unfolding use_all run default_cache lookup create progress_to new_future complete_future completed
    result_of lone_call result_at text_eq to_string
uses_results = refl

cache_refines_memo_example :
    (results : List (Result Credentials)) × (last : Memo) × ((use_all items uses
        (default_cache items)).0
      ≡ map some results)
    × Serves (λ key. none) uses results last
    × ((key : Text) → memo_of items (use_all items uses (default_cache items)).1 key ≡ last key)
cache_refines_memo_example = cache_refines_memo items uses

-- Two calls that both look before either has made its request.
abbrev both_look : List (Action items)
both_look = call_for web_identity ∷ call_for web_identity ∷ next 0 ∷ next 1 ∷ next 0 ∷ next 1 ∷ []

cache_size_counts_example :
    (run_metrics items both_look (default_cache items) no_metrics).cache_size
    ≡ counted.held (run items both_look (default_cache items)).cache
      + length (run items both_look (default_cache items)).evictions
      + overwrites items counted both_look (default_cache items)
cache_size_counts_example = cache_size_counts items counted both_look

-- The gauge is at two for the one item.
two_for_one : (run_metrics items both_look (default_cache items) no_metrics).cache_size ≡ 2
unfolding run_metrics run default_cache
two_for_one = refl

sts_metrics-Accounts_example :
    Accounts items
      (run items both_look (default_cache items))
      (run_metrics items both_look (default_cache items) no_metrics)
sts_metrics-Accounts_example = sts_metrics-Accounts items both_look
