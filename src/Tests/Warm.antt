-- ===== src/Tests/Warm.antt =====
-- The prefetch manager and the server at a concrete pod.
use kiam.Base.{List, true, false, [], ◌∷◌}
use kiam.Base.Text.{codes}
use kiam.Base.Outcome.{other}
use kiam.Sts.Identity.{RoleIdentity}
use kiam.Sts.Credentials.{Credentials}
use kiam.Sts.Cache.{Result, issued, not_issued, CredentialsCache}
use kiam.Sts.Cache.Memo.{Use}
use kiam.Server.Policy.{assume_policy}
use kiam.Server.Handlers.{KiamServer}
use kiam.Server.Issued.{from_cache}
use kiam.Prefetch.{CredentialManager}
use kiam.Prefetch.Warm.{alone}
use kiam.Tests.Items.{items}
use kiam.Tests.Fixtures.{
  list_indexer, resolver, web_pod, finished_pod, web_identity, web_credentials, compile, namespaces,
}

abbrev answers : RoleIdentity → Result Credentials
answers i = issued web_credentials

abbrev refuses : RoleIdentity → Result Credentials
refuses i = not_issued (other (codes "throttled"))

abbrev manager : CredentialManager (CredentialsCache items)
manager = record {
  credentials_for_role = from_cache items (alone items answers);
  indexer = list_indexer;
  pods = finished_pod ∷ web_pod ∷ [];
  arn_resolver = resolver;
}

abbrev server : KiamServer (CredentialsCache items)
server = record {
  indexer = list_indexer;
  pods = finished_pod ∷ web_pod ∷ [];
  assume_policy = assume_policy compile false namespaces resolver;
  arn_resolver = resolver;
  credentials_for_role = from_cache items (alone items refuses);
  has_event_recorder = true;
}

-- Another pod asks, time passes, and the prefetcher takes what expired.
abbrev between : List Use
between =
    Use.ask (record web_identity { session_name = codes "other" })
      (not_issued (other (codes "throttled")))
    ∷ Use.time_passes
    ∷ Use.receives
    ∷ []
