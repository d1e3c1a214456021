-- ===== src/Tests/Fixtures.antt =====
-- A small cluster, and simple instances of the parameters.

use mathlib.Core.List.Permᴰ
use kiam.Base.{ℕ, ◌+◌, refl, true, false, Option, none, some, List, [], ◌∷◌, if◌then◌else◌}
use kiam.Base.Keep.{keep}
use kiam.Base.Text.{Text, codes, text_eq}
use kiam.Base.Outcome.{Outcome, ok, err, other}
use kiam.Sts.Resolver.{Resolver, ResolvedRole}
use kiam.Sts.Identity.{RoleIdentity}
use kiam.Sts.Credentials.{Credentials}
use kiam.K8s.Pod.{
  Phase, Pod, annotation_iam_role_key, annotation_iam_session_name_key,
  annotation_iam_external_id_key,
}
use kiam.K8s.PodCache.{Indexer, has_value}
use kiam.K8s.NamespaceCache.{Namespace, annotation_permitted_key, find_namespace}
use kiam.Server.Policy.{RegexpCompile, assume_policy}
use kiam.Server.Handlers.{KiamServer, World}

-- A store that is a list, searched from the front.
abbrev pub list_indexer : Indexer
list_indexer = record {
  Store = List Pod;
  objects = λ pods. pods;
  by_index = λ index pods value. ok (keep (has_value index value) pods);
  by_index_finds = λ index pods value h. (keep (has_value index value) pods, refl, Permᴰ.refl _);
}

abbrev pub resolver : Resolver
resolver = record { prefix = codes "arn:aws:iam::123:role/" }

abbrev pub web_role : Text
web_role = codes "web"

abbrev pub web_ip : Text
web_ip = codes "10.0.0.7"

abbrev pub web_pod : Pod
web_pod = record {
  phase = Phase.running;
  ip = web_ip;
  namespace = codes "shop";
  name = codes "web-1";
  annotations =
      (annotation_iam_role_key, web_role)
      ∷ (annotation_iam_session_name_key, codes "session")
      ∷ (annotation_iam_external_id_key, codes "external")
      ∷ [];
}

-- A pod that had the same address, and has completed.
abbrev pub finished_pod : Pod
finished_pod = record web_pod { phase = Phase.succeeded; name = codes "web-0" }

abbrev pub web_resolved : ResolvedRole
web_resolved = record { name = web_role; arn = codes "arn:aws:iam::123:role/web" }

abbrev pub web_identity : RoleIdentity
web_identity = record {
  role = web_resolved;
  session_name = codes "session";
  external_id = codes "external";
}

abbrev shop : Namespace
shop = record { name = codes "shop"; annotations = (annotation_permitted_key, codes ".*") ∷ [] }

-- The one expression that this compiler knows, with its anchors.
abbrev pub compile : RegexpCompile
compile expression =
    if text_eq expression (codes "^.*$")
    then ok (λ text. true)
    else err (other (codes "unsupported"))

abbrev pub namespaces : Text → Outcome (Option Namespace)
namespaces = find_namespace (λ name. ok (if text_eq name (codes "shop") then some shop else none))

abbrev pub web_credentials : Credentials
web_credentials = record {
  code = codes "Success";
  type = codes "AWS-HMAC";
  access_key_id = codes "A";
  secret_access_key = codes "S";
  token = codes "T";
  expiration = codes "2020";
  last_updated = codes "2019";
}

-- A server whose provider counts its calls.
abbrev pub server : KiamServer ℕ
server = record {
  indexer = list_indexer;
  pods = finished_pod ∷ web_pod ∷ [];
  assume_policy = assume_policy compile false namespaces resolver;
  arn_resolver = resolver;
  credentials_for_role = λ identity calls. (ok web_credentials, calls + 1);
  has_event_recorder = true;
}

abbrev pub world : ℕ → World ℕ
world calls = record { provider = calls; events = [] }
