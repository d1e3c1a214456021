-- ===== src/Metadata/ClientIp.antt =====
-- ParseClientIP and buildClientIP of pkg/aws/metadata/server.go.
pub mod Laws
use kiam.Base.{ℕ, ◌-◌, Bool, true, false, [], ◌∷◌, if◌then◌else◌, ltb, List}
use kiam.Base.Lists.{length, take}
use kiam.Base.Text.{Text, codes, text_eq, split, join}
use kiam.Base.Outcome.{incorrect_format}
use kiam.Metadata.Http.{Try, done, fail, Request}

unfoldable pub parse_client_ip : Text → Try Text
parse_client_ip addr =
    let parts = split b':' addr in
    if ltb (length parts) 2
    then fail (incorrect_format addr)
    else done (join (codes ":") (take (length parts - 1) parts))

-- buildClientIP; the argument is the option AllowIPQuery.
unfoldable pub build_client_ip : Bool → Request → Try Text
unfolding parse_client_ip
build_client_ip allow_ip_query req =
    if allow_ip_query
    then (if text_eq req.form_ip [] then parse_client_ip req.remote_addr else done req.form_ip)
    else parse_client_ip req.remote_addr
