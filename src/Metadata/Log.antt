-- ===== src/Metadata/Log.antt =====
-- pkg/aws/metadata/log.go: each request is logged with the status of its response. The duration, which
-- is logged as well, is left out.
pub mod Laws
use kiam.Base.{ℕ, Option, none, some, List, if◌then◌else◌, ltb}
use kiam.Base.Text.{Text}
use kiam.Metadata.Http.{Request, ResponseWriter, Exchange}
use kiam.Metadata.Mux.{HttpHandler}

pub data LogLevel : Type 0 where
  debug : LogLevel
  info : LogLevel

pub record RequestFields : Type 0 where
  pub method : Text
  pub path : Text
  pub addr : Text

-- What is logged on a request: the fields and the level.
pub record Entry : Type 0 where
  pub level : LogLevel
  pub request : RequestFields
  pub headers : List (Text × Text)
  pub status : ℕ

-- newStatusWriter
unfoldable pub new_status_writer : ResponseWriter → ResponseWriter
new_status_writer w = record w { status_code = some 200 }

-- The field statusCode; without a statusWriter there is none.
unfoldable pub status_code_of : Option ℕ → ℕ
status_code_of none = 200
status_code_of (some status) = status

unfoldable pub entry_level : ℕ → LogLevel
entry_level status = if ltb status 400 then debug else info

request_fields : Request → RequestFields
request_fields req = record { method = req.method; path = req.path; addr = req.remote_addr }

-- loggingHandler
unfoldable pub logging_handler : HttpHandler → Request → Exchange → Exchange × Entry
unfolding new_status_writer status_code_of request_fields entry_level
logging_handler handler req x =
    let y = handler req (record x { writer = new_status_writer x.writer }) in
    let status = status_code_of y.writer.status_code in
    (
      y,
      record {
        level = entry_level status;
        request = request_fields req;
        headers = y.writer.header;
        status = status;
      },
    )
