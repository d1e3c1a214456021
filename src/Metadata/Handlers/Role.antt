-- ===== src/Metadata/Handlers/Role.antt =====
-- The responses of the handler for the role's name.
use mathlib.Core.Path.{subst}
use mathlib.Core.Bool.{false≢true}
use kiam.Base.{Bool, ◌≡◌, ◌≢◌, refl, sym, ap, ◌∙◌, [], ◌⊎◌, inl, inr, Bool-cases}
use kiam.Base.Text.{Text, codes, text_eq}
use kiam.Base.Text.Laws.{text_eq_iff, text_eq_refl}
use kiam.Base.Outcome.{error_text}
use kiam.Metadata.Http.{done, Request, Exchange, Handled, Handler, Metrics, fresh_writer, write}
use kiam.Metadata.Retry.{Backoff, Answers, find_role}
use kiam.Metadata.Handlers.{client_ip, send_role, role_for, handle_role}
use kiam.Metadata.Handlers.Laws.{
  finish, serve, serve-finish, Refused, Refused-finish, Served, try-cases,
}

module _ (b : Backoff) (allow_ip_query : Bool) (ask : Text → Answers Text) (req : Request)
    (m : Metrics) where
  -- The server named a role for the client's address.
  pub record Found (role : Text) : Type 0 where
    pub ip : Text
    pub caller : client_ip allow_ip_query req ≡ done ip
    pub found : find_role b (ask ip) ≡ done role

  abbrev name : Text
  name = codes "roleName"

  abbrev handler : Handler
  handler = handle_role b allow_ip_query ask

  abbrev start : Exchange
  start = record { writer = fresh_writer; metrics = m }

  abbrev pub Answered : Exchange → Type 0
  Answered y =
      ((role : Text) × Found role × (role ≢ []) × Served name role m y)
      ⊎ ((Found [] × Refused name 404 m y) ⊎ Refused name 500 m y)

  answer :
      {r : Handled × Exchange}
      → handler req start ≡ r
      → Answered (finish name r)
      → Answered (serve name handler req m)
  answer e a = subst Answered (sym (serve-finish name handler req m e)) a

  Found-Answered : (role : Text) → Found role → Answered (finish name (send_role (done role) start))
  unfolding send_role
  Found-Answered role f = elim (Bool-cases (text_eq role [])) [
    | inl e ↦ rw e (
        inr (
          inl (subst Found ((text_eq_iff role []).0 e) f, Refused-finish name m _ 404 _ refl refl)))
    | inr e ↦ rw e (
        inl (
          role,
          f,
          (λ z. false≢true (sym e ∙ ap (λ t. text_eq t []) z ∙ text_eq_refl [])),
          unfold write in record { sent = refl; body = refl; counted = refl; success = refl },
        ))
  ]

  -- Every request for the role's name is answered once: with status 200 and the role that the server
  -- named for the client's address, with 404 if that role is empty, or with 500; only the first
  -- counts as a success.
  serve_role : Answered (serve name handler req m)
  unfolding handle_role send_role
  serve_role = elim (try-cases (client_ip allow_ip_query req)) [
    | inr (x, e) ↦
        answer (ap (λ t. role_for b allow_ip_query ask t start) e)
          (inr (inr (Refused-finish name m m 500 (error_text x) refl refl)))
    | inl (ip, e) ↦ elim (try-cases (find_role b (ask ip))) [
      | inr (x, f) ↦
          answer (ap (λ t. role_for b allow_ip_query ask t start) e ∙ ap (λ t. send_role t start) f)
            (inr (inr (Refused-finish name m _ 500 (error_text x) refl refl)))
      | inl (role, f) ↦
          answer (ap (λ t. role_for b allow_ip_query ask t start) e ∙ ap (λ t. send_role t start) f)
            (Found-Answered role (record { ip = ip; caller = e; found = f }))
    ]
  ]
