-- ===== src/Sts/Cache/Laws/Futures.antt =====
-- The futures only grow, and a result stays once it is there.
use kiam.Base.{ℕ, ◌≡◌, refl, sym, ap, ◌∙◌, ◌⊎◌, inl, inr, none, some, List, Option-cases}
use mathlib.Core.Option.{some-injective}
use kiam.Base.Lists.{
  length, get_elem?, All, All-append, All-set_elem, All-get_elem?, get_elem?-append,
  get_elem?-append_last, get_elem?-append_one, get_elem?-set_elem, get_elem?-set_elem_other,
  set_elem,
}
use kiam.Base.Text.{Text}
use kiam.Sts.Identity.{RoleIdentity, to_string}
use kiam.Sts.Credentials.{Credentials}
use kiam.Sts.Cache.{
  Result, issued, not_issued, CachedCredentials, Future, completed, new_future, complete_future,
  result_of,
}

-- The future was made for an identity with the key.
pub record Of (futures : List Future) (key : Text) (f : ℕ) : Type 0 where
  pub future : Future
  pub found : get_elem? futures f ≡ some future
  pub same_key : to_string future.identity ≡ key

-- The gateway issued the credentials, on a request for an identity with the key.
pub record IssuedFor (futures : List Future) (key : Text) (cached : CachedCredentials)
    : Type 0 where
  pub at : ℕ
  pub future : Future
  pub found : get_elem? futures at ≡ some future
  pub answered : future.result ≡ some (issued cached)
  pub own : cached.identity ≡ future.identity
  pub same_key : to_string future.identity ≡ key

-- A result is for the future's own identity.
abbrev pub ResultOk : Future → Type 0
ResultOk future =
    (cached : CachedCredentials)
    → future.result ≡ some (issued cached)
    → cached.identity ≡ future.identity

abbrev pub Keeps : List Future → List Future → Type 0
Keeps fs gs =
    (f : ℕ) (a : Future)
    → get_elem? fs f ≡ some a
    → (b : Future) × (get_elem? gs f ≡ some b)
      × (b.identity ≡ a.identity)
      × ((r : Result CachedCredentials) → a.result ≡ some r → b.result ≡ some r)

pub Of-Keeps :
    {fs gs : List Future} → Keeps fs gs → (key : Text) (f : ℕ) → Of fs key f → Of gs key f
Of-Keeps k key f o =
    let (b, e, i, _) = k f o.future o.found in
    record { future = b; found = e; same_key = ap to_string i ∙ o.same_key }

pub IssuedFor-Keeps :
    {fs gs : List Future}
    → Keeps fs gs
    → (key : Text) (c : CachedCredentials) → IssuedFor fs key c
    → IssuedFor gs key c
IssuedFor-Keeps k key c o =
    let (b, e, i, r) = k o.at o.future o.found in
    record {
      at = o.at;
      future = b;
      found = e;
      answered = r _ o.answered;
      own = o.own ∙ sym i;
      same_key = ap to_string i ∙ o.same_key;
    }

pub new_future-Keeps :
    (identity : RoleIdentity) (fs : List Future) → Keeps fs (new_future identity fs)
unfolding new_future
new_future-Keeps identity fs f a e = (a, get_elem?-append fs _ f e, refl, λ r h. h)

pub new_future-Of :
    (identity : RoleIdentity) (fs : List Future)
    → Of (new_future identity fs) (to_string identity) (length fs)
unfolding new_future
new_future-Of identity fs = record {
  future = _;
  found = get_elem?-append_last fs _;
  same_key = refl;
}

pub new_future-ResultOk :
    (identity : RoleIdentity) (fs : List Future)
    → All ResultOk fs
    → All ResultOk (new_future identity fs)
unfolding new_future
new_future-ResultOk identity fs h = All-append ResultOk fs _ h ((λ c e. cc), tt)

completed-own :
    (identity : RoleIdentity) (a : Result Credentials) (c : CachedCredentials)
    → completed identity a ≡ issued c
    → c.identity ≡ identity
unfolding completed
completed-own identity (issued d) c e = cc
completed-own identity (not_issued x) c e = cc

abbrev uncached : Result CachedCredentials → Result Credentials
uncached (issued c) = issued c.credentials
uncached (not_issued e) = not_issued e

completed-credentials :
    (identity : RoleIdentity) (a : Result Credentials) (c : CachedCredentials)
    → completed identity a ≡ issued c
    → a ≡ issued c.credentials
unfolding completed
completed-credentials identity (issued d) c e = ap uncached e
completed-credentials identity (not_issued x) c e = cc

pub complete_future-Keeps :
    (f : ℕ) (future : Future) (a : Result Credentials) (fs : List Future)
    → get_elem? fs f ≡ some future
    → Keeps fs (complete_future f future a fs)
unfolding complete_future
complete_future-Keeps f future a fs found g old e = elim (Option-cases future.result) [
  | inr (r, h) ↦ rw (h, complete_future) (old, e, refl, λ r h. h)
  | inl h ↦
      rw (h, complete_future)
        (elim (get_elem?-set_elem_other fs f g
          (record future { result = some (completed future.identity a) })) [
            | inr same ↦ (old, same ∙ e, refl, λ r h. h)
            | inl same ↦
                let is_old : future ≡ old =
                  some-injective _ _ (sym found ∙ ap (get_elem? fs) same ∙ e) in
                (
                  record future { result = some (completed future.identity a) },
                  ap (get_elem? _) (sym same) ∙ get_elem?-set_elem fs f _ found,
                  ap (λ (t : Future). t.identity) is_old,
                  λ r i. cc (h, i, ap (λ (t : Future). t.result) is_old),
                )
          ])
]

pub complete_future-ResultOk :
    (f : ℕ) (future : Future) (a : Result Credentials) (fs : List Future)
    → All ResultOk fs
    → All ResultOk (complete_future f future a fs)
unfolding complete_future
complete_future-ResultOk f future a fs v = elim (Option-cases future.result) [
  | inr (r, h) ↦ rw (h, complete_future) v
  | inl h ↦
      rw (h, complete_future)
        (All-set_elem ResultOk f _ fs
          (λ c e. completed-own future.identity a c (some-injective _ _ e)) v)
]

pub result_of-cases :
    (f : ℕ) (fs : List Future) (r : Result CachedCredentials)
    → result_of f fs ≡ some r
    → (future : Future) × (get_elem? fs f ≡ some future) × (future.result ≡ some r)
unfolding result_of
result_of-cases f fs r h = elim (Option-cases (get_elem? fs f)) [
  | inl e ↦ cc (rw (e, result_of) at h)
  | inr (future, e) ↦ (future, e, rw (e, result_of) at h)
]

-- What a future that has just been made does not have.
pub new_future-result_of :
    (g : ℕ) (identity : RoleIdentity) (fs : List Future) (r : Result CachedCredentials)
    → result_of g (new_future identity fs) ≡ some r
    → result_of g fs ≡ some r
unfolding new_future result_of
new_future-result_of g identity fs r h =
    let (future, found, e) = result_of-cases g (new_future identity fs) r h in
    elim (get_elem?-append_one fs (record { identity = identity; result = none }) g found) [
      | inl old ↦ rw (old, result_of) e
      | inr new ↦ cc (e, ap (λ (t : Future). t.result) new)
    ]

-- Where the credentials of a future are from.
pub complete_future-result_of :
    (g f : ℕ) (future : Future) (a : Result Credentials) (fs : List Future) (c : CachedCredentials)
    → get_elem? fs f ≡ some future
    → result_of g (complete_future f future a fs) ≡ some (issued c)
    → (result_of g fs ≡ some (issued c)) ⊎ ((f ≡ g) × (a ≡ issued c.credentials))
unfolding complete_future completed result_of
complete_future-result_of g f future a fs c there h = elim (Option-cases future.result) [
  | inr (r, e) ↦ inl (rw (e, complete_future) at h)
  | inl e ↦
      let done : Future = record future { result = some (completed future.identity a) } in
      let (new, found, e') =
        result_of-cases g (set_elem f done fs) (issued c) (rw (e, complete_future) at h) in
      elim (get_elem?-set_elem_other fs f g done) [
        | inr same ↦ inl (rw (sym same ∙ found, result_of) e')
        | inl at ↦ inr (
          at,
          completed-credentials future.identity a c (
              some-injective _ _ (
                ap (λ (t : Future). t.result)
                  (some-injective _ _
                    (sym (get_elem?-set_elem fs f done there) ∙ ap (get_elem? _) at ∙ found))
                ∙ e')),
        )
      ]
]

-- What a future with the key gave.
pub result_of-IssuedFor :
    (fs : List Future) (key : Text) (f : ℕ) (c : CachedCredentials)
    → All ResultOk fs
    → Of fs key f
    → result_of f fs ≡ some (issued c)
    → IssuedFor fs key c
result_of-IssuedFor fs key f c v o h =
    let (future, e, r) = result_of-cases f fs (issued c) h in
    let is_it : o.future ≡ future = some-injective _ _ (sym o.found ∙ e) in
    record {
      at = f;
      future = future;
      found = e;
      answered = r;
      own = All-get_elem? ResultOk f fs e v c r;
      same_key = ap (λ (t : Future). to_string t.identity) (sym is_it) ∙ o.same_key;
    }

pub result_of-own :
    (fs : List Future) (f : ℕ) (c : CachedCredentials)
    → All ResultOk fs
    → result_of f fs ≡ some (issued c)
    → IssuedFor fs (to_string c.identity) c
result_of-own fs f c v h =
    let (future, e, r) = result_of-cases f fs (issued c) h in
    let own = All-get_elem? ResultOk f fs e v c r in
    record {
      at = f;
      future = future;
      found = e;
      answered = r;
      own = own;
      same_key = ap to_string (sym own);
    }
