-- ===== src/Connections/Permissions.antt =====
-- crates/connections/src: the permissions of a connection (permissions.rs, and the calls of ctx.rs on
-- them). A map of the request is a list, in the order in which it is iterated, and a JSON value its text.
use ethui.Common.{
  ◌≡◌, refl, ap, String, Bool, not, ◌&&◌, ◌||◌, Option, none, some, List, [], ◌∷◌, ◌++◌, map, any,
  filter, ◌==◌, text_Same, pair_Same, list_Same, arith,
}

-- The web site, the method, and the caveats by their kind and value.
abbrev pub Permission : Type 0
Permission = String × (String × List (String × String))

-- The methods that are asked for, each with its caveats.
abbrev pub PermissionRequest : Type 0
PermissionRequest = List (String × List (String × String))

-- The part of `Ctx` that these calls are about.
pub record Ctx : Type 0 where
  pub domain : Option String
  pub permissions : List Permission

abbrev pub invoker : Ctx → String
invoker ctx = elim ctx.domain [ none ↦ "" | some domain ↦ domain ]

unfoldable pub into_permissions : PermissionRequest → String → List Permission
into_permissions request site = map (λ r. (site, r)) request

-- Without the date of each.
unfoldable pub into_request_permissions_result : PermissionRequest → List String
into_request_permissions_result request = map (λ r. r.0) request

abbrev pub contains : List Permission → Permission → Bool
contains ps p = any (λ q. q == p) ps

unfoldable pub request_permissions : PermissionRequest → Ctx → List String × Ctx
unfolding into_permissions into_request_permissions_result
request_permissions request ctx = (
  into_request_permissions_result request,
  record ctx { permissions = ctx.permissions ++ into_permissions request (invoker ctx) },
)

unfoldable pub revoke_permissions : PermissionRequest → Ctx → List String × Ctx
unfolding into_permissions into_request_permissions_result
revoke_permissions request ctx = (
  into_request_permissions_result request,
  record ctx {
    permissions =
        filter (λ p. not (contains (into_permissions request (invoker ctx)) p)) ctx.permissions;
  },
)

contains-append :
    (ps qs : List Permission) (p : Permission)
    → contains (ps ++ qs) p ≡ (contains ps p || contains qs p)
contains-append [] qs p = refl
contains-append (x ∷ ps) qs p = ground (arith, contains-append ps qs p)

contains-filter :
    (f : Permission → Bool) (ps : List Permission) (p : Permission)
    → contains (filter f ps) p ≡ (f p && contains ps p)
contains-filter f [] p = ground arith
contains-filter f (x ∷ ps) p = ground (
  arith,
  contains-filter f ps p,
  (pair_Same {A = String} {B = String × List (String × String)}).same_iff x p,
  ap f {x = x} {y = p},
)

-- After a revocation a connection has exactly the permissions that it had and that the request does not
-- name, with its caveats, for the site; after a request it has those that it had and those that it names.
pub permissions-exact :
    (request : PermissionRequest) (ctx : Ctx) (p : Permission)
    → let named = contains (into_permissions request (invoker ctx)) p in
      (contains (revoke_permissions request ctx).1.permissions p
        ≡ (not named && contains ctx.permissions p))
      × (contains (request_permissions request ctx).1.permissions p
          ≡ (contains ctx.permissions p || named))
unfolding request_permissions revoke_permissions into_permissions
permissions-exact request ctx p =
    let named = into_permissions request (invoker ctx) in
    (
      contains-filter (λ q. not (contains named q)) ctx.permissions p,
      contains-append ctx.permissions named p,
    )
